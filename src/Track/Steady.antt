-- ===== src/Track/Steady.antt =====
-- The handler's calls keep the kernel's dispatch on in a thread that has an entry and gets its signals
-- throughout: so do the start of the monitor, its rounds and its rescans.
use sysfail.Prelude.{
  ℕ, ◌≡◌, refl, subst, true, false, some, List, [], ◌∷◌, ◌++◌, Bool, if◌then◌else◌, Option-cases,
  inl, inr,
}
use sysfail.Prelude.Dict.{nat_eq}
use sysfail.Session.{Process, Outside, Result, ok, thd_enable}
use sysfail.Session.Threads.{IsLive}
use sysfail.Session.Invariant.{Inv, IsSettled, thd_enable-Inv, thd_disable-Inv}
use sysfail.Session.Steady.{IsOn, thd_enable-IsOn, thd_disable-IsOn}
use sysfail.ThdMon.{
  DiscThdSt, self, existing, spawned, terminated, Events, ThdMon, poll_start, poll_round,
  new_monitor, scan_tasks, rescan_threads,
}
use sysfail.Plan.{Strategy, proc_poll, no_discovery}
use sysfail.Track.{
  Tracked, thd_track, track_all, observe, discover_threads, poll_session, initialize,
}

module _ (o : Outside) (tid : ℕ) (live : IsLive o tid) (c : (t : ℕ) → IsSettled o t) where
  returned :
      {x : Result (Unit {0}) × Process} {s' : Process}
      → x ≡ (ok tt, s')
      → IsOn tid x.1
      → IsOn tid s'
  returned q on = subst (λ y. IsOn tid y.1) q on

  enabling :
      (t : ℕ) (s : Process)
      → s.session ≡ true
      → Inv o s
      → IsOn tid s
      → (s' : Process) × (thd_enable o t s ≡ (ok tt, s'))
        × Inv o s'
        × (s'.session ≡ true)
        × IsOn tid s'
  enabling t s e v on =
      let (s', q, v', e', _) = thd_enable-Inv o t s (c t) e v in
      (s', q, v', e', returned q (thd_enable-IsOn o tid live t s (c t) e v on))

  -- One call of the handler returns and keeps what is needed for the next.
  thd_track-IsOn :
      (t : ℕ) (st : DiscThdSt) (s : Process)
      → s.session ≡ true
      → Inv o s
      → IsOn tid s
      → (s' : Process) × (thd_track o t st s ≡ (ok tt, s'))
        × Inv o s'
        × (s'.session ≡ true)
        × IsOn tid s'
  unfolding thd_track
  thd_track-IsOn t self s e v on = (s, refl, v, e, on)
  thd_track-IsOn t existing s e v on = enabling t s e v on
  thd_track-IsOn t spawned s e v on = enabling t s e v on
  thd_track-IsOn t terminated s e v on =
      let (s', q, v', e', _, _) = thd_disable-Inv o t s (c t) e v in
      (s', q, v', e', returned q (thd_disable-IsOn o tid live t s (c t) e v on))

  track_all-IsOn :
      (ev : Events) (s : Process)
      → s.session ≡ true
      → Inv o s
      → IsOn tid s
      → IsOn tid (track_all o ev s).1
  unfolding track_all
  track_all-IsOn [] s e v on = on
  track_all-IsOn ((t, st) ∷ ev) s e v on =
      let (s', q, v', e', on') = thd_track-IsOn t st s e v on in
      rw q (track_all-IsOn ev s' e' v' on')

  observe-IsOn :
      (r : Events × ThdMon) (s : Process)
      → s.session ≡ true
      → Inv o s
      → IsOn tid s
      → IsOn tid (observe o r s).1.process
  unfolding observe
  observe-IsOn r s e v on = track_all-IsOn r.0 s e v on

  -- A rescan, with a monitor or without one.
  pub discover_threads-IsOn :
      (listing : List ℕ) (a : Tracked)
      → a.process.session ≡ true
      → Inv o a.process
      → IsOn tid a.process
      → IsOn tid (discover_threads o listing a).1.process
  unfolding discover_threads
  discover_threads-IsOn listing a e v on = elim (Option-cases a.tmon) [
    | inl none_there ↦ rw none_there on
    | inr (mon, found) ↦ rw found (observe-IsOn (rescan_threads listing mon) a.process e v on)
  ]

  either :
      (b : Bool) (x y : Result (Unit {0}) × Tracked)
      → IsOn tid x.1.process
      → IsOn tid y.1.process
      → IsOn tid (if b then x else y).1.process
  either true x y on on' = on
  either false x y on on' = on'

  -- A round of the poller, if there is one.
  pub poll_session-IsOn :
      (listing : List ℕ) (a : Tracked)
      → a.process.session ≡ true
      → Inv o a.process
      → IsOn tid a.process
      → IsOn tid (poll_session o listing a).1.process
  unfolding poll_session
  poll_session-IsOn listing a e v on = elim (Option-cases a.tmon) [
    | inl none_there ↦ rw none_there on
    | inr (mon, found) ↦ rw found (
        either mon.polling (observe o (poll_round listing mon) a.process)
          (ok tt, record { process = a.process; tmon = some mon })
          (observe-IsOn (poll_round listing mon) a.process e v on) on)
  ]

  -- The start of the monitor, which has found the task directory.
  pub initialize-IsOn :
      (strategy : Strategy) (poller : ℕ) (listing : List ℕ) (s : Process)
      → s.session ≡ true
      → Inv o s
      → IsOn tid s
      → IsOn tid (initialize o true strategy poller listing s).1.process
  unfolding initialize
  initialize-IsOn (proc_poll itvl) poller listing s e v on =
      let (ev, mon) = poll_start poller (new_monitor true) in
      let (ev', mon') = scan_tasks listing mon in observe-IsOn (ev ++ ev', mon') s e v on
  initialize-IsOn no_discovery poller listing s e v on =
      observe-IsOn (scan_tasks listing (new_monitor false)) s e v on
