-- ===== src/Track/Frame.antt =====
-- The handler's calls, the start of the monitor, its rounds and its rescans: what they do with the
-- table does not depend on the kernel's dispatch, and a thread that the selector leaves out keeps its
-- own.
use sysfail.Prelude.{
  ℕ, ◌≡◌, refl, Bool, true, false, Option, none, some, List, [], ◌∷◌, if◌then◌else◌, subst, arith,
}
use sysfail.Session.{Process, Outside, Result}
use sysfail.Session.Frame.{Sim, Keeps, then-Keeps}
use sysfail.Session.Frame.Calls.{thd_enable-Keeps, thd_disable-Keeps}
use sysfail.ThdMon.{
  DiscThdSt, self, existing, spawned, terminated, Events, ThdMon, rescan_threads, poll_round,
}
use sysfail.Plan.{Strategy}
use sysfail.Track.{
  Tracked, Round, outside, reap, is_gone, thd_track, track_all, observe, initialize, first_scan,
  rescan, poll, discover_threads, poll_session,
}
use sysfail.Signal.{send_signal}

module _ (selector : ℕ → Bool) (x : ℕ) where
  -- The monitor too is the same.
  pub record SimTracked (a b : Tracked) : Type 0 where
    pub monitor : a.tmon ≡ b.tmon
    pub process : Sim selector x a.process b.process

  abbrev pub AreSimilar : Result (Unit {0}) × Tracked → Result (Unit {0}) × Tracked → Type 0
  AreSimilar y z = (y.0 ≡ z.0) × SimTracked y.1 z.1

  if-AreSimilar :
      (b : Bool) (y z : Result (Unit {0}) × Tracked) {y' z' : Result (Unit {0}) × Tracked}
      → AreSimilar y z
      → AreSimilar y' z'
      → AreSimilar (if b then y else y') (if b then z else z')
  if-AreSimilar true y z h g = h
  if-AreSimilar false y z h g = g

module _ (o : Outside) (x : ℕ) (out : o.selector x ≡ false) where
  thd_track-Keeps : (tid : ℕ) (st : DiscThdSt) → Keeps o.selector x (thd_track o tid st)
  unfolding thd_track
  thd_track-Keeps tid existing s t r = thd_enable-Keeps o x out tid s t r
  thd_track-Keeps tid spawned s t r = thd_enable-Keeps o x out tid s t r
  thd_track-Keeps tid terminated s t r = thd_disable-Keeps o x out tid s t r
  thd_track-Keeps tid self s t r = (refl, r)

  track_all-Keeps : (ev : Events) → Keeps o.selector x (track_all o ev)
  unfolding track_all
  track_all-Keeps [] s t r = (refl, r)
  track_all-Keeps ((tid, st) ∷ ev) s t r =
      then-Keeps o.selector x (thd_track o tid st) (track_all o ev) (thd_track-Keeps tid st)
        (track_all-Keeps ev) s t r

  observe-AreSimilar :
      (y : Events × ThdMon) (s t : Process)
      → Sim o.selector x s t
      → AreSimilar o.selector x (observe o y s) (observe o y t)
  unfolding observe
  observe-AreSimilar (ev, mon) s t r =
      let (e, r') = track_all-Keeps ev s t r in (e, record { monitor = refl; process = r' })

  pub initialize-AreSimilar :
      (exists : Bool) (strategy : Strategy) (poller : ℕ) (listing : List ℕ) (s t : Process)
      → Sim o.selector x s t
      → AreSimilar o.selector x
          (initialize o exists strategy poller listing s)
          (initialize o exists strategy poller listing t)
  unfolding initialize
  initialize-AreSimilar true strategy poller listing s t r =
      observe-AreSimilar (first_scan o strategy poller listing) s t r
  initialize-AreSimilar false strategy poller listing s t r =
      (refl, record { monitor = refl; process = r })

  rescan-AreSimilar :
      (listing : List ℕ) (m : Option ThdMon) (s t : Process)
      → Sim o.selector x s t
      → AreSimilar o.selector x (rescan o listing m s) (rescan o listing m t)
  unfolding rescan
  rescan-AreSimilar listing none s t r = (refl, record { monitor = refl; process = r })
  rescan-AreSimilar listing (some mon) s t r = observe-AreSimilar (rescan_threads listing mon) s t r

  pub discover_threads-AreSimilar :
      (listing : List ℕ) (a b : Tracked)
      → SimTracked o.selector x a b
      → AreSimilar o.selector x (discover_threads o listing a) (discover_threads o listing b)
  unfolding discover_threads
  discover_threads-AreSimilar listing a b r =
      subst
        (λ m.
          AreSimilar o.selector x (rescan o listing a.tmon a.process)
            (rescan o listing m b.process))
        r.monitor (rescan-AreSimilar listing a.tmon a.process b.process r.process)

  poll-AreSimilar :
      (listing : List ℕ) (m : Option ThdMon) (s t : Process)
      → Sim o.selector x s t
      → AreSimilar o.selector x (poll o listing m s) (poll o listing m t)
  unfolding poll
  poll-AreSimilar listing none s t r = (refl, record { monitor = refl; process = r })
  poll-AreSimilar listing (some mon) s t r =
      if-AreSimilar o.selector x mon.polling (observe o (poll_round listing mon) s)
        (observe o (poll_round listing mon) t) (observe-AreSimilar (poll_round listing mon) s t r)
        (refl, record { monitor = refl; process = r })

  pub poll_session-AreSimilar :
      (listing : List ℕ) (a b : Tracked)
      → SimTracked o.selector x a b
      → AreSimilar o.selector x (poll_session o listing a) (poll_session o listing b)
  unfolding poll_session
  poll_session-AreSimilar listing a b r =
      subst
        (λ m.
          AreSimilar o.selector x (poll o listing a.tmon a.process) (poll o listing m b.process))
        r.monitor (poll-AreSimilar listing a.tmon a.process b.process r.process)

-- If the thread has not ended.
pub reap-Sim :
    (selector : ℕ → Bool) (x : ℕ) (r : Round) (s t : Process)
    → is_gone (send_signal (r.answer x) true) ≡ false
    → Sim selector x s t
    → Sim selector x (reap (outside selector r) s) (reap (outside selector r) t)
reap-Sim selector x r s t here m = record {
  table = m.table;
  session = m.session;
  kept = ground (arith, m.kept, here);
  chosen = m.chosen;
}
