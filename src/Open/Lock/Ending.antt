-- ===== src/Open/Lock/Ending.antt =====
-- The destructor under the lock gets to its end from every point.
use sysfail.Prelude.{
  ℕ, zero, suc, Option, some, ◌≡◌, ◌≢◌, refl, true, false, none, List, [], ◌∷◌, arith, eqb_iff, sym,
  ◌∙◌, subst,
}
use sysfail.Prelude.Dict.{lookup, keys, nat_eq}
use sysfail.Prelude.Lists.{elem, is_some, elem-keys, eq-nil_of_none}
use sysfail.ThdMon.{DiscThdSt, Events, ThdMon}
use sysfail.Session.{ThdState, Process, Outside, Action, ok}
use sysfail.Session.Invariant.{Inv, IsSettled, thd_disable-Inv}
use sysfail.Track.{thd_track}
use sysfail.Open.Lock.{
  Stop, waiting, stopped, aborted, raced, disabling, Locked, Act, act, IsByLive, leave, report,
  end_scan, lock, disable_one, check_empty, Reach, here, after, Within, IsOpen, Stage,
}
use sysfail.Open.Lock.Safety.{none-some, Returns, act-Returns, track-Returns, at, Reach-Stage}

unentered : (x : Option ThdState) → (is_some x ≡ true → false ≡ true) → x ≡ none
unentered none h = refl
unentered (some st) h = absurd (ground (arith, h refl))

module _ (o : Outside) (c : (t : ℕ) → IsSettled o t) where
  trans : {a b d : Locked} → Reach o a b → Reach o b d → Reach o a d
  trans r here = r
  trans r (after r' st) = after (trans r r') st

  -- From this point on the destructor can get to its end.
  abbrev pub CanStop : Locked → Type 0
  CanStop l = (b : Locked) × Reach o l b × (b.stop ≡ stopped)

  by_steps : {a b : Locked} → Reach o a b → CanStop b → CanStop a
  by_steps r (d, r', e) = (d, trans r r', e)

  disabling-CanStop :
      (tids : List ℕ) (s : Process) (mon : ThdMon) (n : ℕ) (x : Option Events)
      → IsOpen o s
      → Within o tids s
      → CanStop (record { process = s; tmon = mon; sharing = n; scan = x; stop = disabling tids })
  unfolding elem
  disabling-CanStop [] s mon n x h w = (
    _,
    after here
        (check_empty refl (eq-nil_of_none s.thd_st (λ t. unentered (lookup t s.thd_st) (w t)))),
    refl,
  )
  disabling-CanStop (tid ∷ tids) s mon n x h w =
      let (s1, q1, v1, e1, d1, _) = thd_disable-Inv o tid s (c tid) h.1 h.0 in
      by_steps (after here (disable_one tid tids refl q1)) (
        disabling-CanStop tids s1 mon n x (v1, e1)
          (λ t f. ground (arith, f, d1 t, w t, eqb_iff tid t)))

  idle-CanStop :
      (n : ℕ) (s : Process) (mon : ThdMon)
      → IsOpen o s
      → CanStop (record { process = s; tmon = mon; sharing = n; scan = none; stop = waiting })
  idle-CanStop zero s mon h =
      by_steps (after here (lock refl refl refl))
        (disabling-CanStop (keys s.thd_st) s mon 0 none h (λ t f. elem-keys t s.thd_st ∙ f))
  idle-CanStop (suc n) s mon h = by_steps (after here (leave n refl)) (idle-CanStop n s mon h)

  scan-CanStop :
      (ev : Events) (n : ℕ) (s : Process) (mon : ThdMon)
      → IsOpen o s
      → CanStop (record { process = s; tmon = mon; sharing = n; scan = some ev; stop = waiting })
  scan-CanStop [] n s mon h = by_steps (after here (end_scan refl)) (idle-CanStop (suc n) s mon h)
  scan-CanStop ((tid, st) ∷ ev) n s mon h =
      let (s1, q, h1) = track-Returns o c tid st s h in
      by_steps (after here (report tid st ev refl q)) (scan-CanStop ev n s1 mon h1)

  waiting-CanStop :
      (x : Option Events) (n : ℕ) (s : Process) (mon : ThdMon)
      → IsOpen o s
      → CanStop (record { process = s; tmon = mon; sharing = n; scan = x; stop = waiting })
  waiting-CanStop none n s mon h = idle-CanStop n s mon h
  waiting-CanStop (some ev) n s mon h = scan-CanStop ev n s mon h

  Stage-CanStop : (p : Stop) (l : Locked) → l.stop ≡ p → p ≢ raced → Stage o p l → CanStop l
  Stage-CanStop waiting l e d h =
      subst (λ p. CanStop (record l { stop = p })) (sym e)
        (waiting-CanStop l.scan l.sharing l.process l.tmon h)
  Stage-CanStop (disabling tids) l e d h =
      subst (λ p. CanStop (record l { stop = p })) (sym e)
        (disabling-CanStop tids l.process l.tmon l.sharing l.scan h.0 h.3)
  Stage-CanStop stopped l e d h = (l, here, e)
  Stage-CanStop aborted l e d h = absurd h
  Stage-CanStop raced l e d h = absurd (d refl)

  -- Inside the lock the session is open.
  sharing-IsOpen :
      (p : Stop) (l : Locked) (n : ℕ)
      → l.sharing ≡ suc n
      → p ≢ raced
      → Stage o p l
      → IsOpen o l.process
  sharing-IsOpen waiting l n k d h = h
  sharing-IsOpen (disabling tids) l n k d h = h.0
  sharing-IsOpen stopped l n k d h = absurd (ground (arith, k, h.0))
  sharing-IsOpen aborted l n k d h = absurd h
  sharing-IsOpen raced l n k d h = absurd (d refl)

  scanning-IsOpen :
      (p : Stop) (l : Locked) (ev : Events)
      → l.scan ≡ some ev
      → p ≢ raced
      → Stage o p l
      → IsOpen o l.process
  scanning-IsOpen waiting l ev k d h = h
  scanning-IsOpen (disabling tids) l ev k d h = h.0
  scanning-IsOpen stopped l ev k d h = absurd (none-some h.1 k)
  scanning-IsOpen aborted l ev k d h = absurd h
  scanning-IsOpen raced l ev k d h = absurd (d refl)

  returned :
      (m : Action (Unit {0})) (s : Process) → Returns o c m s → (s' : Process) × (m s ≡ (ok tt, s'))
  returned m s (s', q, _) = (s', q)

  -- Let a session without a poller be open, with the invariant, in a process where throughout every
  -- thread gets its signals or is gone, and let no method have the lock. Let the methods of any
  -- threads, a thread that calls for itself among them if it gets its signals, then interleave with
  -- each other and with the destructor in any way in which no `discover_threads` begins while another
  -- makes its scan. Every call of `add` and `remove` that has the lock returns, and so does each call
  -- that a scan makes of its handler, without an exception; no method has the lock while the
  -- destructor's loop runs; its assertion does not fail; once it is past it, the table is empty, the
  -- session is reset and the kernel dispatches no thread; and from every such point the destructor can
  -- still get there.
  pub stop_alone :
      (s : Process) (mon : ThdMon)
      → Inv o s
      → s.session ≡ true
      → mon.polling ≡ false
      → {b : Locked}
      → Reach o (record { process = s; tmon = mon; sharing = 0; scan = none; stop = waiting }) b
      → b.stop ≢ raced
      → ((a : Act) (n : ℕ)
          → b.sharing ≡ suc n
          → IsByLive o a
          → (s' : Process) × (act o a b.process ≡ (ok tt, s')))
        × ((tid : ℕ) (st : DiscThdSt) (ev : Events)
            → b.scan ≡ some ((tid, st) ∷ ev)
            → (s' : Process) × (thd_track o tid st b.process ≡ (ok tt, s')))
        × ((tids : List ℕ) → b.stop ≡ disabling tids → (b.sharing ≡ 0) × (b.scan ≡ none))
        × (b.stop ≢ aborted)
        × (b.stop ≡ stopped
            → (b.process.thd_st ≡ [])
              × (b.process.session ≡ false)
              × ((t : ℕ) → b.process.sud t ≡ false))
        × CanStop b
  stop_alone s mon v open_session no_poller {b} r d =
      let h = Reach-Stage o c (v, open_session) r in
      (
        λ a n k live.
            returned (act o a) b.process
              (act-Returns o c a b.process live (sharing-IsOpen b.stop b n k d h)),
        λ tid st ev k.
            returned (thd_track o tid st) b.process
              (track-Returns o c tid st b.process (scanning-IsOpen b.stop b _ k d h)),
        λ tids e. let z = at o c b e h in (z.1, z.2),
        λ e. at o c b e h,
        λ e. let z = at o c b e h in (z.2, z.3, z.4),
        Stage-CanStop b.stop b refl d h,
      )
