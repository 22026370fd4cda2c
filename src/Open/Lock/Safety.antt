-- ===== src/Open/Lock/Safety.antt =====
-- The destructor under the lock: its loop has the table for itself, so its assertion holds.
use sysfail.Prelude.{
  ℕ, suc, Option, none, some, [], ◌≡◌, refl, true, ◌∷◌, arith, eqb_iff, sym, ◌∙◌, ap, subst,
  Bool-cases,
}
use sysfail.Prelude.Dict.{Dict, lookup, nat_eq}
use sysfail.Prelude.Lists.{elem, is_some, elem-keys}
use sysfail.ThdMon.{DiscThdSt, self, existing, spawned, terminated, Events, ThdMon, rescan_threads}
use sysfail.Session.{ThdState, Process, Outside, Action, ok, thd_enable, thd_disable}
use sysfail.Session.Invariant.{IsSettled, thd_enable-Inv, thd_disable-Inv}
use sysfail.Session.Own.{self-remote}
use sysfail.Track.{thd_track}
use sysfail.Open.Lock.{
  Stop, waiting, stopped, aborted, disabling, Locked, Act, add_this_thread, remove_this_thread,
  add_thread, remove_thread, raced, act, IsByLive, Step, enter, call, leave, begin_scan, report,
  end_scan, race, lock, disable_one, check_empty, check_failed, Reach, here, after, Within, IsOpen,
  Stage,
}

pub none-some : {x : Option Events} {ev : Events} → x ≡ none → x ≡ some ev → ⊥
none-some e f = cc

module _ (o : Outside) (c : (t : ℕ) → IsSettled o t) where
  -- A call of one of these in an open session returns, and the session is open.
  abbrev pub Returns : Action (Unit {0}) → Process → Type 0
  Returns m s = (s' : Process) × (m s ≡ (ok tt, s')) × IsOpen o s'

  enabling : (tid : ℕ) (s : Process) → IsOpen o s → Returns (thd_enable o tid) s
  enabling tid s h =
      let (s', q, v, e, _) = thd_enable-Inv o tid s (c tid) h.1 h.0 in (s', q, (v, e))

  disabling_one : (tid : ℕ) (s : Process) → IsOpen o s → Returns (thd_disable o tid) s
  disabling_one tid s h =
      let (s', q, v, e, _, _) = thd_disable-Inv o tid s (c tid) h.1 h.0 in (s', q, (v, e))

  pub act-Returns : (a : Act) (s : Process) → IsByLive o a → IsOpen o s → Returns (act o a) s
  unfolding act
  act-Returns (add_this_thread tid) s live h =
      let (s', q, k) = enabling tid s h in (s', (self-remote o tid s live h.1 h.0).0 ∙ q, k)
  act-Returns (remove_this_thread tid) s live h =
      let (s', q, k) = disabling_one tid s h in (s', (self-remote o tid s live h.1 h.0).1 ∙ q, k)
  act-Returns (add_thread tid) s live h = enabling tid s h
  act-Returns (remove_thread tid) s live h = disabling_one tid s h

  pub track-Returns :
      (tid : ℕ) (st : DiscThdSt) (s : Process) → IsOpen o s → Returns (thd_track o tid st) s
  unfolding thd_track
  track-Returns tid existing s h = enabling tid s h
  track-Returns tid spawned s h = enabling tid s h
  track-Returns tid terminated s h = disabling_one tid s h
  track-Returns tid self s h = (s, refl, h)

  -- A call that returns in an open session leaves it open.
  ended-IsOpen :
      (m : Action (Unit {0})) (s s' : Process) → Returns m s → m s ≡ (ok tt, s') → IsOpen o s'
  ended-IsOpen m s s' (s1, q1, h1) q = subst (IsOpen o) (ap (λ x. x.1) (sym q1 ∙ q)) h1

  call-Stage :
      (p : Stop) (l : Locked) (a : Act) (n : ℕ) (s : Process)
      → l.sharing ≡ suc n
      → IsByLive o a
      → act o a l.process ≡ (ok tt, s)
      → Stage o p l
      → Stage o p (record l { process = s })
  call-Stage waiting l a n s k live q h =
      ended-IsOpen (act o a) l.process s (act-Returns a l.process live h) q
  call-Stage (disabling tids) l a n s k live q h = absurd (ground (arith, k, h.1))
  call-Stage stopped l a n s k live q h = absurd (ground (arith, k, h.0))
  call-Stage aborted l a n s k live q h = h
  call-Stage raced l a n s k live q h = tt

  leave-Stage :
      (p : Stop) (l : Locked) (n : ℕ)
      → l.sharing ≡ suc n
      → Stage o p l
      → Stage o p (record l { sharing = n })
  leave-Stage waiting l n k h = h
  leave-Stage (disabling tids) l n k h = absurd (ground (arith, k, h.1))
  leave-Stage stopped l n k h = absurd (ground (arith, k, h.0))
  leave-Stage aborted l n k h = h
  leave-Stage raced l n k h = tt

  begin-Stage :
      (p : Stop) (l : Locked) (mon : ThdMon) (ev : Events) (n : ℕ)
      → l.sharing ≡ suc n
      → Stage o p l
      → Stage o p (record l { tmon = mon; sharing = n; scan = some ev })
  begin-Stage waiting l mon ev n k h = h
  begin-Stage (disabling tids) l mon ev n k h = absurd (ground (arith, k, h.1))
  begin-Stage stopped l mon ev n k h = absurd (ground (arith, k, h.0))
  begin-Stage aborted l mon ev n k h = h
  begin-Stage raced l mon ev n k h = tt

  report-Stage :
      (p : Stop) (l : Locked) (tid : ℕ) (st : DiscThdSt) (ev ev' : Events) (s : Process)
      → l.scan ≡ some ev'
      → thd_track o tid st l.process ≡ (ok tt, s)
      → Stage o p l
      → Stage o p (record l { process = s; scan = some ev })
  report-Stage waiting l tid st ev ev' s k q h =
      ended-IsOpen (thd_track o tid st) l.process s (track-Returns tid st l.process h) q
  report-Stage (disabling tids) l tid st ev ev' s k q h = absurd (none-some h.2 k)
  report-Stage stopped l tid st ev ev' s k q h = absurd (none-some h.1 k)
  report-Stage aborted l tid st ev ev' s k q h = h
  report-Stage raced l tid st ev ev' s k q h = tt

  end-Stage :
      (p : Stop) (l : Locked) (ev : Events)
      → l.scan ≡ some ev
      → Stage o p l
      → Stage o p (record l { sharing = suc l.sharing; scan = none })
  end-Stage waiting l ev k h = h
  end-Stage (disabling tids) l ev k h = absurd (none-some h.2 k)
  end-Stage stopped l ev k h = absurd (none-some h.1 k)
  end-Stage aborted l ev k h = h
  end-Stage raced l ev k h = tt

  pub at : {p : Stop} (l : Locked) → l.stop ≡ p → Stage o l.stop l → Stage o p l
  at l e h = subst (λ p. Stage o p l) e h

  none_left :
      (m : Dict ℕ ThdState) (x : ℕ × ThdState) (r : Dict ℕ ThdState)
      → m ≡ x ∷ r
      → is_some (lookup x.0 m) ≡ true
  unfolding lookup
  none_left m x r e = rw e (ground (arith, eqb_iff x.0 x.0))

  Step-Stage : {a b : Locked} → Step o a b → Stage o a.stop a → Stage o b.stop b
  unfolding elem lookup
  Step-Stage {a} (enter e) h =
      subst (λ p. Stage o p (record a { sharing = suc a.sharing })) (sym e) (at a e h)
  Step-Stage {a} (call x n {s} k live q) h = call-Stage a.stop a x n s k live q h
  Step-Stage {a} (leave n k) h = leave-Stage a.stop a n k h
  Step-Stage {a} (begin_scan listing n k free) h =
      begin-Stage a.stop a (rescan_threads listing a.tmon).1 (rescan_threads listing a.tmon).0 n k h
  Step-Stage {a} (report tid st ev {s} k q) h =
      report-Stage a.stop a tid st ev ((tid, st) ∷ ev) s k q h
  Step-Stage {a} (end_scan k) h = end-Stage a.stop a [] k h
  Step-Stage (race n ev k scans) h = tt
  Step-Stage {a} (lock e free idle) h =
      (at a e h, free, idle, λ t f. elem-keys t a.process.thd_st ∙ f)
  Step-Stage {a} (disable_one tid tids {s} e q) h =
      let (open_before, free, idle, w) = at a e h in
      let (s1, q1, v1, e1, d1, _) =
        thd_disable-Inv o tid a.process (c tid) open_before.1 open_before.0 in
      let (open_after, w') =
        subst (λ x. IsOpen o x × Within o tids x) (ap (λ x. x.1) (sym q1 ∙ q))
          ((v1, e1), λ t f. ground (arith, f, d1 t, w t, eqb_iff tid t)) in
      (open_after, free, idle, w')
  Step-Stage {a} (check_empty e empty) h =
      let (is_open, free, idle, _) = at a e h in
      (
        free,
        idle,
        empty,
        refl,
        λ t. ground (arith, is_open.0.backed t, ap (lookup t) empty, Bool-cases (a.process.sud t)),
      )
  Step-Stage {a} (check_failed x m e f) h =
      absurd (ground (arith, (at a e h).3 x.0 (none_left a.process.thd_st x m f)))

  pub Reach-Stage : {a b : Locked} → Stage o a.stop a → Reach o a b → Stage o b.stop b
  Reach-Stage h here = h
  Reach-Stage h (after r st) = Step-Stage st (Reach-Stage h r)
