-- ===== src/Session/Frame.antt =====
-- What `thd_enable(tid)`, `thd_disable(tid)` and the destructor do with the table does not depend on
-- the kernel's dispatch, and a thread that the selector leaves out keeps its own.
pub mod Calls
use sysfail.Prelude.{
  ℕ, suc, zero, ◌≡◌, refl, Bool, true, false, arith, ◌⊎◌, inl, inr, if◌then◌else◌, Bool-cases,
  eqb_iff, subst, ap,
}
use sysfail.Prelude.Dict.{
  lookup-modify, lookup-insert, lookup-erase, Dict, lookup, insert, modify, erase, nat_eq,
}
use sysfail.Prelude.Lists.{is_some}
use sysfail.Signal.{Sent, queued, called_back, ignored, assert_failed, send_signal}
use sysfail.Session.{
  acquire_count, count_of, signal_outcome, ThdState, Process, Outside, Action, Result, ok, err,
  next, pure, on_table, ◌>>◌, acquire, release, signal, coordinate, enable, disable, enable_sysfail,
  disable_sysfail, block, switch, fresh_state,
}

module _ (selector : ℕ → Bool) (x : ℕ) where
  -- The same table, with entries for threads that the selector picks, and the same session, while the
  -- kernel's dispatch is on in the thread `x`.
  pub record Sim (s t : Process) : Type 0 where
    pub table : s.thd_st ≡ t.thd_st
    pub session : s.session ≡ t.session
    pub kept : s.sud x ≡ true
    pub chosen : (u : ℕ) → is_some (lookup u t.thd_st) ≡ true → selector u ≡ true

  abbrev pub Similar : Result (Unit {0}) × Process → Result (Unit {0}) × Process → Type 0
  Similar y z = (y.0 ≡ z.0) × Sim y.1 z.1

  abbrev pub Keeps : Action (Unit {0}) → Type 0
  Keeps m = (s t : Process) → Sim s t → Similar (m s) (m t)

  next-Similar :
      (k : Action (Unit {0}))
      → Keeps k
      → (y z : Result (Unit {0}) × Process) → Similar y z
      → Similar (next y (λ _. k)) (next z (λ _. k))
  next-Similar k h (ok _, s) (ok _, t) (e, r) = h s t r
  next-Similar k h (err a, s) (err b, t) (e, r) = (e, r)
  next-Similar k h (ok _, s) (err b, t) (e, r) = absurd (ground (arith, e))
  next-Similar k h (err a, s) (ok _, t) (e, r) = absurd (ground (arith, e))

  pub then-Keeps : (m k : Action (Unit {0})) → Keeps m → Keeps k → Keeps (m >> k)
  then-Keeps m k h g s t r = next-Similar k g (m s) (m t) (h s t r)

module _ (o : Outside) (x : ℕ) (out : o.selector x ≡ false) where
  -- A new entry is one for a thread that the selector picks.
  abbrev IsPicky : (Dict ℕ ThdState → Dict ℕ ThdState) → Type 0
  IsPicky f =
      (u : ℕ) (m : Dict ℕ ThdState)
      → is_some (lookup u (f m)) ≡ true
      → (is_some (lookup u m) ≡ true) ⊎ (o.selector u ≡ true)

  insert-IsPicky : (tid : ℕ) → o.selector tid ≡ true → IsPicky (insert tid fresh_state)
  insert-IsPicky tid picked u m e = ground (
    arith,
    e,
    picked,
    lookup-insert tid u fresh_state m,
    eqb_iff tid u,
    ap o.selector {x = tid} {y = u},
  )

  modify-IsPicky : (tid : ℕ) (f : ThdState → ThdState) → IsPicky (modify tid f)
  modify-IsPicky tid f u m e = inl (ground (arith, e, lookup-modify tid u f m))

  erase-IsPicky : (tid : ℕ) → IsPicky (erase tid)
  erase-IsPicky tid u m e = inl (ground (arith, e, lookup-erase tid u m))

  on_table-Keeps :
      (f : Dict ℕ ThdState → Dict ℕ ThdState) → IsPicky f → Keeps o.selector x (on_table f)
  on_table-Keeps f p s t r = (
    refl,
    record {
      table = ap f r.table;
      session = r.session;
      kept = r.kept;
      chosen = λ u e. elim (p u t.thd_st e) [ inl there ↦ r.chosen u there | inr picked ↦ picked ];
    },
  )

  modify-Keeps : (tid : ℕ) (f : ThdState → ThdState) → Keeps o.selector x (on_table (modify tid f))
  modify-Keeps tid f = on_table-Keeps (modify tid f) (modify-IsPicky tid f)

  count-Keeps : (n tid : ℕ) → Keeps o.selector x (acquire_count n tid)
  unfolding acquire_count
  count-Keeps zero tid s t r = (refl, r)
  count-Keeps (suc n) tid s t r = modify-Keeps tid (λ st. record st { sig_coord = n }) s t r

  acquire-Keeps : (tid : ℕ) → Keeps o.selector x (acquire tid)
  unfolding acquire
  acquire-Keeps tid s t r =
      subst
        (λ m. Similar o.selector x (acquire tid s) (acquire_count (count_of (lookup tid m)) tid t))
        r.table (count-Keeps (count_of (lookup tid s.thd_st)) tid s t r)

  release-Keeps : (tid : ℕ) → Keeps o.selector x (release tid)
  unfolding release
  release-Keeps tid s t r =
      modify-Keeps tid (λ st. record st { sig_coord = suc st.sig_coord }) s t r

  -- `prctl` in a thread that the selector picks.
  switch-Keeps :
      (tid : ℕ) (v : Bool) (s t : Process)
      → o.selector tid ≡ true
      → Sim o.selector x s t
      → Sim o.selector x
          (record s { sud = switch s.sud tid v })
          (record t { sud = switch t.sud tid v })
  switch-Keeps tid v s t picked r = record {
    table = r.table;
    session = r.session;
    kept = ground (arith, r.kept, picked, out, eqb_iff tid x, ap o.selector {x = tid} {y = x});
    chosen = r.chosen;
  }

  if-Similar :
      (b c : Bool) (m k : Action (Unit {0}))
      → b ≡ c
      → Keeps o.selector x m
      → Keeps o.selector x k
      → (s t : Process) → Sim o.selector x s t
      → Similar o.selector x (if b then m s else k s) (if c then m t else k t)
  if-Similar true true m k e h g s t r = h s t r
  if-Similar false false m k e h g s t r = g s t r
  if-Similar true false m k e h g s t r = absurd (ground (arith, e))
  if-Similar false true m k e h g s t r = absurd (ground (arith, e))

  enable-Keeps : (tid : ℕ) → o.selector tid ≡ true → Keeps o.selector x (enable o tid)
  unfolding enable
  enable-Keeps tid picked s t r = elim (Bool-cases (o.prctl_ok tid)) [
    | inl p ↦
        rw p (
          modify-Keeps tid (λ st. record st { on = block }) _ _
            (switch-Keeps tid true s t picked r))
    | inr p ↦ rw p (refl, r)
  ]

  disable-Keeps : (tid : ℕ) → o.selector tid ≡ true → Keeps o.selector x (disable o tid)
  unfolding disable
  disable-Keeps tid picked s t r = elim (Bool-cases (o.prctl_ok tid)) [
    | inl p ↦ rw p (refl, switch-Keeps tid false s t picked r)
    | inr p ↦ rw p (refl, r)
  ]

  -- A handler, which releases on every way out.
  handler-Keeps :
      (tid : ℕ) (m : Action (Unit {0}))
      → Keeps o.selector x m
      → Keeps o.selector x
          (λ s. let (x, s') = if s.session then m s else pure s in (x, (release tid s').1))
  handler-Keeps tid m h s t r =
      let (e, r') =
        if-Similar s.session t.session m pure r.session h (λ s' t' q. (refl, q)) s t r in
      (e, (release-Keeps tid _ _ r').1)

  enable_sysfail-Keeps :
      (tid : ℕ) → o.selector tid ≡ true → Keeps o.selector x (enable_sysfail o tid)
  unfolding enable_sysfail
  enable_sysfail-Keeps tid picked = handler-Keeps tid (enable o tid) (enable-Keeps tid picked)

  disable_sysfail-Keeps :
      (tid : ℕ) → o.selector tid ≡ true → Keeps o.selector x (disable_sysfail o tid)
  unfolding disable_sysfail
  disable_sysfail-Keeps tid picked = handler-Keeps tid (disable o tid) (disable-Keeps tid picked)

  signal-Keeps :
      (tid : ℕ) (handler : Action (Unit {0}))
      → Keeps o.selector x handler
      → Keeps o.selector x (signal o tid handler)
  unfolding signal signal_outcome
  signal-Keeps tid handler h = by_answer (send_signal (o.answer tid) true)
    where
      by_answer : (a : Sent) → Keeps o.selector x (signal_outcome o a tid handler)
      by_answer queued s t r = h s t r
      by_answer called_back s t r = release-Keeps tid s t r
      by_answer ignored s t r = (refl, r)
      by_answer assert_failed s t r = (refl, r)

  coordinate-Keeps :
      (tid : ℕ) (handler : Action (Unit {0}))
      → Keeps o.selector x handler
      → Keeps o.selector x (coordinate o tid handler)
  unfolding coordinate
  coordinate-Keeps tid handler h = then-Keeps o.selector x (acquire tid) _ (acquire-Keeps tid) (
      then-Keeps o.selector x (signal o tid handler) _ (signal-Keeps tid handler h) (
        then-Keeps o.selector x (acquire tid) (release tid) (acquire-Keeps tid)
          (release-Keeps tid)))
