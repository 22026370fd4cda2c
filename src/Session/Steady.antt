-- ===== src/Session/Steady.antt =====
-- Threads that get their signals throughout: with an entry, the kernel's dispatch is on.
use sysfail.Prelude.{
  ℕ, ◌≡◌, true, false, arith, eqb, subst, eqb_iff, inl, inr, Option-cases, Bool-cases,
}
use sysfail.Prelude.Dict.{lookup, lookup-erase, nat_eq}
use sysfail.Prelude.Lists.{is_some}
use sysfail.Session.{Process, Outside, Result, ok, thd_enable, thd_disable}
use sysfail.Session.Threads.{
  IsLive, IsGone, thd_enable_live, thd_enable_gone, thd_disable_live, thd_disable_gone,
}
use sysfail.Session.Invariant.{
  Inv, IsSettled, enabled-Differs, gone-Differs, ready, IsLive-not-IsGone,
}

-- If the thread has an entry, the kernel dispatches its syscalls.
abbrev pub IsOn : ℕ → Process → Type 0
IsOn tid s = is_some (lookup tid s.thd_st) ≡ true → s.sud tid ≡ true

via :
    (tid : ℕ) {x : Result (Unit {0}) × Process} {s : Process}
    → x ≡ (ok tt, s)
    → IsOn tid s
    → IsOn tid x.1
via tid e h = rw e h

module _ (o : Outside) (tid : ℕ) (live : IsLive o tid) (t : ℕ) (s : Process) (c : IsSettled o t)
    (open_session : s.session ≡ true) (v : Inv o s) (on : IsOn tid s) where
  other : IsGone o t → eqb t tid ≡ false
  other gone = elim (Bool-cases (eqb t tid)) [
    | inl e ↦
        absurd (IsLive-not-IsGone o tid live (subst (λ x. IsGone o x) ((eqb_iff t tid).0 e) gone))
    | inr e ↦ e
  ]

  pub thd_enable-IsOn : IsOn tid (thd_enable o t s).1
  unfolding thd_enable
  thd_enable-IsOn = elim (Bool-cases (o.selector t)) [
    | inr out ↦ rw out on
    | inl sel ↦ elim (Option-cases (lookup t s.thd_st)) [
      | inr (st, found) ↦ rw (sel, found) on
      | inl absent ↦ elim c [
        | inl here ↦
            via tid (thd_enable_live o t s sel absent open_session here)
              (λ h. ground (arith, enabled-Differs o t s tid, on))
        | inr gone ↦
            via tid (thd_enable_gone o t s sel absent gone)
              (λ h. ground (arith, gone-Differs o t s absent tid, on, other gone))
      ]
    ]
  ]

  pub thd_disable-IsOn : IsOn tid (thd_disable o t s).1
  unfolding thd_disable
  thd_disable-IsOn = elim (Bool-cases (is_some (lookup t s.thd_st))) [
    | inr out ↦ rw out on
    | inl found ↦ elim c [
      | inl here ↦
          via tid (thd_disable_live o t s (ready o t s v found) open_session here)
            (λ h. ground (arith, lookup-erase t tid s.thd_st, on))
      | inr gone ↦
          via tid (thd_disable_gone o t s (ready o t s v found) gone)
            (λ h. ground (arith, lookup-erase t tid s.thd_st, on))
    ]
  ]
