-- ===== src/Session/Own.antt =====
-- A thread that calls `thd_enable()` or `thd_disable()` for itself, against another thread that calls
-- `thd_enable(tid)` or `thd_disable(tid)` for it.
use sysfail.Prelude.{
  ℕ, ◌≡◌, refl, true, none, [], ◌∷◌, arith, ◌∙◌, sym, inl, inr, Bool-cases, Option-cases,
}
use sysfail.Prelude.Dict.{Dict, lookup, insert, modify, nat_eq}
use sysfail.Session.{
  ThdState, block, fresh_state, Process, Outside, thd_enable_self, thd_disable_self, thd_enable,
  thd_disable,
}
use sysfail.Session.Effects.{settle}
use sysfail.Session.Threads.{IsLive, thd_enable_live, thd_disable_live}
use sysfail.Session.Invariant.{Inv}
use sysfail.Session.Self.{entered, enable_self_ok, disable_self_ok}

entered_settled :
    (tid : ℕ) (m : Dict ℕ ThdState)
    → lookup tid m ≡ none
    → entered tid block m ≡ settle tid block (insert tid fresh_state m)
unfolding insert modify lookup
entered_settled tid [] h = ground arith
entered_settled tid ((j, w) ∷ m) h = ground (arith, entered_settled tid m)

module _ (o : Outside) (tid : ℕ) (s : Process) where
  thd_enable_self_remote :
      IsLive o tid → s.session ≡ true → thd_enable_self o tid s ≡ thd_enable o tid s
  unfolding thd_enable_self thd_enable
  thd_enable_self_remote live e = elim (Bool-cases (o.selector tid)) [
    | inr out ↦ rw out refl
    | inl sel ↦ elim (Option-cases (lookup tid s.thd_st)) [
      | inr (st, found) ↦ rw (sel, found) refl
      | inl absent ↦
          enable_self_ok o tid s sel absent live.switched
          ∙ rw (entered_settled tid s.thd_st absent) refl
          ∙ sym (thd_enable_live o tid s sel absent e live)
    ]
  ]

  thd_disable_self_remote :
      IsLive o tid → s.session ≡ true → Inv o s → thd_disable_self o tid s ≡ thd_disable o tid s
  unfolding thd_disable_self thd_disable
  thd_disable_self_remote live e v = elim (Option-cases (lookup tid s.thd_st)) [
    | inl absent ↦ rw absent refl
    | inr (st, found) ↦
        disable_self_ok o tid s found live.switched
        ∙ sym (
            thd_disable_live o tid s
              (record { entry = st; found = found; at_one = v.at_one tid st found }) e live)
  ]

  -- In a process with the invariant, a thread that gets its signals, and for which `prctl`
  -- succeeds, enables or disables itself with the same effect as another thread that does it for it.
  pub self-remote :
      IsLive o tid
      → s.session ≡ true
      → Inv o s
      → (thd_enable_self o tid s ≡ thd_enable o tid s)
        × (thd_disable_self o tid s ≡ thd_disable o tid s)
  self-remote live e v = (thd_enable_self_remote live e, thd_disable_self_remote live e v)
