-- ===== src/Session/Frame/Calls.antt =====
-- The calls of a session and its destructor, in processes that differ in the kernel's dispatch alone.
use sysfail.Prelude.{
  ℕ, ◌≡◌, refl, false, List, [], ◌∷◌, arith, inl, inr, if◌then◌else◌, Bool-cases, subst, ap,
}
use sysfail.Prelude.Dict.{Dict, lookup, insert, erase, keys, nat_eq}
use sysfail.Prelude.Lists.{is_some}
use sysfail.Session.{
  ThdState, Outside, Action, ok, pure, on_table, ◌>>◌, coordinate, enable, disable, enable_sysfail,
  disable_sysfail, thd_enable, thd_disable, thd_enable_self, thd_disable_self, allow, disable_all,
  assert_empty, close, set_filter, fresh_state,
}
use sysfail.Session.Frame.{
  Similar, Keeps, then-Keeps, on_table-Keeps, insert-IsPicky, erase-IsPicky, modify-Keeps,
  if-Similar, enable-Keeps, disable-Keeps, coordinate-Keeps, enable_sysfail-Keeps,
  disable_sysfail-Keeps,
}

module _ (o : Outside) (x : ℕ) (out : o.selector x ≡ false) where
  pub thd_enable-Keeps : (tid : ℕ) → Keeps o.selector x (thd_enable o tid)
  unfolding thd_enable
  thd_enable-Keeps tid s t r = elim (Bool-cases (o.selector tid)) [
    | inr e ↦ rw e (refl, r)
    | inl e ↦ rw e (
        if-Similar o x out (is_some (lookup tid s.thd_st)) (is_some (lookup tid t.thd_st)) pure
          (on_table (insert tid fresh_state) >> coordinate o tid (enable_sysfail o tid))
          (ap (λ m. is_some (lookup tid m)) r.table) (λ s' t' q. (refl, q))
          (then-Keeps o.selector x (on_table (insert tid fresh_state)) _
            (on_table-Keeps o x out (insert tid fresh_state) (insert-IsPicky o x out tid e))
            (coordinate-Keeps o x out tid (enable_sysfail o tid)
              (enable_sysfail-Keeps o x out tid e)))
          s t r)
  ]

  pub thd_disable-Keeps : (tid : ℕ) → Keeps o.selector x (thd_disable o tid)
  unfolding thd_disable
  thd_disable-Keeps tid s t r = elim (Bool-cases (is_some (lookup tid t.thd_st))) [
    | inl e ↦
        if-Similar o x out (is_some (lookup tid s.thd_st)) (is_some (lookup tid t.thd_st))
          (coordinate o tid (disable_sysfail o tid) >> on_table (erase tid)) pure
          (ap (λ m. is_some (lookup tid m)) r.table)
          (then-Keeps o.selector x (coordinate o tid (disable_sysfail o tid)) (on_table (erase tid))
            (coordinate-Keeps o x out tid (disable_sysfail o tid)
              (disable_sysfail-Keeps o x out tid (r.chosen tid e)))
            (on_table-Keeps o x out (erase tid) (erase-IsPicky o x out tid)))
          (λ s' t' q. (refl, q)) s t r
    | inr e ↦ ground (arith, e, r, ap (λ m. is_some (lookup tid m)) r.table)
  ]

  disable_all-Keeps : (tids : List ℕ) → Keeps o.selector x (disable_all o tids)
  unfolding disable_all
  disable_all-Keeps [] s t r = (refl, r)
  disable_all-Keeps (tid ∷ tids) s t r =
      then-Keeps o.selector x (thd_disable o tid) (disable_all o tids) (thd_disable-Keeps tid)
        (disable_all-Keeps tids) s t r

  assert-Similar : (m : Dict ℕ ThdState) → Keeps o.selector x (assert_empty o m)
  unfolding assert_empty
  assert-Similar [] s t r = (refl, r)
  assert-Similar (x ∷ m) s t r = (refl, r)

  asserted-Keeps : Keeps o.selector x (λ s. assert_empty o s.thd_st s)
  asserted-Keeps s t r =
      subst (λ m. Similar o.selector x (assert_empty o s.thd_st s) (assert_empty o m t)) r.table
        (assert-Similar s.thd_st s t r)

  reset-Keeps : Keeps o.selector x (λ s. (ok tt, record s { session = false }))
  reset-Keeps s t r =
      (refl, record { table = r.table; session = refl; kept = r.kept; chosen = r.chosen })

  -- The destructor, on the ids of this table.
  abbrev closing : Dict ℕ ThdState → Action (Unit {0})
  closing m =
      disable_all o (keys m)
      >> (λ s'. assert_empty o s'.thd_st s')
      >> (λ s'. (ok tt, record s' { session = false }))

  closing-Keeps : (m : Dict ℕ ThdState) → Keeps o.selector x (closing m)
  closing-Keeps m =
      then-Keeps o.selector x (disable_all o (keys m) >> (λ s'. assert_empty o s'.thd_st s')) _
        (then-Keeps o.selector x (disable_all o (keys m)) (λ s'. assert_empty o s'.thd_st s')
          (disable_all-Keeps (keys m)) asserted-Keeps)
        reset-Keeps

  pub close-Keeps : Keeps o.selector x (close o)
  unfolding close assert_empty
  close-Keeps s t r =
      subst (λ m. Similar o.selector x (close o s) (if t.session then closing m t else (ok tt, t)))
        r.table
        (if-Similar o x out s.session t.session (closing s.thd_st) pure r.session
          (closing-Keeps s.thd_st) (λ s' t' q. (refl, q)) s t r)

  pub thd_enable_self-Keeps : (tid : ℕ) → Keeps o.selector x (thd_enable_self o tid)
  unfolding thd_enable_self
  thd_enable_self-Keeps tid s t r = elim (Bool-cases (o.selector tid)) [
    | inr e ↦ rw e (refl, r)
    | inl e ↦ rw e (
        if-Similar o x out (is_some (lookup tid s.thd_st)) (is_some (lookup tid t.thd_st)) pure
          (on_table (insert tid fresh_state) >> set_filter tid allow >> enable o tid)
          (ap (λ m. is_some (lookup tid m)) r.table) (λ s' t' q. (refl, q))
          (then-Keeps o.selector x (on_table (insert tid fresh_state) >> set_filter tid allow) _
            (then-Keeps o.selector x (on_table (insert tid fresh_state)) _
              (on_table-Keeps o x out (insert tid fresh_state) (insert-IsPicky o x out tid e))
              (modify-Keeps o x out tid (λ st. record st { on = allow })))
            (enable-Keeps o x out tid e))
          s t r)
  ]

  pub thd_disable_self-Keeps : (tid : ℕ) → Keeps o.selector x (thd_disable_self o tid)
  unfolding thd_disable_self
  thd_disable_self-Keeps tid s t r = elim (Bool-cases (is_some (lookup tid t.thd_st))) [
    | inl e ↦
        if-Similar o x out (is_some (lookup tid s.thd_st)) (is_some (lookup tid t.thd_st))
          (set_filter tid allow >> disable o tid >> on_table (erase tid)) pure
          (ap (λ m. is_some (lookup tid m)) r.table)
          (then-Keeps o.selector x (set_filter tid allow >> disable o tid) (on_table (erase tid))
            (then-Keeps o.selector x (set_filter tid allow) (disable o tid)
              (modify-Keeps o x out tid (λ st. record st { on = allow }))
              (disable-Keeps o x out tid (r.chosen tid e)))
            (on_table-Keeps o x out (erase tid) (erase-IsPicky o x out tid)))
          (λ s' t' q. (refl, q)) s t r
    | inr e ↦ ground (arith, e, r, ap (λ m. is_some (lookup tid m)) r.table)
  ]
