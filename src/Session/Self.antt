-- ===== src/Session/Self.antt =====
-- `thd_enable()` and `thd_disable()`, which the threads call for themselves.
use mathlib.Core.Path.{fun_ext}
use sysfail.Prelude.{ℕ, ◌≡◌, refl, true, false, none, some, arith, ap}
use sysfail.Prelude.Dict.{
  Dict, lookup, insert, modify, erase, nat_eq, erase-modify, erase-insert, erase_absent,
  lookup-insert, beq_refl, modify-modify,
}
use sysfail.Prelude.Lists.{is_some}
use sysfail.Session.{
  ThdState, Filter, allow, block, fresh_state, Process, Outside, ok, err, thrown, thd_enable_self,
  thd_disable_self, thd_enable, enable, disable, switch, ◌>>◌,
}
use sysfail.Session.Protocol.{lookup-modify_self}
use sysfail.Session.Threads.{thd_enable_again}

-- The table with an entry for the thread, its filter at `on`.
abbrev pub entered : ℕ → Filter → Dict ℕ ThdState → Dict ℕ ThdState
entered tid on m = modify tid (λ st. record st { on = on }) (insert tid fresh_state m)

lookup-entered :
    (tid : ℕ) (on : Filter) (m : Dict ℕ ThdState)
    → lookup tid m ≡ none
    → lookup tid (entered tid on m) ≡ some (record { on = on; sig_coord = 1 })
lookup-entered tid on m absent =
    rw
      (
        lookup-modify_self tid (λ st. record st { on = on }) (insert tid fresh_state m),
        lookup-insert tid tid fresh_state m,
        beq_refl tid,
        absent,
      )
      refl

erase-entered :
    (tid : ℕ) (on : Filter) (m : Dict ℕ ThdState)
    → lookup tid m ≡ none
    → erase tid (entered tid on m) ≡ m
erase-entered tid on m absent = rw (erase-modify, erase-insert) (erase_absent tid m absent)

module _ (o : Outside) (tid : ℕ) (s : Process) where
  pub enable_self_ok :
      o.selector tid ≡ true
      → lookup tid s.thd_st ≡ none
      → o.prctl_ok tid ≡ true
      → thd_enable_self o tid s
        ≡ (ok tt, record s { thd_st = entered tid block s.thd_st; sud = switch s.sud tid true })
  unfolding thd_enable_self enable
  enable_self_ok sel absent p = rw (sel, absent, p, modify-modify) refl

  enable_self_err :
      o.selector tid ≡ true
      → lookup tid s.thd_st ≡ none
      → o.prctl_ok tid ≡ false
      → thd_enable_self o tid s ≡ (err thrown, record s { thd_st = entered tid allow s.thd_st })
  unfolding thd_enable_self enable
  enable_self_err sel absent p = rw (sel, absent, p) refl

  pub disable_self_ok :
      {st : ThdState}
      → lookup tid s.thd_st ≡ some st
      → o.prctl_ok tid ≡ true
      → thd_disable_self o tid s
        ≡ (ok tt, record s { thd_st = erase tid s.thd_st; sud = switch s.sud tid false })
  unfolding thd_disable_self disable
  disable_self_ok found p = rw (found, p, erase-modify) refl

module _ (later : Outside) (tid : ℕ) (s : Process) where
  enable_self_again :
      is_some (lookup tid s.thd_st) ≡ true → thd_enable_self later tid s ≡ (ok tt, s)
  unfolding thd_enable_self
  enable_self_again e = ground arith

  is_some-entered :
      (on : Filter)
      → lookup tid s.thd_st ≡ none
      → is_some (lookup tid (entered tid on s.thd_st)) ≡ true
  is_some-entered on absent = rw (lookup-entered tid on s.thd_st absent) refl

module _ (o : Outside) (tid : ℕ) (s : Process) where
  switched_back : s.sud tid ≡ false → switch (switch s.sud tid true) tid false ≡ s.sud
  switched_back off = fun_ext λ t. ground (arith, ap s.sud {x = tid} {y = t})

  -- A thread that the selector picks, that has no entry and no dispatch, and for which `prctl`
  -- succeeds, enables itself and then disables itself: the process is as it was.
  thd_disable_self-thd_enable_self :
      o.selector tid ≡ true
      → lookup tid s.thd_st ≡ none
      → s.sud tid ≡ false
      → o.prctl_ok tid ≡ true
      → (thd_enable_self o tid >> thd_disable_self o tid) s ≡ (ok tt, s)
  thd_disable_self-thd_enable_self sel absent off p =
      rw
        (
          enable_self_ok o tid s sel absent p,
          disable_self_ok o tid
              (record s { thd_st = entered tid block s.thd_st; sud = switch s.sud tid true })
              (lookup-entered tid block s.thd_st absent) p,
          erase-entered tid block s.thd_st absent,
          switched_back off,
        )
        refl

  -- If `prctl` fails for a thread that the selector picks and that has no entry, `thd_enable()`
  -- throws and leaves the kernel's dispatch as it was, but the entry stays: from then on, whatever
  -- `prctl` answers, `thd_enable()` and `thd_enable(tid)` return and change nothing.
  pub thd_enable_self_retry :
      (later : Outside)
      → o.selector tid ≡ true
      → lookup tid s.thd_st ≡ none
      → o.prctl_ok tid ≡ false
      → let (r, s') = thd_enable_self o tid s in
        (r ≡ err thrown)
        × (s'.sud ≡ s.sud)
        × (thd_enable_self later tid s' ≡ (ok tt, s'))
        × (thd_enable later tid s' ≡ (ok tt, s'))
  thd_enable_self_retry later sel absent p = rw (enable_self_err o tid s sel absent p) (
    refl,
    refl,
    enable_self_again later tid left (is_some-entered later tid s allow absent),
    thd_enable_again later tid left (is_some-entered later tid s allow absent),
  )
    where
      left : Process
      left = record s { thd_st = entered tid allow s.thd_st }
