-- ===== src/Session/Effects.antt =====
-- What `thd_enable(tid)` and `thd_disable(tid)` come to, by the kernel's answer to the signal.
use mathlib.Core.Option
use sysfail.Prelude.{ℕ, ◌≡◌, refl, Bool, true, false, none, ◌∙◌, ap}
use sysfail.Prelude.Dict.{
  Dict, lookup, insert, modify, lookup-insert, modify-modify, beq_refl, nat_eq,
}
use sysfail.Signal.{send_signal, queued, called_back}
use sysfail.Session.{
  ThdState, Filter, block, fresh_state, Process, Outside, Action, ok, release, signal, coordinate,
  enable_sysfail, disable_sysfail, switch,
}
use sysfail.Session.Protocol.{with_count, IsReady, coordinate_ok, lookup-modify_self}

-- The entry of `tid` with this filter, and the semaphore at 1.
abbrev pub settle : ℕ → Filter → Dict ℕ ThdState → Dict ℕ ThdState
settle tid on m = modify tid (λ st. record { on = on; sig_coord = 1 }) m

abbrev pub with_entry : ℕ → Process → Process
with_entry tid s = record s { thd_st = insert tid fresh_state s.thd_st }

pub with_entry-IsReady :
    (tid : ℕ) (s : Process) → lookup tid s.thd_st ≡ none → IsReady tid (with_entry tid s)
with_entry-IsReady tid s e = record {
  entry = fresh_state;
  found = rw (lookup-insert tid tid fresh_state s.thd_st, beq_refl tid, e) refl;
  at_one = refl;
}

module _ (o : Outside) (tid : ℕ) (s : Process) where
  signal_queued :
      (handler : Action (Unit {0}))
      → send_signal (o.answer tid) true ≡ queued
      → signal o tid handler s ≡ handler s
  unfolding signal
  signal_queued handler e = rw e refl

  signal_called_back :
      (handler : Action (Unit {0}))
      → send_signal (o.answer tid) true ≡ called_back
      → signal o tid handler s ≡ release tid s
  unfolding signal
  signal_called_back handler e = rw e refl

  enable_handler :
      s.session ≡ true
      → o.prctl_ok tid ≡ true
      → enable_sysfail o tid (with_count 0 tid s)
        ≡ (ok tt, record s { thd_st = settle tid block s.thd_st; sud = switch s.sud tid true })
  unfolding enable_sysfail
  enable_handler e p = rw (e, p, modify-modify, modify-modify) refl

  disable_handler :
      s.session ≡ true
      → o.prctl_ok tid ≡ true
      → disable_sysfail o tid (with_count 0 tid s)
        ≡ (ok tt, record (with_count 1 tid s) { sud = switch s.sud tid false })
  unfolding disable_sysfail
  disable_handler e p = rw (e, p, modify-modify) refl

  callback : release tid (with_count 0 tid s) ≡ (ok tt, with_count 1 tid s)
  unfolding release
  callback = rw modify-modify refl

module _ (o : Outside) (tid : ℕ) (s : Process) where
  settle-IsReady :
      (on : Filter) (v : ℕ → Bool)
      → IsReady tid s
      → IsReady tid (record s { thd_st = settle tid on s.thd_st; sud = v })
  settle-IsReady on v r = record {
    entry = record { on = on; sig_coord = 1 };
    found =
        lookup-modify_self tid (λ st. record { on = on; sig_coord = 1 }) s.thd_st
        ∙ ap (Option.map {A = ThdState} (λ st. record { on = on; sig_coord = 1 })) r.found;
    at_one = refl;
  }

  counted-IsReady :
      (v : ℕ → Bool) → IsReady tid s → IsReady tid (record (with_count 1 tid s) { sud = v })
  counted-IsReady v r = record {
    entry = record r.entry { sig_coord = 1 };
    found =
        lookup-modify_self tid (λ st. record st { sig_coord = 1 }) s.thd_st
        ∙ ap (Option.map {A = ThdState} (λ st. record st { sig_coord = 1 })) r.found;
    at_one = refl;
  }

  pub coordinate_enable :
      IsReady tid s
      → send_signal (o.answer tid) true ≡ queued
      → s.session ≡ true
      → o.prctl_ok tid ≡ true
      → coordinate o tid (enable_sysfail o tid) s
        ≡ (ok tt, record s { thd_st = settle tid block s.thd_st; sud = switch s.sud tid true })
  coordinate_enable r q e p =
      coordinate_ok o tid (enable_sysfail o tid) s _ r
        (signal_queued o tid (with_count 0 tid s) (enable_sysfail o tid) q
          ∙ enable_handler o tid s e p)
        (settle-IsReady block (switch s.sud tid true) r)
      ∙ rw modify-modify refl

  pub coordinate_disable :
      IsReady tid s
      → send_signal (o.answer tid) true ≡ queued
      → s.session ≡ true
      → o.prctl_ok tid ≡ true
      → coordinate o tid (disable_sysfail o tid) s
        ≡ (ok tt, record (with_count 1 tid s) { sud = switch s.sud tid false })
  coordinate_disable r q e p =
      coordinate_ok o tid (disable_sysfail o tid) s _ r
        (signal_queued o tid (with_count 0 tid s) (disable_sysfail o tid) q
          ∙ disable_handler o tid s e p)
        (counted-IsReady (switch s.sud tid false) r)
      ∙ rw modify-modify refl

  pub coordinate_dead :
      (handler : Action (Unit {0}))
      → IsReady tid s
      → send_signal (o.answer tid) true ≡ called_back
      → coordinate o tid handler s ≡ (ok tt, with_count 1 tid s)
  coordinate_dead handler r q =
      coordinate_ok o tid handler s _ r
        (signal_called_back o tid (with_count 0 tid s) handler q ∙ callback o tid s)
        (counted-IsReady s.sud r)
      ∙ rw modify-modify refl
