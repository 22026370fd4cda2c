-- ===== src/Session/Threads.antt =====
-- `thd_enable(tid)` and `thd_disable(tid)` on threads that live and on threads that are gone.

use sysfail.Prelude.{ℕ, ◌≡◌, refl, true, false, none, arith}
use sysfail.Prelude.Dict.{lookup, insert, erase, nat_eq, erase-modify}
use sysfail.Prelude.Lists.{is_some}
use sysfail.Signal.{send_signal, queued, called_back}
use sysfail.Session.{
  block, fresh_state, Process, Outside, ok, enable_sysfail, disable_sysfail, thd_enable,
  thd_disable, switch,
}
use sysfail.Session.Protocol.{with_count, IsReady}
use sysfail.Session.Effects.{
  settle, with_entry, with_entry-IsReady, coordinate_enable, coordinate_disable, coordinate_dead,
}

-- Signals reach the thread, and `prctl` succeeds in it.
pub record IsLive (o : Outside) (tid : ℕ) : Type 0 where
  pub reached : send_signal (o.answer tid) true ≡ queued
  pub switched : o.prctl_ok tid ≡ true

-- The kernel knows no such thread.
abbrev pub IsGone : Outside → ℕ → Type 0
IsGone o tid = send_signal (o.answer tid) true ≡ called_back

-- The process with the thread enabled, from a table with no entry for it.
abbrev pub enabled : ℕ → Process → Process
enabled tid s = record s {
  thd_st = settle tid block (insert tid fresh_state s.thd_st);
  sud = switch s.sud tid true;
}

module _ (o : Outside) (tid : ℕ) (s : Process) where
  -- A live thread that the selector picks, and that has no entry, gets one with the filter at BLOCK
  -- and the semaphore back at 1, and the kernel dispatches its syscalls; the caller is not blocked.
  pub thd_enable_live :
      o.selector tid ≡ true
      → lookup tid s.thd_st ≡ none
      → s.session ≡ true
      → IsLive o tid
      → thd_enable o tid s ≡ (ok tt, enabled tid s)
  unfolding thd_enable
  thd_enable_live sel absent e live =
      rw (sel, absent)
        (coordinate_enable o tid (with_entry tid s) (with_entry-IsReady tid s absent) live.reached e
          live.switched)

  -- For a thread that is gone the caller is not blocked either, but the entry that it made stays.
  pub thd_enable_gone :
      o.selector tid ≡ true
      → lookup tid s.thd_st ≡ none
      → IsGone o tid
      → thd_enable o tid s ≡ (ok tt, with_count 1 tid (with_entry tid s))
  unfolding thd_enable
  thd_enable_gone sel absent gone =
      rw (sel, absent)
        (coordinate_dead o tid (with_entry tid s) (enable_sysfail o tid)
          (with_entry-IsReady tid s absent) gone)

  -- An entry for the thread makes the call a no-op, whatever state the thread is in.
  pub thd_enable_again : is_some (lookup tid s.thd_st) ≡ true → thd_enable o tid s ≡ (ok tt, s)
  unfolding thd_enable
  thd_enable_again e = ground arith

  -- A live thread with an entry loses it, after the kernel's dispatch is off; the caller is not
  -- blocked.
  pub thd_disable_live :
      IsReady tid s
      → s.session ≡ true
      → IsLive o tid
      → thd_disable o tid s
        ≡ (ok tt, record s { thd_st = erase tid s.thd_st; sud = switch s.sud tid false })
  unfolding thd_disable
  thd_disable_live r e live =
      rw (r.found, coordinate_disable o tid s r live.reached e live.switched, erase-modify) refl

  -- The entry of a thread that is gone is erased too.
  pub thd_disable_gone :
      IsReady tid s
      → IsGone o tid
      → thd_disable o tid s ≡ (ok tt, record s { thd_st = erase tid s.thd_st })
  unfolding thd_disable
  thd_disable_gone r gone =
      rw (r.found, coordinate_dead o tid s (disable_sysfail o tid) r gone, erase-modify) refl
