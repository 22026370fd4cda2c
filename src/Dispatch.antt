-- ===== src/Dispatch.antt =====
-- `handle_sigsys` and `reenable_sysfail` of src/session.cc: what the handler of SIGSYS does with a
-- trapped syscall, up to the jump back by `sysfail_restore`.
pub mod Routes
pub mod Kernel
use sysfail.Prelude.{ℕ, Bool, true, not, ◌&&◌, ◌||◌, Option, none, some, ◌∷◌, if◌then◌else◌}
use sysfail.Prelude.Int.{ℤ, pos, eqb_ℤ}
use sysfail.Prelude.Dict.{lookup, modify, nat_eq}
use sysfail.Prelude.Lists.{is_some}
use sysfail.Doubles.{Doubles}
use sysfail.Host.{Host, World, silenced}
use sysfail.Regs.{Gregs, reg_r8, reg_r9, reg_r10, reg_rdi, reg_rsi, reg_rdx, reg_rax, reg_rsp}
use sysfail.Syscall.{as_loaded, set_rsp_and_exec_syscall, continue_syscall}
use sysfail.Plan.{ActivePlan}
use sysfail.Signal.{Sent, queued, called_back, ignored, assert_failed}
use sysfail.Signal.Queue.{send_signal_to}
use sysfail.Session.{Process, allow, block}
use sysfail.Inject.{fail_maybe}

abbrev pub sys_rt_sigprocmask : ℤ
sys_rt_sigprocmask = pos 14

abbrev pub sys_rt_sigreturn : ℤ
sys_rt_sigreturn = pos 15

abbrev pub sys_exit : ℤ
sys_exit = pos 60

abbrev pub sig_block : ℤ
sig_block = pos 0

abbrev pub sig_setmask : ℤ
sig_setmask = pos 2

-- SIGRTMIN + 6
abbrev pub sig_rearm : ℤ
sig_rearm = pos 40

-- `ActiveSession::disarm`, for the thread `tid`: `none` is the failed assertion.
unfoldable pub disarm : ℕ → Process → Option Process
disarm tid s =
    if is_some (lookup tid s.thd_st)
    then some (record s { thd_st = modify tid (λ st. record st { on = allow }) s.thd_st })
    else none

-- `ActiveSession::rearm`
unfoldable pub rearm : ℕ → Process → Process
rearm tid s = record s { thd_st = modify tid (λ st. record st { on = block }) s.thd_st }

-- `reenable_sysfail`
unfoldable pub reenable_sysfail : ℕ → Process → Process
reenable_sysfail tid s = if s.session then rearm tid s else s

module _ {d : Doubles} (h : Host d) where
  -- The registers and the world after the handler, and the thread table; `none` is a failed
  -- assertion or undefined behaviour.
  abbrev pub Outcome : Type 0
  Outcome = Option (Gregs × World h × Process)

  rearm_sent : Sent → Gregs → World h → Process → Outcome
  rearm_sent queued regs w s = some (regs, w, s)
  rearm_sent called_back regs w s = some (regs, w, s)
  rearm_sent ignored regs w s = some (regs, w, s)
  rearm_sent assert_failed regs w s = none

  -- `send_signal<void>(tid, SIG_REARM, nullptr)`, with the callback that does nothing.
  unfoldable pub queue_rearm : ℕ → Gregs → World h → Process → Outcome
  unfolding rearm_sent send_signal_to
  queue_rearm tid regs w s =
      let (sent, w') = send_signal_to h (pos tid) sig_rearm (pos 0) true w in
      rearm_sent sent regs w' s

  -- The filter's write is an event of the world too, which has the order of what happens.
  silence : ℕ → World h → World h
  silence tid w = record w { trace = silenced tid ∷ w.trace }

  -- The branch that keeps libc's critical parts quiet: off, the syscall, and on again by a signal
  -- that stays pending while SIGSYS is blocked.
  quiesce : Option Process → ℕ → Gregs → World h → Outcome
  unfolding silence
  quiesce none tid regs w = none
  quiesce (some s) tid regs w =
      let (regs', w') = continue_syscall h regs (silence tid w) in queue_rearm tid regs' w' s

  -- `SYS_rt_sigprocmask`: the test of what `sigismember` gives, which is -1 for a null set, and
  -- then that on the command.
  unfoldable mask_syscall : ℤ → ℕ → Gregs → World h → Process → Outcome
  unfolding quiesce disarm
  mask_syscall sigsys_on tid regs w s =
      if not (eqb_ℤ sigsys_on (pos 0))
        && (eqb_ℤ (regs reg_rdi) sig_block || eqb_ℤ (regs reg_rdi) sig_setmask)
      then quiesce (disarm tid s) tid regs w
      else some (regs, w, s)

  -- `SYS_rt_sigreturn`: the call on the thread's own stack, whose result is not used.
  unfoldable return_syscall : Gregs → World h → Process → Outcome
  unfolding set_rsp_and_exec_syscall
  return_syscall regs w s =
      let (rax, w') =
        set_rsp_and_exec_syscall h
          (as_loaded (regs reg_rdi) (regs reg_rsi) (regs reg_rdx) (regs reg_r10) (regs reg_r8)
            (regs reg_r9) (regs reg_rax))
          (regs reg_rsp) w in
      some (regs, w', s)

  abbrev pub with_process : Process → Option (Gregs × World h) → Outcome
  with_process s none = none
  with_process s (some (regs, w)) = some (regs, w, s)

  -- The chain of tests, with the plan of the active session, if there is one. `sigsys_in` is
  -- `sigismember(·, SIGSYS)` on the set at an address: 1 or 0, or -1 at address 0.
  unfoldable pub handle_sigsys :
      (ℤ → ℤ) → Option (ActivePlan d) → ℕ → Gregs → World h → Process → Outcome
  unfolding mask_syscall return_syscall
  handle_sigsys sigsys_in none tid regs w s =
      if eqb_ℤ (regs reg_rax) sys_rt_sigreturn
      then return_syscall regs w s
      else with_process s (some (continue_syscall h regs w))
  handle_sigsys sigsys_in (some plan) tid regs w s =
      if eqb_ℤ (regs reg_rax) sys_rt_sigprocmask
      then mask_syscall (sigsys_in (regs reg_rsi)) tid regs w s
      else if eqb_ℤ (regs reg_rax) sys_rt_sigreturn
      then return_syscall regs w s
      else if not (eqb_ℤ (regs reg_rax) sys_exit)
      then with_process s (fail_maybe h plan regs w)
      else with_process s (some (continue_syscall h regs w))
