-- ===== src/Dispatch/Routes.antt =====
-- Which syscalls the plan can reach, and what becomes of the others.
use sysfail.Prelude.{ℕ, ◌≡◌, refl, ◌≢◌, true, some, ◌∷◌, arith, ◌⊎◌, inl, inr}
use sysfail.Prelude.Int.{ℤ, pos, eqb_ℤ_iff}
use sysfail.Prelude.Dict.{lookup, modify, nat_eq, lookup-modify, beq_refl}
use sysfail.Prelude.Lists.{is_some}
use sysfail.Doubles.{Doubles}
use sysfail.Host.{Call, Host, World, executed, queued, silenced}
use sysfail.Regs.{Gregs, set_reg, reg_rdi, reg_rsi, reg_rax}
use sysfail.Syscall.{IsRegular, requested, continue_syscall-direct, syscall}
use sysfail.Signal.{send_signal}
use sysfail.Signal.Queue.{queue_call, siginfo, send_signal_to}
use sysfail.Plan.{ActivePlan}
use sysfail.Session.{Process, ThdState, Filter, allow, block}
use sysfail.Dispatch.{
  sys_rt_sigprocmask, sys_rt_sigreturn, sys_exit, sig_block, sig_setmask, disarm, rearm, sig_rearm,
  queue_rearm, reenable_sysfail, handle_sigsys, quiesce, silence,
}

-- The syscalls that the handler treats itself.
abbrev pub IsExempt : ℤ → Type 0
IsExempt call = (call ≡ sys_rt_sigprocmask) ⊎ (call ≡ sys_rt_sigreturn) ⊎ (call ≡ sys_exit)

module _ {d : Doubles} (h : Host d) where
  -- No plan reaches `rt_sigprocmask`, `rt_sigreturn` and `exit`: under any two plans the handler
  -- does the same.
  exempt_from_plan :
      (sigsys_in : ℤ → ℤ) (p q : ActivePlan d) (tid : ℕ) (regs : Gregs) (w : World h) (s : Process)
      → IsExempt (regs reg_rax)
      → handle_sigsys h sigsys_in (some p) tid regs w s
        ≡ handle_sigsys h sigsys_in (some q) tid regs w s
  unfolding handle_sigsys
  exempt_from_plan sigsys_in p q tid regs w s (inl e) = rw e refl
  exempt_from_plan sigsys_in p q tid regs w s (inr (inl e)) = rw e refl
  exempt_from_plan sigsys_in p q tid regs w s (inr (inr e)) = rw e refl

  -- During a session, `rt_sigprocmask` is not executed at all if `sigismember` gives 0 or the
  -- command is neither SIG_BLOCK nor SIG_SETMASK: the handler changes nothing, so that the
  -- thread finds the number of the syscall in %rax as its result.
  sigprocmask_dropped :
      (sigsys_in : ℤ → ℤ) (p : ActivePlan d) (tid : ℕ) (regs : Gregs) (w : World h) (s : Process)
      → regs reg_rax ≡ sys_rt_sigprocmask
      → (sigsys_in (regs reg_rsi) ≡ pos 0)
        ⊎ ((regs reg_rdi ≢ sig_block) × (regs reg_rdi ≢ sig_setmask))
      → handle_sigsys h sigsys_in (some p) tid regs w s ≡ some (regs, w, s)
  unfolding handle_sigsys
  sigprocmask_dropped sigsys_in p tid regs w s e (inl absent) = ground arith
  sigprocmask_dropped sigsys_in p tid regs w s e (inr (b, m)) =
      ground (arith, eqb_ℤ_iff (regs reg_rdi) sig_block, eqb_ℤ_iff (regs reg_rdi) sig_setmask)

  -- The call that queues SIG_REARM.
  abbrev pub rearm_call : ℕ → Call
  rearm_call tid = queue_call h (pos tid) sig_rearm

  abbrev with_filter : ℕ → Filter → Process → Process
  with_filter tid on s = record s { thd_st = modify tid (λ st. record st { on = on }) s.thd_st }

  disarm_found :
      (tid : ℕ) (s : Process)
      → is_some (lookup tid s.thd_st) ≡ true
      → disarm tid s ≡ some (with_filter tid allow s)
  unfolding disarm
  disarm_found tid s found = ground arith

  -- The world after the filter's write, the syscall and the queueing of the signal, in this order.
  abbrev quiesced : ℕ → Gregs → World h → World h
  quiesced tid regs w = record w {
    kernel = (h.exec (rearm_call tid) (h.exec (requested regs) w.kernel).1).1;
    trace =
        queued (pos tid) sig_rearm (siginfo h (pos 0))
        ∷ executed (rearm_call tid)
        ∷ executed (requested regs)
        ∷ silenced tid
        ∷ w.trace;
  }

  quiesce_accepted :
      (tid : ℕ) (regs : Gregs) (w : World h) (s : Process)
      → IsRegular regs
      → (h.exec (rearm_call tid) (h.exec (requested regs) w.kernel).1).0 ≡ pos 0
      → quiesce h (some s) tid regs w
        ≡ some (set_reg reg_rax (h.exec (requested regs) w.kernel).0 regs, quiesced tid regs w, s)
  unfolding quiesce queue_rearm send_signal_to syscall send_signal
  quiesce_accepted tid regs w s g accepted =
      rw (continue_syscall-direct h regs (silence h tid w) g) (rw accepted refl)

  rearmed :
      (tid : ℕ) (s : Process) (st : ThdState)
      → lookup tid s.thd_st ≡ some st
      → lookup tid (rearm tid s).thd_st ≡ some (record st { on = block })
  unfolding rearm
  rearmed tid s st found = rw (lookup-modify, beq_refl tid, found) refl

  -- During a session, let a thread of the table make an `rt_sigprocmask` with SIG_BLOCK or SIG_SETMASK
  -- and a set for which `sigismember` does not give 0, in registers that hold 64-bit values, and let
  -- the kernel accept the signal that rearms the thread. Then these happen, and nothing else, in this
  -- order: the filter of the thread goes to ALLOW, the kernel gets the call that the registers request,
  -- it gets the call that queues the signal, and the signal is queued. The thread gets the kernel's
  -- answer in %rax, with no other register changed; its filter is at ALLOW, and the handler of the
  -- signal puts it at BLOCK again, with the semaphore as it was.
  pub sigprocmask_quiesced :
      (sigsys_in : ℤ → ℤ) (p : ActivePlan d) (tid : ℕ) (regs : Gregs) (w : World h) (s : Process)
      (st : ThdState)
      → regs reg_rax ≡ sys_rt_sigprocmask
      → IsRegular regs
      → sigsys_in (regs reg_rsi) ≢ pos 0
      → (regs reg_rdi ≡ sig_block) ⊎ (regs reg_rdi ≡ sig_setmask)
      → lookup tid s.thd_st ≡ some st
      → s.session ≡ true
      → (h.exec (rearm_call tid) (h.exec (requested regs) w.kernel).1).0 ≡ pos 0
      → (w' : World h) × (s' : Process) × (handle_sigsys h sigsys_in (some p) tid regs w s
          ≡ some (set_reg reg_rax (h.exec (requested regs) w.kernel).0 regs, w', s'))
        × (w'.trace
            ≡ queued (pos tid) sig_rearm (siginfo h (pos 0))
              ∷ executed (rearm_call tid)
              ∷ executed (requested regs)
              ∷ silenced tid
              ∷ w.trace)
        × (lookup tid s'.thd_st ≡ some (record st { on = allow }))
        × (lookup tid (reenable_sysfail tid s').thd_st ≡ some (record st { on = block }))
  unfolding reenable_sysfail handle_sigsys
  sigprocmask_quiesced sigsys_in p tid regs w s st e g has cmd found live accepted = (
    quiesced tid regs w,
    with_filter tid allow s,
    ground (
      arith,
      disarm_found tid s,
      quiesce_accepted tid regs w (with_filter tid allow s) g accepted,
      eqb_ℤ_iff (sigsys_in (regs reg_rsi)) (pos 0),
    ),
    refl,
    off,
    ground (arith, rearmed tid (with_filter tid allow s) (record st { on = allow }) off),
  )
    where
      off : lookup tid (with_filter tid allow s).thd_st ≡ some (record st { on = allow })
      off = rw (lookup-modify, beq_refl tid, found) refl
