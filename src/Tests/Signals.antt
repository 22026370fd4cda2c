-- ===== src/Tests/Signals.antt =====
-- The handler of SIGSYS, and the answers to a queued signal.
use sysfail.Prelude.{
  Bool-cases, inr, arith, ◌≡◌, refl, true, false, some, [], ◌∷◌, inl, eqb, if◌then◌else◌,
}
use sysfail.Prelude.Int.{pos, neg}
use sysfail.Prelude.Dict.{lookup, nat_eq}
use sysfail.Doubles.{milli}
use sysfail.Host.{World, script, executed, queued, silenced}
use sysfail.Signal.Queue.{siginfo}
use sysfail.Syscall.{IsRegular, requested}
use sysfail.Plan.{active_plan}
use sysfail.Signal.{send_signal, called_back, ignored, assert_failed}
use sysfail.Session.{Process, allow, block}
use sysfail.Dispatch.{handle_sigsys, reenable_sysfail}
use sysfail.Dispatch.Routes.{sigprocmask_quiesced}
use sysfail.Regs.{Gregs, set_reg, reg_rax}
use sysfail.Dispatch
use sysfail.Tests.Data.{regs_of, regs_of-IsRegular, outcome, plan_of, world, empty_process}

send_signal_esrch :
    (send_signal (neg (pos 3)) true ≡ called_back)
    × (send_signal (neg (pos 3)) false ≡ ignored)
    × (send_signal (neg (pos 11)) true ≡ assert_failed)
unfolding send_signal neg
send_signal_esrch = (refl, refl, refl)

abbrev with_thread : Process
with_thread = record empty_process {
  thd_st = (7, record { on = block; sig_coord = 1 }) ∷ [];
  sud = λ t. eqb 7 t;
}

-- `rt_sigprocmask(SIG_BLOCK, set, …)`
abbrev masking : Gregs
masking i = if eqb i 8 then pos 0 else regs_of 14 i

masking-IsRegular : IsRegular masking
masking-IsRegular = record {
  nr_fits = omega arith;
  words = λ i small. elim (Bool-cases (eqb i 8)) [
    | inl e ↦ rw e (omega arith)
    | inr e ↦ rw e ((regs_of-IsRegular 14 (omega arith)).words i small)
  ];
}

accepted :
    (script.exec
      (Dispatch.Routes.rearm_call script 7)
      (script.exec (requested masking) world.kernel).1).0
    ≡ pos 0
accepted = refl

sigprocmask_quiesced_example :
    (w' : World script) × (s' : Process) × (handle_sigsys script
        (λ z. pos 1)
        (some (active_plan milli (plan_of (outcome 0 0 []))))
        7
        masking
        world
        with_thread
      ≡ some (set_reg reg_rax (script.exec (requested masking) world.kernel).0 masking, w', s'))
    × (w'.trace
        ≡ queued (pos 7) (pos 40) (siginfo script (pos 0))
          ∷ executed (Dispatch.Routes.rearm_call script 7)
          ∷ executed (requested masking)
          ∷ silenced 7
          ∷ [])
    × (lookup 7 s'.thd_st ≡ some (record { on = allow; sig_coord = 1 }))
    × (lookup 7 (reenable_sysfail 7 s').thd_st ≡ some (record { on = block; sig_coord = 1 }))
unfolding lookup
sigprocmask_quiesced_example =
    sigprocmask_quiesced script (λ z. pos 1) (active_plan milli (plan_of (outcome 0 0 []))) 7
      masking world with_thread (record { on = block; sig_coord = 1 }) refl masking-IsRegular
      (λ e. cc) (inl refl) found refl accepted
  where
    found : lookup 7 with_thread.thd_st ≡ some (record { on = block; sig_coord = 1 })
    found = refl
