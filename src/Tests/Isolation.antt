-- ===== src/Tests/Isolation.antt =====
-- Syscalls of threads while a session is open and after it.
use sysfail.Prelude.{
  ℕ, ◌+◌, ◌≡◌, refl, Bool, true, false, not, ◌&&◌, some, List, [], ◌∷◌, ltb, leb, arith, inl,
}
use sysfail.Prelude.Int.{neg, pos}
use sysfail.Prelude.Dict.{lookup, insert, modify, nat_eq}
use sysfail.Doubles.{milli}
use sysfail.Host.{script}
use sysfail.Regs.{reg_rax}
use sysfail.Plan.{active_plan}
use sysfail.Map.{AddrRange}
use sysfail.Map.Lines.{range_of}
use sysfail.Signal.{send_signal}
use sysfail.Session.{
  ok, Filter, allow, block, thd_enable, coordinate, acquire, release, signal, enable_sysfail,
}
use sysfail.Inject.{fail_maybe}
use sysfail.Dispatch.{with_process}
use sysfail.Dispatch.Routes.{IsExempt}
use sysfail.Dispatch.Kernel.{UserDispatch, IsOutside, untouched, syscall_of}
use sysfail.Track.{Tracked}
use sysfail.Open.Requests.{add_thread, Call, IsCalm, request, serve, session_of, wanted_all}
use sysfail.Session.Steady.{IsOn}
use sysfail.Open.Lifecycle.{session_lem}
use sysfail.Open.Isolation.{uninjected_untouched, wanted_injected, stopped_untouched}
use sysfail.Tests.Data.{outcome, mix, plan_of, regs_of, world}
use sysfail.Tests.Maps.{lib}
use sysfail.Tests.Tracking.{round}
use sysfail.Tests.Living.{
  seven, idle_session, at_start, idle_session-Implements, calls, calm, everyone, live,
}

is_block : Filter → Bool
is_block allow = false
is_block block = true

within : AddrRange → ℕ → Bool
within r ip = leb r.start ip && ltb ip (r.start + r.length)

pub dispatch : UserDispatch
unfolding is_block within
dispatch = record {
  traps = λ on f r ip. on && (is_block f && not (within r ip));
  off = λ f r ip. refl;
  allowed = λ r ip. refl;
  inside = λ r ip le lt. ground arith;
  caught = λ r ip out. ground arith;
}

abbrev pub text : AddrRange
text = range_of lib

abbrev one_call : List Call
one_call = (round [], add_thread 7) ∷ []

-- What the call leaves.
enabled_session : Tracked
unfolding serve
enabled_session = (serve seven one_call idle_session).1

one_call_runs : serve seven one_call idle_session ≡ (ok tt, enabled_session)
unfolding enabled_session serve request thd_enable coordinate acquire release signal enable_sysfail
    send_signal neg lookup insert modify
one_call_runs = refl

one_call-IsCalm : IsCalm seven (round [], add_thread 7)
one_call-IsCalm = (everyone seven [], tt)

pub beyond : IsOutside text 0
beyond = inl (omega arith)

pub write_ordinary : ¬ IsExempt (regs_of 1 reg_rax)
write_ordinary e = ground arith

uninjected_untouched_example :
    syscall_of script dispatch text
      (λ z. pos 0)
      (active_plan milli (plan_of (outcome 1000 0 mix)))
      8
      0
      (regs_of 1)
      world
      enabled_session.process
    ≡ with_process script enabled_session.process (
        some (
          untouched script dispatch text
            (λ z. pos 0)
            (active_plan milli (plan_of (outcome 1000 0 mix)))
            (regs_of 1)
            world))
unfolding wanted_all
uninjected_untouched_example =
    uninjected_untouched script dispatch text (λ z. pos 0)
      (active_plan milli (plan_of (outcome 1000 0 mix))) false seven (round []) one_call
      idle_session at_start (one_call-IsCalm, tt) (omega arith) idle_session-Implements
      enabled_session 8 0 (regs_of 1) world one_call_runs refl

idle_session-IsOn : IsOn 7 idle_session.process
unfolding lookup
idle_session-IsOn h = cc

wanted_injected_example :
    syscall_of script dispatch text
      (λ z. pos 0)
      (active_plan milli (plan_of (outcome 1000 0 mix)))
      7
      0
      (regs_of 1)
      world
      enabled_session.process
    ≡ with_process script enabled_session.process
        (fail_maybe script (active_plan milli (plan_of (outcome 1000 0 mix))) (regs_of 1) world)
unfolding wanted_all
wanted_injected_example =
    wanted_injected script dispatch text (λ z. pos 0)
      (active_plan milli (plan_of (outcome 1000 0 mix))) false seven (round []) one_call
      idle_session at_start (one_call-IsCalm, tt) (omega arith) idle_session-Implements
      enabled_session 7 0 (regs_of 1) world idle_session-IsOn (live seven [] 7, tt) one_call_runs
      refl beyond write_ordinary

-- The session of `calls`, stopped.
stopped :
    (a1 : Tracked) × (a2 : Tracked) × (session_of seven calls (round []) idle_session ≡ (ok tt, a2))
stopped =
    let ended =
      session_lem false seven (round []) (round []) calls idle_session at_start (calm seven)
        (everyone seven []) (omega arith) idle_session-Implements in
    (ended.0, ended.1, ended.4)

stopped_untouched_example :
    syscall_of script dispatch text
      (λ z. pos 0)
      (active_plan milli (plan_of (outcome 1000 0 mix)))
      7
      0
      (regs_of 1)
      world
      stopped.1.process
    ≡ with_process script stopped.1.process (
        some (
          untouched script dispatch text
            (λ z. pos 0)
            (active_plan milli (plan_of (outcome 1000 0 mix)))
            (regs_of 1)
            world))
stopped_untouched_example =
    stopped_untouched script dispatch text (λ z. pos 0)
      (active_plan milli (plan_of (outcome 1000 0 mix))) false seven (round []) calls idle_session
      at_start (calm seven) (omega arith) idle_session-Implements (round []) stopped.1 7 0
      (regs_of 1) world (everyone seven []) stopped.2
