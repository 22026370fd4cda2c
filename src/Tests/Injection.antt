-- ===== src/Tests/Injection.antt =====
-- One trapped syscall, injected or not, and the routes of the handler of SIGSYS.
use sysfail.Prelude.{
  ℕ, ◌≡◌, refl, true, false, none, some, List, [], ◌∷◌, ◌⊎◌, inr, arith, ◌^◌, ◌+◌,
}
use sysfail.Prelude.Int.{ℤ, pos, neg, to_int}
use sysfail.Prelude.Dict.{lookup, int_eq, nat_eq}
use sysfail.Prelude.Lists.{elem}
use sysfail.Doubles.{milli}
use sysfail.Host.{World, script, executed, executions}
use sysfail.Regs.{Gregs, set_reg, reg_rax}
use sysfail.Syscall.{IsRegular, requested}
use sysfail.Plan.{Outcome, active_outcome, active_plan, is_eligible}
use sysfail.Plan.Choice.{reaches}
use sysfail.Inject.{int_min, fail_maybe, delay_part}
use sysfail.Inject.Parts.{codes}
use sysfail.Inject.Handled.{Settles, fail_maybe-Handled}
use sysfail.Inject.Certain.{IsTarget, IsTimely, fail_maybe_transparent}
use sysfail.Inject.Limits.{fail_maybe_after, fail_maybe_undefined, fail_maybe_overflow}
use sysfail.Tests.Data.{regs_of, regs_of-IsRegular, outcome, mix, plan_of, world, chance}

-- Delayed by 7 of at most 20 microseconds before the syscall, and not failed.
abbrev gentle : Outcome milli
gentle = outcome 0 0 []

one-IsRegular : IsRegular (regs_of 1)
one-IsRegular = regs_of-IsRegular 1 (omega arith)

fail_maybe-Handled_example :
    Settles script
      (plan_of (outcome 1000 0 mix))
      (regs_of 1)
      world
      (fail_maybe script (active_plan milli (plan_of (outcome 1000 0 mix))) (regs_of 1) world)
fail_maybe-Handled_example =
    fail_maybe-Handled script (plan_of (outcome 1000 0 mix)) (regs_of 1) world one-IsRegular

target : (o : Outcome milli) → o.eligible ≡ none → IsTarget script (plan_of o) (regs_of 1) o
unfolding lookup to_int is_eligible active_outcome
target o e = record { planned = refl; accepted = rw e refl }

timely : (p bias : ℕ) (ws : List (ℤ × ℕ)) → IsTimely script (outcome p bias ws)
unfolding to_int
timely p bias ws = inr refl

full : (p bias : ℕ) → reaches milli 1000 0 (outcome p bias mix).error_weights ≡ true
unfolding reaches
full p bias = refl

no_zero : elem (pos 0) (codes mix) ≡ false
unfolding elem
no_zero = refl

no_least : elem int_min (codes mix) ≡ false
unfolding elem
no_least = refl

fail_maybe_after_example :
    (r : Gregs × World script) × (e : ℤ) × (fail_maybe script
        (active_plan milli (plan_of (outcome 1000 1000 mix)))
        (regs_of 1)
        world
      ≡ some r)
    × (elem e (codes mix) ≡ true)
    × (r.0 reg_rax ≡ neg e)
    × (executions r.1.trace ≡ requested (regs_of 1) ∷ [])
    × (r.1.kernel ≡ (script.exec (requested (regs_of 1)) world.kernel).1)
fail_maybe_after_example =
    fail_maybe_after script (plan_of (outcome 1000 1000 mix)) (regs_of 1) world
      (outcome 1000 1000 mix) (target (outcome 1000 1000 mix) refl) (timely 1000 1000 mix) refl refl
      (full 1000 1000) no_zero no_least one-IsRegular

-- A mix that comes to 0.4 only: here the draw for the error is 0.6.
abbrev short : List (ℤ × ℕ)
short = (pos 4, 100) ∷ (pos 5, 300) ∷ []

short_of_draw :
    reaches milli
      (script.draw
        (script.draw
          (delay_part script (active_outcome milli (outcome 1000 1000 short)) world).1.rng).1).0
      0
      short
    ≡ false
unfolding reaches delay_part active_outcome to_int
short_of_draw = refl

fail_maybe_undefined_example :
    fail_maybe script (active_plan milli (plan_of (outcome 1000 1000 short))) (regs_of 1) world
    ≡ none
fail_maybe_undefined_example =
    fail_maybe_undefined script (plan_of (outcome 1000 1000 short)) (regs_of 1) world
      (outcome 1000 1000 short) (target (outcome 1000 1000 short) refl) refl refl short_of_draw

-- A maximal delay of 2^31 microseconds, and always delayed.
abbrev late : Outcome milli
late = record gentle { delay = chance 1000 0; max_delay = pos (2 ^ 31 + 0) }

fail_maybe_overflow_example :
    fail_maybe script (active_plan milli (plan_of late)) (regs_of 1) world ≡ none
fail_maybe_overflow_example =
    fail_maybe_overflow script (plan_of late) (regs_of 1) world late 0 (target late refl) refl refl
      (omega arith)

unlisted :
    (o : Outcome milli)
    → lookup (to_int (pos 2)) (plan_of (outcome 1000 0 mix)).outcomes ≡ some o
    → (is_eligible milli (active_outcome milli o) (regs_of 2) ≡ false)
      ⊎ ((milli.less 0 o.delay.p ≡ false) × (milli.less 0 o.fail.p ≡ false))
unfolding lookup to_int
unlisted o e = cc

fail_maybe_transparent_example :
    fail_maybe script (active_plan milli (plan_of (outcome 1000 0 mix))) (regs_of 2) world
    ≡ some (
      set_reg reg_rax (script.exec (requested (regs_of 2)) world.kernel).0 (regs_of 2),
      record world {
        kernel = (script.exec (requested (regs_of 2)) world.kernel).1;
        trace = executed (requested (regs_of 2)) ∷ world.trace;
      },
    )
fail_maybe_transparent_example =
    fail_maybe_transparent script (plan_of (outcome 1000 0 mix)) (regs_of 2) world
      (regs_of-IsRegular 2 (omega arith)) unlisted
