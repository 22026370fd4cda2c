-- ===== src/Inject.antt =====
-- `ActiveSession::fail_maybe` of src/session.cc: what happens to one trapped syscall.
pub mod Parts
pub mod Effect
pub mod Certain
pub mod Limits
pub mod Bounds
pub mod Handled
use sysfail.Prelude.{
  ◌-◌, ◌^◌, Bool, true, false, not, ◌&&◌, ◌||◌, Option, none, some, ◌∷◌, if◌then◌else◌,
}
use sysfail.Prelude.Int.{ℤ, pos, negsuc, neg, to_int, eqb_ℤ}
use sysfail.Prelude.Dict.{lookup, int_eq}
use sysfail.Doubles.{Doubles, truthy}
use sysfail.Host.{Host, World, slept}
use sysfail.Signal.{is_negative}
use sysfail.Regs.{Gregs, set_reg, reg_rax}
use sysfail.Syscall.{continue_syscall}
use sysfail.Plan.{ActiveOutcome, ActivePlan, lower_bound, is_eligible}

-- What the failure half decides: go on with the syscall and then report `fail_with` unless it is 0,
-- report an error and leave the syscall out, or dereference `end()`, which is undefined.
pub data Decision : Type 0 where
  proceed : (fail_with : ℤ) → Decision
  present : (error : ℤ) → Decision
  undefined : Decision

-- The least `int`, which has no negation in `int`.
abbrev pub int_min : ℤ
int_min = negsuc (2 ^ 31 - 1)

-- The unary minus of `int`: `none` is undefined behaviour.
unfoldable pub negated : ℤ → Option ℤ
negated e = if eqb_ℤ e int_min then none else some (neg e)

module _ {d : Doubles} (h : Host d) where
  open d use {Num, less, nought}

  -- `bias && after_p < bias`
  abbrev pub is_after : Num → Num → Bool
  is_after bias after_p = truthy d bias && less after_p bias

  -- `sleep`: one event. `std::this_thread::sleep_for` is not of this code. It makes a syscall of its own,
  -- which traps too where the thread is enabled: it is taken to be let through, as it is if the plan
  -- does not list it.
  unfoldable pub sleep : ℤ → World h → World h
  sleep dur w = record w { trace = slept dur ∷ w.trace }

  -- The delay half: `delay_after`, and the world after the sleep before the syscall, if any.
  unfoldable pub delay_part : ActiveOutcome d → World h → ℤ × World h
  unfolding sleep
  delay_part o w =
      if less nought o.delay.p
      then (let (u, r1) = h.draw w.rng in
          if less u o.delay.p
          then (let (after_p, r2) = h.draw r1 in
              let (delay, r3) = h.draw_int (to_int o.max_delay) r2 in
              let w' = record w { rng = r3 } in
              if is_after o.delay.after_bias after_p then (delay, w') else (pos 0, sleep delay w'))
          else (pos 0, record w { rng = r1 }))
      else (pos 0, w)

  -- `e->second` and the test against `end()`, by whether the failure is to come after the syscall.
  unfoldable pub failure : Bool → Option (Num × ℤ) → Decision
  failure true none = undefined
  failure true (some (k, e)) = proceed e
  failure false none = proceed (pos 0)
  failure false (some (k, e)) = present e

  -- The failure half.
  unfoldable pub fail_part : ActiveOutcome d → World h → Decision × World h
  unfolding failure
  fail_part o w =
      if less nought o.fail.p
      then (let (u, r1) = h.draw w.rng in
          if less u o.fail.p
          then (let (err_p, r2) = h.draw r1 in
              let (after_p, r3) = h.draw r2 in
              (
                failure (is_after o.fail.after_bias after_p)
                    (lower_bound d err_p o.error_by_cumulative_p),
                record w { rng = r3 },
              ))
          else (proceed (pos 0), record w { rng = r1 }))
      else (proceed (pos 0), w)

  with_answer : Option ℤ → Gregs → World h → Option (Gregs × World h)
  with_answer none regs w = none
  with_answer (some rax) regs w = some (set_reg reg_rax rax regs, w)

  -- `regs[REG_RAX] = -e`
  unfoldable pub report : ℤ → Gregs → World h → Option (Gregs × World h)
  unfolding with_answer negated
  report e regs w = with_answer (negated e) regs w

  -- The syscall, the sleep after it and the error that replaces its answer.
  unfoldable pub finish : ℤ → ℤ → Gregs → World h → Option (Gregs × World h)
  unfolding sleep report
  finish delay_after fail_with regs w =
      let (regs', w') = continue_syscall h regs w in
      let w'' = if eqb_ℤ delay_after (pos 0) then w' else sleep delay_after w' in
      if eqb_ℤ fail_with (pos 0) then some (regs', w'') else report fail_with regs' w''

  unfoldable pub conclude : ℤ → Gregs → Decision × World h → Option (Gregs × World h)
  unfolding finish report
  conclude delay_after regs (proceed fail_with, w) = finish delay_after fail_with regs w
  conclude delay_after regs (present e, w) = report e regs w
  conclude delay_after regs (undefined, w) = none

  -- Whether `delay_dist`, if it is drawn from, has its bounds in order: its upper bound is the
  -- `int` that `max_delay` converts to, and one below 0 is undefined behaviour.
  unfoldable pub delay_defined : ActiveOutcome d → World h → Bool
  delay_defined o w =
      not (less nought o.delay.p && less (h.draw w.rng).0 o.delay.p)
      || not (is_negative (to_int o.max_delay))

  -- Both halves, for a syscall that is in the plan and eligible.
  unfoldable pub inject : ActiveOutcome d → Gregs → World h → Option (Gregs × World h)
  unfolding delay_part fail_part conclude delay_defined
  inject o regs w =
      if delay_defined o w
      then (let (delay_after, w') = delay_part o w in conclude delay_after regs (fail_part o w'))
      else none

  unfoldable pub handle : Option (ActiveOutcome d) → Gregs → World h → Option (Gregs × World h)
  unfolding inject
  handle none regs w = some (continue_syscall h regs w)
  handle (some o) regs w =
      if is_eligible d o regs then inject o regs w else some (continue_syscall h regs w)

  -- `none` is undefined behaviour.
  unfoldable pub fail_maybe : ActivePlan d → Gregs → World h → Option (Gregs × World h)
  unfolding handle
  fail_maybe plan regs w = handle (lookup (to_int (regs reg_rax)) plan.active) regs w
