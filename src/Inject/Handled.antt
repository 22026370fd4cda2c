-- ===== src/Inject/Handled.antt =====
-- What a trapped syscall comes to, whatever the plan and the draws, and where it has no defined outcome.
use mathlib.Core.Option
use mathlib.Core.Option.{some-injective}
use sysfail.Prelude.{◌≡◌, refl, Option, none, some, arith, inl, inr, ◌⊎◌, ap, sym, ◌∙◌, subst}
use sysfail.Prelude.Int.{to_int}
use sysfail.Prelude.Dict.{lookup, int_eq}
use sysfail.Prelude.Lists.{is_some}
use sysfail.Doubles.{Doubles}
use sysfail.Host.{Host, World}
use sysfail.Regs.{Gregs, reg_rax}
use sysfail.Syscall.{IsRegular}
use sysfail.Plan.{Outcome, Plan, active_outcome, active_plan}
use sysfail.Plan.Lookup.{lookup-active_plan}
use sysfail.Inject.{handle, fail_maybe}
use sysfail.Inject.Parts.{IfDefined}
use sysfail.Inject.Effect.{Handled, planned_codes, fail_maybe-IfDefined}
use sysfail.Inject.Bounds.{IsSafe, handle-defined}

module _ {d : Doubles} (h : Host d) where
  -- Either the outcome is defined and as `Handled` has it, or it is undefined and the plan has an
  -- outcome for this syscall that is not safe.
  abbrev pub Settles : Plan d → Gregs → World h → Option (Gregs × World h) → Type 0
  Settles plan regs w x =
      ((r : Gregs × World h) × (x ≡ some r)
        × Handled h (planned_codes h plan (to_int (regs reg_rax))) regs w r)
      ⊎ ((x ≡ none)
          × ((o : Outcome d) × (lookup (to_int (regs reg_rax)) plan.outcomes ≡ some o)
              × (¬ IsSafe h o)))

  unsafe :
      (planned : Option (Outcome d)) (regs : Gregs) (w : World h)
      → handle h (Option.map (active_outcome d) planned) regs w ≡ none
      → (o : Outcome d) × (planned ≡ some o) × (¬ IsSafe h o)
  unfolding handle
  unsafe none regs w e = cc
  unsafe (some o) regs w e = (
    o,
    refl,
    λ safe.
        let s =
          handle-defined h (some o) regs w (λ x q. subst (IsSafe h) (some-injective o x q) safe) in
        absurd (ground (arith, s, ap is_some e)),
  )

  settled :
      (plan : Plan d) (regs : Gregs) (w : World h) (x : Option (Gregs × World h))
      → fail_maybe h (active_plan d plan) regs w ≡ x
      → IfDefined h (Handled h (planned_codes h plan (to_int (regs reg_rax))) regs w) x
      → Settles plan regs w x
  unfolding fail_maybe
  settled plan regs w (some r) e handled = inl (r, refl, handled)
  settled plan regs w none e handled = inr (
    refl,
    unsafe (lookup (to_int (regs reg_rax)) plan.outcomes) regs w
        (ap (λ o. handle h o regs w) (sym (lookup-active_plan d plan (to_int (regs reg_rax)))) ∙ e),
  )

  -- Let the registers hold 64-bit values with a number in the range of `int` in %rax. Whatever the plan
  -- and the draws, and the syscalls that the sleeps make aside, the trapped syscall ends in one of
  -- three ways. The kernel got the call that the
  -- registers request, once and no other, has the state after it, and %rax holds its answer or the
  -- negated number of an error that the plan names for this syscall. Or the kernel got no call, and
  -- %rax holds such an error. In these two no other register changes, and a syscall that the plan does
  -- not list has no errors. Or the outcome is undefined, and then the plan's outcome for this syscall
  -- asks for failures after the syscall with weights that fall short of 1, for delays with a maximum
  -- beyond `int`, or for an error that is the least `int`.
  pub fail_maybe-Handled :
      (plan : Plan d) (regs : Gregs) (w : World h)
      → IsRegular regs
      → Settles plan regs w (fail_maybe h (active_plan d plan) regs w)
  fail_maybe-Handled plan regs w g =
      settled plan regs w _ refl (fail_maybe-IfDefined h plan regs w g)
