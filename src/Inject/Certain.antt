-- ===== src/Inject/Certain.antt =====
-- What the extremes of the plan's probabilities promise, and where the code has no defined
-- behaviour.
use sysfail.Prelude.{
  ◌≡◌, refl, true, false, none, some, List, [], ◌∷◌, arith, Option-cases, Bool-cases, inl, inr, ◌⊎◌,
  ◌≢◌, ◌∙◌, ap,
}
use sysfail.Prelude.Int.{ℤ, neg, to_int}
use sysfail.Prelude.Dict.{lookup, int_eq}
use sysfail.Prelude.Lists.{elem, is_some-some}
use sysfail.Doubles.{Doubles, truthy, less_of_less_le}
use sysfail.Signal.{is_negative}
use sysfail.Host.{Host, World, executed, executions}
use sysfail.Regs.{Gregs, set_reg, reg_rax, set_reg_self}
use sysfail.Syscall.{IsRegular, requested, continue_syscall, continue_syscall-direct}
use sysfail.Plan.{Outcome, Plan, active_outcome, active_plan, is_eligible, lower_bound}
use sysfail.Plan.Choice.{reaches, lower_bound-reaches}
use sysfail.Plan.Lookup.{lookup-active_plan}
use sysfail.Inject.{
  Decision, proceed, present, undefined, delay_part, delay_defined, fail_part, finish, conclude,
  inject, handle, fail_maybe, failure, is_after, int_min,
}
use sysfail.Inject.Parts.{
  finished, report-some, finish-some, codes, lower_bound-Named, fail_part-SameKernel,
  delay_part-executions,
}
use sysfail.Inject.Effect.{LeftOut}

module _ {d : Doubles} (h : Host d) where
  open d use {Num, less, plus, nought, unity}

  -- The syscall is in the plan with the outcome `o`, whose predicate accepts it.
  pub record IsTarget (plan : Plan d) (regs : Gregs) (o : Outcome d) : Type 0 where
    pub planned : lookup (to_int (regs reg_rax)) plan.outcomes ≡ some o
    pub accepted : is_eligible d (active_outcome d o) regs ≡ true

  pub fail_maybe-inject :
      (plan : Plan d) (regs : Gregs) (w : World h) (o : Outcome d)
      → IsTarget plan regs o
      → fail_maybe h (active_plan d plan) regs w ≡ inject h (active_outcome d o) regs w
  unfolding fail_maybe handle
  fail_maybe-inject plan regs w o t =
      rw (lookup-active_plan d plan (to_int (regs reg_rax)), t.planned, t.accepted) refl

  uninjected :
      (plan : Plan d) (regs : Gregs) (w : World h)
      → ((o : Outcome d)
          → lookup (to_int (regs reg_rax)) plan.outcomes ≡ some o
          → (is_eligible d (active_outcome d o) regs ≡ false)
            ⊎ ((less nought o.delay.p ≡ false) × (less nought o.fail.p ≡ false)))
      → fail_maybe h (active_plan d plan) regs w ≡ some (continue_syscall h regs w)
  unfolding fail_maybe handle inject delay_part delay_defined fail_part conclude finish
      active_outcome
  uninjected plan regs w quiet =
      elim (Option-cases (lookup (to_int (regs reg_rax)) plan.outcomes)) [
        | inl e ↦ rw (lookup-active_plan d plan (to_int (regs reg_rax)), e) refl
        | inr (o, e) ↦
            rw (lookup-active_plan d plan (to_int (regs reg_rax)), e)
              (elim (quiet o e) [
                | inl q ↦ rw q refl
                | inr (q, r) ↦ elim (Bool-cases (is_eligible d (active_outcome d o) regs)) [
                  | inl a ↦ rw (a, q, r) refl
                  | inr a ↦ rw a refl
                ]
              ])
      ]

  -- Nothing is injected into a syscall that the plan does not list, that its predicate rejects, or
  -- whose outcome has no probability above 0, in registers that hold 64-bit values with a number in the
  -- range of `int` in %rax: the kernel gets the call that the registers request, once, its answer goes
  -- to %rax, and no other register, nor the random engine, changes.
  pub fail_maybe_transparent :
      (plan : Plan d) (regs : Gregs) (w : World h)
      → IsRegular regs
      → ((o : Outcome d)
          → lookup (to_int (regs reg_rax)) plan.outcomes ≡ some o
          → (is_eligible d (active_outcome d o) regs ≡ false)
            ⊎ ((less nought o.delay.p ≡ false) × (less nought o.fail.p ≡ false)))
      → fail_maybe h (active_plan d plan) regs w
        ≡ some (
          set_reg reg_rax (h.exec (requested regs) w.kernel).0 regs,
          record w {
            kernel = (h.exec (requested regs) w.kernel).1;
            trace = executed (requested regs) ∷ w.trace;
          },
        )
  fail_maybe_transparent plan regs w g quiet =
      uninjected plan regs w quiet ∙ ap (λ r. some r) (continue_syscall-direct h regs w g)

  -- No delay is asked for, or its maximum is one that an `int` holds.
  abbrev pub IsTimely : Outcome d → Type 0
  IsTimely o = (less nought o.delay.p ≡ false) ⊎ (is_negative (to_int o.max_delay) ≡ false)

  delay_defined_lem :
      (o : Outcome d) (w : World h) → IsTimely o → delay_defined h (active_outcome d o) w ≡ true
  unfolding delay_defined active_outcome
  delay_defined_lem o w t = ground arith

  pub inject-conclude :
      (o : Outcome d) (regs : Gregs) (w : World h)
      → IsTimely o
      → let r = delay_part h (active_outcome d o) w in
        inject h (active_outcome d o) regs w
        ≡ conclude h r.0 regs (fail_part h (active_outcome d o) r.1)
  unfolding inject
  inject-conclude o regs w t = rw (delay_defined_lem o w t) refl

  -- A number from [0, 1) is below every bound of at least 1.
  pub draw_certain : (p : Num) (r : h.Rng) → less p unity ≡ false → less (h.draw r).0 p ≡ true
  draw_certain p r q = less_of_less_le d (h.draw r).0 unity p (h.draw_below r) q

  pub certain_pos : (p : Num) → less p unity ≡ false → less nought p ≡ true
  certain_pos p q = less_of_less_le d nought unity p d.nought-less-unity q

  -- The draws of a failure half that starts in `w`: for the error, and for before or after.
  abbrev pub err_p : World h → Num
  err_p w = (h.draw (h.draw w.rng).1).0

  abbrev pub after_p : World h → Num
  after_p w = (h.draw (h.draw (h.draw w.rng).1).1).0

  pub fail_part_certain :
      (o : Outcome d) (w : World h)
      → less o.fail.p unity ≡ false
      → (fail_part h (active_outcome d o) w).0
        ≡ failure h
            (is_after h o.fail.after_bias (after_p w))
            (lower_bound d (err_p w) (active_outcome d o).error_by_cumulative_p)
  unfolding fail_part active_outcome
  fail_part_certain o w c = rw (certain_pos o.fail.p c, draw_certain o.fail.p w.rng c) refl

  reaches_mono :
      (x y c : Num) (ws : List (ℤ × Num))
      → less x y ≡ true
      → reaches d y c ws ≡ true
      → reaches d x c ws ≡ true
  unfolding reaches
  reaches_mono x y c [] lt r = r
  reaches_mono x y c ((e, w) ∷ ws) lt r =
      ground (arith, d.less_trans (plus c w) x y, reaches_mono x y (plus c w) ws lt)

  -- If some running sum of the weights comes to 1 or more, every draw picks an error of the plan.
  pub pick :
      (o : Outcome d) (r : h.Rng)
      → reaches d unity nought o.error_weights ≡ true
      → (k : Num) × (e : ℤ) × (lower_bound d (h.draw r).0 (active_outcome d o).error_by_cumulative_p
          ≡ some (k, e))
        × (elem e (codes o.error_weights) ≡ true)
  pick o r full =
      let ((k, e), q) = is_some-some _ (
        lower_bound-reaches d o (h.draw r).0
        ∙ reaches_mono (h.draw r).0 unity nought o.error_weights (h.draw_below r) full) in
      (k, e, q, rw q at (lower_bound-Named d o (h.draw r).0))

  conclude_present :
      (after : ℤ) (regs : Gregs) (r : Decision × World h) (e : ℤ)
      → e ≢ int_min
      → r.0 ≡ present e
      → conclude h after regs r ≡ some (set_reg reg_rax (neg e) regs, r.1)
  unfolding conclude
  conclude_present after regs (x, w') e ne q = rw q (report-some h e regs w' ne)

  pub conclude_proceed :
      (after : ℤ) (regs : Gregs) (r : Decision × World h) (e : ℤ)
      → e ≢ int_min
      → r.0 ≡ proceed e
      → conclude h after regs r ≡ some (finished h after e regs r.1)
  unfolding conclude
  conclude_proceed after regs (x, w') e ne q = rw q (finish-some h after e regs w' ne)

  pub conclude_undefined :
      (after : ℤ) (regs : Gregs) (r : Decision × World h)
      → r.0 ≡ undefined
      → conclude h after regs r ≡ none
  unfolding conclude
  conclude_undefined after regs (x, w') q = rw q refl

  -- A listed error is not one that the list leaves out.
  pub not_listed : (x e : ℤ) (es : List ℤ) → elem e es ≡ true → elem x es ≡ false → e ≢ x
  not_listed x e es p q z = cc (ap (λ y. elem y es) z)

  -- With a failure probability of 1, no bias to after the syscall, weights that come to 1, a maximal
  -- delay that an `int` holds and no error that is the least `int`, an eligible syscall of the plan is never executed: the thread
  -- sees one of the plan's errors.
  pub fail_maybe_before :
      (plan : Plan d) (regs : Gregs) (w : World h) (o : Outcome d)
      → IsTarget plan regs o
      → IsTimely o
      → less o.fail.p unity ≡ false
      → truthy d o.fail.after_bias ≡ false
      → reaches d unity nought o.error_weights ≡ true
      → elem int_min (codes o.error_weights) ≡ false
      → (r : Gregs × World h) × (fail_maybe h (active_plan d plan) regs w ≡ some r)
        × LeftOut h (codes o.error_weights) w r.0 r.1
  unfolding failure
  fail_maybe_before plan regs w o t timely c b full negatable =
      let a = active_outcome d o in
      let w' = (delay_part h a w).1 in
      let (k, e, q, named) = pick o (h.draw w'.rng).1 full in
      let before = delay_part-executions h a w in
      let same = fail_part-SameKernel h a w' in
      let decided : (fail_part h a w').0 ≡ present e = fail_part_certain o w' c ∙ rw (b, q) refl in
      (
        (set_reg reg_rax (neg e) regs, (fail_part h a w').1),
        fail_maybe-inject plan regs w o t
            ∙ inject-conclude o regs w timely
            ∙ conclude_present (delay_part h a w).0 regs _ e
                (not_listed int_min e (codes o.error_weights) named negatable) decided,
        record {
          never = ap executions same.trace ∙ before.1;
          kernel = same.kernel ∙ before.0;
          answer = (e, named, set_reg_self reg_rax (neg e) regs);
        },
      )
