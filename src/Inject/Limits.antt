-- ===== src/Inject/Limits.antt =====
-- Failures after the syscall, the `end()` that the code may dereference, and the bound on delays.
use sysfail.Prelude.{
  ℕ, ◌+◌, ◌^◌, ◌<◌, Bool, if◌then◌else◌, ◌≡◌, refl, ◌≢◌, true, false, Option, none, some, arith,
  ◌∷◌, ◌∙◌, ap,
}
use sysfail.Prelude.Int.{ℤ, pos, neg, to_int, eqb_ℤ_iff}
use sysfail.Signal.{is_negative}
use sysfail.Prelude.Dict.{int_eq}
use sysfail.Prelude.Lists.{elem, is_some}
use sysfail.Doubles.{Doubles}
use sysfail.Host.{Host, World, executions}
use sysfail.Regs.{Gregs, set_reg, reg_rax}
use sysfail.Syscall.{IsRegular, requested, continue_syscall-direct}
use sysfail.Plan.{Outcome, Plan, active_outcome, active_plan, lower_bound}
use sysfail.Plan.Choice.{reaches, lower_bound-reaches}
use sysfail.Inject.{
  int_min, sleep, proceed, delay_part, delay_defined, fail_part, inject, fail_maybe, failure,
  is_after,
}
use sysfail.Inject.Parts.{finished, codes, fail_part-SameKernel, delay_part-executions}
use sysfail.Inject.Certain.{
  IsTarget, fail_maybe-inject, IsTimely, inject-conclude, draw_certain, certain_pos,
  fail_part_certain, pick, not_listed, conclude_proceed, conclude_undefined, err_p,
}

module _ {d : Doubles} (h : Host d) where
  open d use {Num, less, plus, nought, unity}

  after_certain :
      (bias : Num) (r : h.Rng) → less bias unity ≡ false → is_after h bias (h.draw r).0 ≡ true
  after_certain bias r q = ground (arith, certain_pos h bias q, draw_certain h bias r q)

  finish-err :
      (after e : ℤ) (regs : Gregs) (w : World h)
      → e ≢ pos 0
      → IsRegular regs
      → ((finished h after e regs w).0 reg_rax ≡ neg e)
        × (executions (finished h after e regs w).1.trace ≡ requested regs ∷ executions w.trace)
        × ((finished h after e regs w).1.kernel ≡ (h.exec (requested regs) w.kernel).1)
  unfolding sleep set_reg
  finish-err after e regs w ne g =
      rw (continue_syscall-direct h regs w g)
        (ground (arith, eqb_ℤ_iff e (pos 0)), ground arith, ground arith)

  -- With a failure probability of 1, a bias of 1 to after the syscall, weights that come to 1, a
  -- maximal delay that an `int` holds and no error that is 0 or the least `int`, an eligible syscall of
  -- the plan, in registers that hold 64-bit values with a number in the range of `int` in %rax: the
  -- kernel gets the call that they request, once and, but for the sleeps' own, no other, and the
  -- thread sees one of the plan's errors, negated, instead of the answer.
  pub fail_maybe_after :
      (plan : Plan d) (regs : Gregs) (w : World h) (o : Outcome d)
      → IsTarget h plan regs o
      → IsTimely h o
      → less o.fail.p unity ≡ false
      → less o.fail.after_bias unity ≡ false
      → reaches d unity nought o.error_weights ≡ true
      → elem (pos 0) (codes o.error_weights) ≡ false
      → elem int_min (codes o.error_weights) ≡ false
      → IsRegular regs
      → (r : Gregs × World h) × (e : ℤ) × (fail_maybe h (active_plan d plan) regs w ≡ some r)
        × (elem e (codes o.error_weights) ≡ true)
        × (r.0 reg_rax ≡ neg e)
        × (executions r.1.trace ≡ requested regs ∷ executions w.trace)
        × (r.1.kernel ≡ (h.exec (requested regs) w.kernel).1)
  unfolding failure
  fail_maybe_after plan regs w o t timely c b full nonzero negatable g =
      let a = active_outcome d o in
      let after = (delay_part h a w).0 in
      let w' = (delay_part h a w).1 in
      let v = (fail_part h a w').1 in
      let (k, e, q, named) = pick h o (h.draw w'.rng).1 full in
      let before = delay_part-executions h a w in
      let same = fail_part-SameKernel h a w' in
      let decided : (fail_part h a w').0 ≡ proceed e =
        fail_part_certain h o w' c
        ∙ rw (after_certain o.fail.after_bias (h.draw (h.draw w'.rng).1).1 b, q) refl in
      let ne : e ≢ pos 0 = not_listed h (pos 0) e (codes o.error_weights) named nonzero in
      let (seen, once, kernel) = finish-err after e regs v ne g in
      (
        finished h after e regs v,
        e,
        fail_maybe-inject h plan regs w o t
            ∙ inject-conclude h o regs w timely
            ∙ conclude_proceed h after regs _ e
                (not_listed h int_min e (codes o.error_weights) named negatable) decided,
        named,
        seen,
        once ∙ ap (λ t. requested regs ∷ t) (ap executions same.trace ∙ before.1),
        kernel ∙ ap (λ k. (h.exec (requested regs) k).1) (same.kernel ∙ before.0),
      )

  if-none : (b : Bool) (x : Option (Gregs × World h)) → x ≡ none → (if b then x else none) ≡ none
  if-none true x e = e
  if-none false x e = refl

  -- The end of the table is dereferenced whenever the failure is to come after the syscall and the
  -- draw for the error is above every running sum of the weights: an eligible syscall of the plan
  -- with failure probability and bias 1 then has no defined outcome. So it is for every draw if the
  -- plan gives no errors.
  pub fail_maybe_undefined :
      (plan : Plan d) (regs : Gregs) (w : World h) (o : Outcome d)
      → IsTarget h plan regs o
      → less o.fail.p unity ≡ false
      → less o.fail.after_bias unity ≡ false
      → reaches d (err_p h (delay_part h (active_outcome d o) w).1) nought o.error_weights ≡ false
      → fail_maybe h (active_plan d plan) regs w ≡ none
  unfolding inject failure
  fail_maybe_undefined plan regs w o t c b short =
      let a = active_outcome d o in
      let w' = (delay_part h a w).1 in
      let missing : lower_bound d (err_p h w') a.error_by_cumulative_p ≡ none =
        not-some _ (lower_bound-reaches d o (err_p h w') ∙ short) in
      fail_maybe-inject h plan regs w o t
      ∙ if-none (delay_defined h a w) _ (
          conclude_undefined h (delay_part h a w).0 regs _ (
            fail_part_certain h o w' c
            ∙ rw (after_certain o.fail.after_bias (h.draw (h.draw w'.rng).1).1 b, missing) refl))
    where
      not-some : (r : Option (Num × ℤ)) → is_some r ≡ false → r ≡ none
      not-some none e = refl
      not-some (some x) e = cc

  to_int_overflow : (k : ℕ) → k < 2 ^ 31 → is_negative (to_int (pos (2 ^ 31 + k))) ≡ true
  unfolding to_int
  to_int_overflow k lt = ground arith

  -- A maximal delay from 2^31 up to 2^32 - 1 microseconds, which the C interface takes, is negative
  -- as the `int` that bounds the draw: with a delay probability of 1, an eligible syscall of the plan
  -- has no defined outcome.
  pub fail_maybe_overflow :
      (plan : Plan d) (regs : Gregs) (w : World h) (o : Outcome d) (k : ℕ)
      → IsTarget h plan regs o
      → less o.delay.p unity ≡ false
      → o.max_delay ≡ pos (2 ^ 31 + k)
      → k < 2 ^ 31
      → fail_maybe h (active_plan d plan) regs w ≡ none
  unfolding inject delay_defined active_outcome
  fail_maybe_overflow plan regs w o k t c m lt =
      fail_maybe-inject h plan regs w o t
      ∙ rw (certain_pos h o.delay.p c, draw_certain h o.delay.p w.rng c, m, to_int_overflow k lt)
          refl
