-- ===== src/Inject/Effect.antt =====
-- The effect of `fail_maybe` on one syscall, whatever the plan and the draws.
use sysfail.Prelude.{
  ℕ, ◌≡◌, refl, ◌≢◌, Bool, true, false, if◌then◌else◌, Option, none, some, List, [], arith,
  Bool-cases, inl, inr, ◌⊎◌, ◌∷◌, sym, ◌∙◌, ap,
}
use mathlib.Core.Option
use sysfail.Prelude.Int.{ℤ, pos, neg, to_int, eqb_ℤ}
use sysfail.Prelude.Dict.{lookup, int_eq}
use sysfail.Prelude.Lists.{elem}
use sysfail.Doubles.{Doubles}
use sysfail.Host.{Host, World, executions}
use sysfail.Regs.{Gregs, set_reg, reg_rax, set_reg_self, set_reg_ne}
use sysfail.Syscall.{IsRegular, requested, continue_syscall, continue_syscall-direct}
use sysfail.Plan.{Outcome, Plan, active_outcome, active_plan, is_eligible}
use sysfail.Plan.Lookup.{lookup-active_plan}
use sysfail.Inject.{
  Decision, proceed, present, undefined, delay_part, delay_defined, fail_part, sleep, conclude,
  inject, handle, fail_maybe,
}
use sysfail.Inject.Parts.{
  codes, finished, IfDefined, report-IfDefined, finish-IfDefined, Reports, fail_part-SameKernel,
  fail_part-Reports, delay_part-executions,
}

module _ {d : Doubles} (h : Host d) where
  -- The syscall of the registers, and no other, ran once, and the thread sees the kernel's answer or one
  -- of the errors.
  pub record Ran (es : List ℤ) (regs : Gregs) (w : World h) (regs' : Gregs) (w' : World h)
      : Type 0 where
    pub once : executions w'.trace ≡ requested regs ∷ executions w.trace
    pub kernel : w'.kernel ≡ (h.exec (requested regs) w.kernel).1
    pub answer :
        (regs' reg_rax ≡ (h.exec (requested regs) w.kernel).0)
        ⊎ ((e : ℤ) × (elem e es ≡ true) × (regs' reg_rax ≡ neg e))

  -- The syscall was left out, and the thread sees one of the errors.
  pub record LeftOut (es : List ℤ) (w : World h) (regs' : Gregs) (w' : World h) : Type 0 where
    pub never : executions w'.trace ≡ executions w.trace
    pub kernel : w'.kernel ≡ w.kernel
    pub answer : (e : ℤ) × (elem e es ≡ true) × (regs' reg_rax ≡ neg e)

  -- What one syscall may have come to.
  pub record Handled (es : List ℤ) (regs : Gregs) (w : World h) (r : Gregs × World h) : Type 0 where
    pub others : (i : ℕ) → i ≢ reg_rax → r.0 i ≡ regs i
    pub effect : Ran es regs w r.0 r.1 ⊎ LeftOut es w r.0 r.1

  pub if-IfDefined {ℓ} :
      (P : Gregs × World h → Type ℓ) (b : Bool) (x : Option (Gregs × World h))
      → IfDefined h P x
      → IfDefined h P (if b then x else none)
  if-IfDefined P true x p = p
  if-IfDefined P false x p = tt

  -- The errors that the plan names for a syscall.
  abbrev pub outcome_codes : Option (Outcome d) → List ℤ
  outcome_codes none = []
  outcome_codes (some o) = codes o.error_weights

  abbrev pub planned_codes : Plan d → ℤ → List ℤ
  planned_codes plan call = outcome_codes (lookup call plan.outcomes)

  continue-Handled :
      (es : List ℤ) (regs : Gregs) (w : World h)
      → IsRegular regs
      → Handled es regs w (continue_syscall h regs w)
  continue-Handled es regs w g = rw (continue_syscall-direct h regs w g) record {
    others = λ i ne. set_reg_ne reg_rax i _ regs (λ e. ne (sym e));
    effect =
        inl (record { once = refl; kernel = refl; answer = inl (set_reg_self reg_rax _ regs) });
  }

  finish-Handled :
      (es : List ℤ) (after fail_with : ℤ) (regs : Gregs) (w w' : World h)
      → IsRegular regs
      → (fail_with ≡ pos 0) ⊎ (elem fail_with es ≡ true)
      → w'.kernel ≡ w.kernel
      → executions w'.trace ≡ executions w.trace
      → Handled es regs w (finished h after fail_with regs w')
  unfolding set_reg sleep
  finish-Handled es after fail_with regs w w' g q k t =
      rw (continue_syscall-direct h regs w' g) record {
        others = λ i ne. ground arith;
        effect = inl (record {
          once = ground arith;
          kernel = ground arith;
          answer = elim q [
            | inl e ↦ inl (ground arith)
            | inr e ↦ elim (Bool-cases (eqb_ℤ fail_with (pos 0))) [
              | inl z ↦ inl (ground arith)
              | inr z ↦ inr (fail_with, e, ground arith)
            ]
          ];
        });
      }

  conclude-Handled :
      (es : List ℤ) (after : ℤ) (regs : Gregs) (w : World h) (r : Decision × World h)
      → IsRegular regs
      → Reports es r.0
      → r.1.kernel ≡ w.kernel
      → executions r.1.trace ≡ executions w.trace
      → IfDefined h (Handled es regs w) (conclude h after regs r)
  unfolding conclude
  conclude-Handled es after regs w (proceed f, w') g q k t =
      finish-IfDefined h (Handled es regs w) after f regs w'
        (finish-Handled es after f regs w w' g q k t)
  conclude-Handled es after regs w (present e, w') g q k t =
      report-IfDefined h (Handled es regs w) e regs w' record {
        others = λ i ne. set_reg_ne reg_rax i _ regs (λ p. ne (sym p));
        effect =
            inr (record {
              never = t;
              kernel = k;
              answer = (e, q, set_reg_self reg_rax (neg e) regs);
            });
      }
  conclude-Handled es after regs w (undefined, w') g q k t = tt

  inject-Handled :
      (o : Outcome d) (regs : Gregs) (w : World h)
      → IsRegular regs
      → IfDefined h (Handled (codes o.error_weights) regs w) (inject h (active_outcome d o) regs w)
  unfolding inject
  inject-Handled o regs w g =
      let w' = (delay_part h (active_outcome d o) w).1 in
      let before = delay_part-executions h (active_outcome d o) w in
      let same = fail_part-SameKernel h (active_outcome d o) w' in
      if-IfDefined (Handled (codes o.error_weights) regs w) (delay_defined h (active_outcome d o) w)
        _
        (conclude-Handled (codes o.error_weights) (delay_part h (active_outcome d o) w).0 regs w
          (fail_part h (active_outcome d o) w') g (fail_part-Reports h o w')
          (same.kernel ∙ before.0) (ap executions same.trace ∙ before.1))

  handle-Handled :
      (o : Option (Outcome d)) (es : List ℤ) (regs : Gregs) (w : World h)
      → IsRegular regs
      → ((x : Outcome d) → o ≡ some x → es ≡ codes x.error_weights)
      → IfDefined h (Handled es regs w) (handle h (Option.map (active_outcome d) o) regs w)
  unfolding handle
  handle-Handled none es regs w g q = continue-Handled es regs w g
  handle-Handled (some o) es regs w g q =
      elim (Bool-cases (is_eligible d (active_outcome d o) regs)) [
        | inl e ↦ rw (e, q o refl) (inject-Handled o regs w g)
        | inr e ↦ rw e (continue-Handled es regs w g)
      ]

  -- Where the outcome of a syscall is defined, it is as `Handled` has it.
  pub fail_maybe-IfDefined :
      (plan : Plan d) (regs : Gregs) (w : World h)
      → IsRegular regs
      → IfDefined h
          (Handled (planned_codes plan (to_int (regs reg_rax))) regs w)
          (fail_maybe h (active_plan d plan) regs w)
  unfolding fail_maybe
  fail_maybe-IfDefined plan regs w g = rw (lookup-active_plan d plan (to_int (regs reg_rax))) (
      handle-Handled (lookup (to_int (regs reg_rax)) plan.outcomes) _ regs w g
        (λ x e. ap outcome_codes e))
