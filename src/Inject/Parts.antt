-- ===== src/Inject/Parts.antt =====
-- What the two halves leave alone, and which errors the failure half can choose.
use sysfail.Prelude.{
  ◌≡◌, refl, Bool, true, false, Option, none, some, List, [], ◌∷◌, arith, if◌then◌else◌, inl, inr,
  ◌≢◌, Bool-cases, ap, ◌∙◌, ◌⊎◌,
}
use sysfail.Prelude.Int.{ℤ, pos, neg, eqb_ℤ, eqb_ℤ_iff}
use sysfail.Prelude.Dict.{keys, int_eq, beq_refl}
use sysfail.Prelude.Lists.{elem}
use sysfail.Doubles.{Doubles}
use sysfail.Host.{Host, World, executions}
use sysfail.Regs.{Gregs, set_reg, reg_rax}
use sysfail.Syscall.{continue_syscall}
use sysfail.Plan.{Outcome, ActiveOutcome, active_outcome, lower_bound}
use sysfail.Plan.Choice.{choose, closer, lower_bound-eq-choose}
use sysfail.Inject.{
  Decision, proceed, present, undefined, delay_part, fail_part, failure, int_min, negated, sleep,
  report, finish,
}

-- The error numbers that a list of weights names.
abbrev pub codes {ℓ} : {A : Type ℓ} → List (ℤ × A) → List ℤ
codes ws = keys ws

module _ (d : Doubles) where
  open d use {Num, less, plus, nought}

  -- The error stands in the list, if there is one.
  abbrev pub Named : List ℤ → Option (Num × ℤ) → Type 0
  Named es none = Unit {0}
  Named es (some (k, e)) = elem e es ≡ true

  closer-Named :
      (es : List ℤ) (x k : Num) (e : ℤ) (best : Option (Num × ℤ))
      → elem e es ≡ true
      → Named es best
      → Named es (closer d x k e best)
  closer-Named es x k e none h n = ground arith
  closer-Named es x k e (some (j, w)) h n = ground arith

  -- Every name of the second list is in the first.
  abbrev Covers : List ℤ → List ℤ → Type 0
  Covers es fs = (e : ℤ) → elem e fs ≡ true → elem e es ≡ true

  choose-Named :
      (es : List ℤ) (x c : Num) (ws : List (ℤ × Num)) (best : Option (Num × ℤ))
      → Covers es (codes ws)
      → Named es best
      → Named es (choose d x c ws best)
  unfolding choose elem
  choose-Named es x c [] best cov n = n
  choose-Named es x c ((e, w) ∷ ws) best cov n =
      choose-Named es x (plus c w) ws (closer d x (plus c w) e best) (λ f q. cov f (ground arith))
        (closer-Named es x (plus c w) e best (cov e (rw (beq_refl e))) n)

  -- A draw picks an error of the plan.
  pub lower_bound-Named :
      (o : Outcome d) (x : Num)
      → Named (codes o.error_weights) (lower_bound d x (active_outcome d o).error_by_cumulative_p)
  lower_bound-Named o x =
      rw (lower_bound-eq-choose d o x)
        (choose-Named (codes o.error_weights) x nought o.error_weights none (λ e q. q) tt)

-- The error that a decision reports stands in the list.
abbrev pub Reports : List ℤ → Decision → Type 0
Reports es (proceed e) = (e ≡ pos 0) ⊎ (elem e es ≡ true)
Reports es (present e) = elem e es ≡ true
Reports es undefined = Unit {0}

module _ {d : Doubles} (h : Host d) where
  -- What the end of the code comes to if its minus is defined.
  abbrev pub finished : ℤ → ℤ → Gregs → World h → Gregs × World h
  finished after e regs w =
      let (regs', w') = continue_syscall h regs w in
      (
        if eqb_ℤ e (pos 0) then regs' else set_reg reg_rax (neg e) regs',
        if eqb_ℤ after (pos 0) then w' else sleep h after w',
      )

  not_least : (e : ℤ) → e ≢ int_min → eqb_ℤ e int_min ≡ false
  not_least e ne = ground (arith, eqb_ℤ_iff e int_min)

  pub report-some :
      (e : ℤ) (regs : Gregs) (w : World h)
      → e ≢ int_min
      → report h e regs w ≡ some (set_reg reg_rax (neg e) regs, w)
  unfolding report negated
  report-some e regs w ne = rw (not_least e ne) refl

  pub finish-some :
      (after e : ℤ) (regs : Gregs) (w : World h)
      → e ≢ int_min
      → finish h after e regs w ≡ some (finished after e regs w)
  unfolding finish
  finish-some after e regs w ne = elim (Bool-cases (eqb_ℤ e (pos 0))) [
    | inl z ↦ rw z refl
    | inr z ↦ rw (z, report-some e _ _ ne) refl
  ]

  -- `some r` is a result of that kind; undefined behaviour promises nothing.
  abbrev pub IfDefined {ℓ} : (Gregs × World h → Type ℓ) → Option (Gregs × World h) → Type ℓ
  IfDefined P none = Unit
  IfDefined P (some r) = P r

  pub report-IfDefined {ℓ} :
      (P : Gregs × World h → Type ℓ) (e : ℤ) (regs : Gregs) (w : World h)
      → P (set_reg reg_rax (neg e) regs, w)
      → IfDefined P (report h e regs w)
  unfolding report negated
  report-IfDefined P e regs w p = elim (Bool-cases (eqb_ℤ e int_min)) [
    | inl z ↦ rw z tt
    | inr z ↦ rw z p
  ]

  finish-none : (after : ℤ) (regs : Gregs) (w : World h) → finish h after int_min regs w ≡ none
  unfolding finish report negated
  finish-none after regs w = refl

  pub finish-IfDefined {ℓ} :
      (P : Gregs × World h → Type ℓ) (after e : ℤ) (regs : Gregs) (w : World h)
      → P (finished after e regs w)
      → IfDefined P (finish h after e regs w)
  finish-IfDefined P after e regs w p = elim (Bool-cases (eqb_ℤ e int_min)) [
    | inl z ↦
        rw
          (ap (λ x. finish h after x regs w) ((eqb_ℤ_iff e int_min).0 z) ∙ finish-none after regs w)
          tt
    | inr z ↦ rw (finish-some after e regs w (λ q. cc (z, (eqb_ℤ_iff e int_min).1 q))) p
  ]

  -- Only the engine moves on.
  pub record SameKernel (w w' : World h) : Type 0 where
    pub kernel : w'.kernel ≡ w.kernel
    pub trace : w'.trace ≡ w.trace

  pub fail_part-SameKernel : (o : ActiveOutcome d) (w : World h) → SameKernel w (fail_part h o w).1
  unfolding fail_part
  fail_part-SameKernel o w = ground arith

  failure-Reports :
      (es : List ℤ) (after : Bool) (r : Option (d.Num × ℤ))
      → Named d es r
      → Reports es (failure h after r)
  unfolding failure
  failure-Reports es true none n = tt
  failure-Reports es true (some (k, e)) n = inr n
  failure-Reports es false none n = inl refl
  failure-Reports es false (some (k, e)) n = n

  if-Reports :
      (es : List ℤ) (b : Bool) (x y : Decision × World h)
      → Reports es x.0
      → Reports es y.0
      → Reports es (if b then x else y).0
  if-Reports es true x y p q = p
  if-Reports es false x y p q = q

  pub fail_part-Reports :
      (o : Outcome d) (w : World h)
      → Reports (codes o.error_weights) (fail_part h (active_outcome d o) w).0
  unfolding fail_part active_outcome
  fail_part-Reports o w =
      if-Reports _ (d.less d.nought o.fail.p) _ _
        (if-Reports _ (d.less (h.draw w.rng).0 o.fail.p) _ _
          (failure-Reports _ _ _ (lower_bound-Named d o (h.draw (h.draw w.rng).1).0)) (inl refl))
        (inl refl)

  -- The delay half runs no syscall.
  pub delay_part-executions :
      (o : ActiveOutcome d) (w : World h)
      → ((delay_part h o w).1.kernel ≡ w.kernel)
        × (executions (delay_part h o w).1.trace ≡ executions w.trace)
  unfolding delay_part
  delay_part-executions o w = ground arith
