-- ===== src/Inject/Bounds.antt =====
-- When `fail_maybe` is defined, and how long it sleeps.
use mathlib.Core.Option
use sysfail.Prelude.{
  ℕ, ◌+◌, ◌≤◌, ◌≡◌, refl, ◌≢◌, Bool, true, false, Option, none, some, List, [], ◌∷◌, if◌then◌else◌,
  Bool-cases, inl, inr, ◌⊎◌,
}
use sysfail.Prelude.Int.{ℤ, pos, negsuc}
use sysfail.Prelude.Dict.{int_eq}
use sysfail.Prelude.Lists.{elem, is_some}
use sysfail.Doubles.{Doubles, truthy}
use sysfail.Host.{Host, World, Event, executed, slept, queued, silenced}
use sysfail.Regs.{Gregs}
use sysfail.Plan.{Outcome, Plan, active_outcome, is_eligible}
use sysfail.Plan.Choice.{reaches}
use sysfail.Inject.{
  Decision, proceed, present, undefined, delay_part, fail_part, conclude, handle, failure, int_min,
}
use sysfail.Inject.Parts.{codes, report-some, finish-some, Reports, fail_part-Reports}
use sysfail.Inject.Certain.{not_listed, pick, IsTimely, inject-conclude}

-- Microseconds slept.
abbrev pub total_slept : List Event → ℕ
total_slept [] = 0
total_slept (executed c ∷ t) = total_slept t
total_slept (slept (pos n) ∷ t) = n + total_slept t
total_slept (slept (negsuc n) ∷ t) = total_slept t
total_slept (queued tid sig v ∷ t) = total_slept t
total_slept (silenced tid ∷ t) = total_slept t

module _ {d : Doubles} (h : Host d) where
  open d use {Num, less, plus, nought, unity}

  -- No failure after the syscall, or weights that come to 1; a delay that an `int` holds; and no error
  -- that is the least `int`.
  abbrev pub IsSafe : Outcome d → Type 0
  IsSafe o =
      ((truthy d o.fail.after_bias ≡ false) ⊎ (reaches d unity nought o.error_weights ≡ true))
      × IsTimely h o
      × (elem int_min (codes o.error_weights) ≡ false)

  if-defined :
      (b : Bool) (x y : Decision × World h)
      → x.0 ≢ undefined
      → y.0 ≢ undefined
      → (if b then x else y).0 ≢ undefined
  if-defined true x y p q = p
  if-defined false x y p q = q

  failure-before : (r : Option (Num × ℤ)) → failure h false r ≢ undefined
  unfolding failure
  failure-before none e = cc
  failure-before (some (k, e)) q = cc

  failure-found : (after : Bool) (k : Num) (e : ℤ) → failure h after (some (k, e)) ≢ undefined
  unfolding failure
  failure-found true k e q = cc
  failure-found false k e q = cc

  fail_part-defined :
      (o : Outcome d) (w : World h) → IsSafe o → (fail_part h (active_outcome d o) w).0 ≢ undefined
  unfolding fail_part active_outcome
  fail_part-defined o w safe =
      if-defined (less nought o.fail.p) _ _
        (if-defined (less (h.draw w.rng).0 o.fail.p) _ _
          (elim safe.0 [
            | inl b ↦ rw b (failure-before _)
            | inr full ↦
                let (k, e, q, _) = pick h o (h.draw w.rng).1 full in rw q (failure-found _ k e)
          ])
          (λ e. cc))
        (λ e. cc)

  conclude-defined :
      (es : List ℤ) (after : ℤ) (regs : Gregs) (r : Decision × World h)
      → elem int_min es ≡ false
      → Reports es r.0
      → r.0 ≢ undefined
      → is_some (conclude h after regs r) ≡ true
  unfolding conclude
  conclude-defined es after regs (proceed e, w) n (inl z) q =
      rw (finish-some h after e regs w (λ m. cc (z, m))) refl
  conclude-defined es after regs (proceed e, w) n (inr p) q =
      rw (finish-some h after e regs w (not_listed h int_min e es p n)) refl
  conclude-defined es after regs (present e, w) n p q =
      rw (report-some h e regs w (not_listed h int_min e es p n)) refl
  conclude-defined es after regs (undefined, w) n p q = absurd (q refl)

  pub handle-defined :
      (o : Option (Outcome d)) (regs : Gregs) (w : World h)
      → ((x : Outcome d) → o ≡ some x → IsSafe x)
      → is_some (handle h (Option.map (active_outcome d) o) regs w) ≡ true
  unfolding handle
  handle-defined none regs w safe = refl
  handle-defined (some o) regs w safe =
      elim (Bool-cases (is_eligible d (active_outcome d o) regs)) [
        | inl e ↦
            rw (e, inject-conclude h o regs w (safe o refl).1)
              (conclude-defined (codes o.error_weights) (delay_part h (active_outcome d o) w).0 regs
                _ (safe o refl).2 (fail_part-Reports h o (delay_part h (active_outcome d o) w).1)
                (fail_part-defined o (delay_part h (active_outcome d o) w).1 (safe o refl)))
        | inr e ↦ rw e refl
      ]

  -- What is still to be slept, with what has been slept since `w`, is within `n`.
  abbrev Budget : ℕ → World h → ℤ × World h → Type 0
  Budget n w (after, w') =
      (k : ℕ) × (after ≡ pos k) × (k + total_slept w'.trace ≤ n + total_slept w.trace)

  -- The sleeps of a result are within `n` microseconds.
  abbrev pub SleepsWithin : ℕ → World h → Gregs × World h → Type 0
  SleepsWithin n w r = total_slept r.1.trace ≤ n + total_slept w.trace
