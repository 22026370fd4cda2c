-- ===== src/Plan/Lookup.antt =====
-- The plan and its active form agree on every syscall.
use mathlib.Core.Option
use sysfail.Prelude.{
  ◌≡◌, refl, Option, none, some, [], ◌∷◌, if◌then◌else◌, ◌∙◌, Bool-cases, Option-cases, inl, inr,
}
use sysfail.Prelude.Int.{ℤ, eqb_ℤ, eqb_ℤ_iff}
use sysfail.Prelude.Dict.{Dict, lookup, insert, lookup-insert, int_eq, ◌==◌}
use sysfail.Doubles.{Doubles}
use sysfail.Plan.{Outcome, ActiveOutcome, Plan, active_outcome, activate, active_plan}

module _ (d : Doubles) where
  -- The outcomes of the accumulator come first.
  abbrev first_of_two :
      Option (ActiveOutcome d) → Option (ActiveOutcome d) → Option (ActiveOutcome d)
  first_of_two none o = o
  first_of_two (some a) o = some a

  first_of_two-none : (o : Option (ActiveOutcome d)) → o ≡ first_of_two o none
  first_of_two-none none = refl
  first_of_two-none (some a) = refl

  insert_first :
      (call c : ℤ) (o : Outcome d) (x : Option (Outcome d)) (acc : Dict ℤ (ActiveOutcome d))
      → first_of_two
          (lookup call (insert c (active_outcome d o) acc))
          (Option.map (active_outcome d) x)
        ≡ first_of_two
            (lookup call acc)
            (Option.map (active_outcome d) (if c == call then some o else x))
  insert_first call c o x acc = elim (Bool-cases (eqb_ℤ c call)) [
    | inl e ↦
        rw (lookup-insert c call (active_outcome d o) acc, e, (eqb_ℤ_iff c call).0 e)
          (elim (Option-cases (lookup call acc)) [ inl f ↦ rw f refl | inr (a, f) ↦ rw f refl ])
    | inr e ↦ rw (lookup-insert c call (active_outcome d o) acc, e) refl
  ]

  lookup-activate :
      (call : ℤ) (os : Dict ℤ (Outcome d)) (acc : Dict ℤ (ActiveOutcome d))
      → lookup call (activate d os acc)
        ≡ first_of_two (lookup call acc) (Option.map (active_outcome d) (lookup call os))
  unfolding activate lookup
  lookup-activate call [] acc = first_of_two-none _
  lookup-activate call ((c, o) ∷ os) acc =
      lookup-activate call os (insert c (active_outcome d o) acc)
      ∙ insert_first call c o (lookup call os) acc

  -- The active plan finds, for every syscall, the active form of what the plan has for it.
  pub lookup-active_plan :
      (plan : Plan d) (call : ℤ)
      → lookup call (active_plan d plan).active
        ≡ Option.map (active_outcome d) (lookup call plan.outcomes)
  unfolding active_plan lookup
  lookup-active_plan plan call = lookup-activate call plan.outcomes []
