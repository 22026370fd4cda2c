-- ===== src/CWrapper/Convert.antt =====
-- The plan that the C interface builds, and the accessors against the C++ predicates.
use sysfail.Prelude.{
  ◌≡◌, refl, Bool, true, false, Option, none, some, List, [], ◌∷◌, if◌then◌else◌, arith, Bool-cases,
  inl, inr,
}
use sysfail.Prelude.Int.{ℤ, pos, eqb_ℤ, eqb_ℤ_iff}
use sysfail.Prelude.Dict.{Dict, lookup, insert, lookup-insert, int_eq}
use sysfail.Doubles.{Doubles}
use sysfail.Regs.{Gregs}
use sysfail.Plan.{Result, ok, throws, ◌>>=◌, Outcome}
use sysfail.InvPred.{zero_args, one_arg, two_args, three_args, four_args, five_args, six_args, p}
use sysfail.CWrapper.{CNode, convert_outcome, convert, sysfail_syscall, sysfail_syscall_arg}

-- The C++ predicates and the C accessors agree on every call: a predicate of each arity is applied
-- to the number of `sysfail_syscall` and to the arguments that `sysfail_syscall_arg` gives for the
-- indices from 0, in order.
p-sysfail_syscall_arg :
    (r : Gregs) (x1 x2 x3 x4 x5 x6 : ℤ)
    → sysfail_syscall_arg r (pos 0) ≡ some x1
    → sysfail_syscall_arg r (pos 1) ≡ some x2
    → sysfail_syscall_arg r (pos 2) ≡ some x3
    → sysfail_syscall_arg r (pos 3) ≡ some x4
    → sysfail_syscall_arg r (pos 4) ≡ some x5
    → sysfail_syscall_arg r (pos 5) ≡ some x6
    → let n = sysfail_syscall r in
      ((f : ℤ → Bool) → p (zero_args f) r ≡ f n)
      × ((f : ℤ → ℤ → Bool) → p (one_arg f) r ≡ f n x1)
      × ((f : ℤ → ℤ → ℤ → Bool) → p (two_args f) r ≡ f n x1 x2)
      × ((f : ℤ → ℤ → ℤ → ℤ → Bool) → p (three_args f) r ≡ f n x1 x2 x3)
      × ((f : ℤ → ℤ → ℤ → ℤ → ℤ → Bool) → p (four_args f) r ≡ f n x1 x2 x3 x4)
      × ((f : ℤ → ℤ → ℤ → ℤ → ℤ → ℤ → Bool) → p (five_args f) r ≡ f n x1 x2 x3 x4 x5)
      × ((f : ℤ → ℤ → ℤ → ℤ → ℤ → ℤ → ℤ → Bool) → p (six_args f) r ≡ f n x1 x2 x3 x4 x5 x6)
unfolding p sysfail_syscall sysfail_syscall_arg
p-sysfail_syscall_arg r x1 x2 x3 x4 x5 x6 e1 e2 e3 e4 e5 e6 = (
  λ f. refl,
  λ f. ground arith,
  λ f. ground arith,
  λ f. ground arith,
  λ f. ground arith,
  λ f. ground arith,
  λ f. ground arith,
)

module _ (d : Doubles) where
  -- The first node of the chain for a syscall.
  abbrev pub first_node : ℤ → List (CNode d) → Option (CNode d)
  first_node call [] = none
  first_node call (o ∷ os) = if eqb_ℤ o.call call then some o else first_node call os

  -- What the map holds for a syscall is the conversion of this node.
  abbrev pub Holds : Option (CNode d) → Option (Outcome d) → Type 0
  Holds none x = x ≡ none
  Holds (some o) x = (outcome : Outcome d) × (convert_outcome d o ≡ ok outcome) × (x ≡ some outcome)

  -- The steps of a conversion that returns.
  pub >>=-returns :
      {X Y : Type 0} {y : Y} (k : X → Result Y) (r : Result X)
      → (r >>= k) ≡ ok y
      → (x : X) × (k x ≡ ok y) × (r ≡ ok x)
  >>=-returns k (throws why) e = cc
  >>=-returns k (ok x) e = (x, e, refl)

  insert_present :
      (call k : ℤ) (a x : Outcome d) (m : Dict ℤ (Outcome d))
      → lookup call m ≡ some x
      → lookup call (insert k a m) ≡ some x
  insert_present call k a x m found = elim (Bool-cases (eqb_ℤ k call)) [
    | inl e ↦ rw (lookup-insert k call a m, e, (eqb_ℤ_iff k call).0 e, found) refl
    | inr e ↦ rw (lookup-insert k call a m, e) found
  ]

  insert_hit :
      (call k : ℤ) (a : Outcome d) (m : Dict ℤ (Outcome d))
      → lookup call m ≡ none
      → eqb_ℤ k call ≡ true
      → lookup call (insert k a m) ≡ some a
  insert_hit call k a m absent e =
      rw (lookup-insert k call a m, e, (eqb_ℤ_iff k call).0 e, absent) refl

  insert_miss :
      (call k : ℤ) (a : Outcome d) (m : Dict ℤ (Outcome d))
      → lookup call m ≡ none
      → eqb_ℤ k call ≡ false
      → lookup call (insert k a m) ≡ none
  insert_miss call k a m absent e = rw (lookup-insert k call a m, e) absent

  convert_kept :
      (call : ℤ) (os : List (CNode d)) (acc m : Dict ℤ (Outcome d)) (x : Outcome d)
      → convert d os acc ≡ ok m
      → lookup call acc ≡ some x
      → lookup call m ≡ some x
  unfolding convert
  convert_kept call [] acc m x e k = ground arith
  convert_kept call (o ∷ os) acc m x e k =
      let (a, rest, _) =
        >>=-returns (λ y. convert d os (insert o.call y acc)) (convert_outcome d o) e in
      convert_kept call os (insert o.call a acc) m x rest (insert_present call o.call a x acc k)

  convert-Holds :
      (call : ℤ) (os : List (CNode d)) (acc m : Dict ℤ (Outcome d))
      → lookup call acc ≡ none
      → convert d os acc ≡ ok m
      → Holds (first_node call os) (lookup call m)
  unfolding convert
  convert-Holds call [] acc m absent e = ground arith
  convert-Holds call (o ∷ os) acc m absent e =
      let (a, rest, q) =
        >>=-returns (λ y. convert d os (insert o.call y acc)) (convert_outcome d o) e in
      elim (Bool-cases (eqb_ℤ o.call call)) [
        | inl hit ↦ rw hit (
          a,
          q,
          convert_kept call os (insert o.call a acc) m a rest
              (insert_hit call o.call a acc absent hit),
        )
        | inr miss ↦ rw miss (
            convert-Holds call os (insert o.call a acc) m
              (insert_miss call o.call a acc absent miss) rest)
      ]

  -- If the conversion of a C plan's chain of outcomes succeeds, then the C++ plan has, for every
  -- syscall, the conversion of the first node that names it, and nothing if no node does.
  pub convert_first :
      (call : ℤ) (os : List (CNode d)) (m : Dict ℤ (Outcome d))
      → convert d os [] ≡ ok m
      → Holds (first_node call os) (lookup call m)
  unfolding lookup
  convert_first call os m e = convert-Holds call os [] m refl e
