-- ===== src/Prelude/Lists.antt =====
-- Membership as a test, and length over the native numbers.
use mathlib.Core.Path.{◌≡◌, refl}
use mathlib.Core.Bool.{Bool, true, false, ◌||◌}
use mathlib.Core.List.{List, [], ◌∷◌, ◌++◌}
use mathlib.Core.Option.{Option, none, some}
use native.Mathlib.Omega.{arith}
use Prim.Native.Nat.{ℕ, suc}
use sysfail.Prelude.Dict.{Eq, ◌==◌, Dict, lookup, keys}

module _ {ℓ} {A : Type ℓ} where
  abbrev pub length : List A → ℕ
  length [] = 0
  length (x ∷ xs) = suc (length xs)

abbrev pub is_some {ℓ} : {A : Type ℓ} → Option A → Bool
is_some none = false
is_some (some a) = true

module _ {ℓ} {A : Type ℓ} ⦃e : Eq A⦄ where
  unfoldable pub elem : A → List A → Bool
  elem a [] = false
  elem a (x ∷ xs) = x == a || elem a xs

  pub elem-append : (a : A) (xs ys : List A) → elem a (xs ++ ys) ≡ (elem a xs || elem a ys)
  unfolding elem
  elem-append a [] ys = refl
  elem-append a (x ∷ xs) ys = ground (arith, elem-append a xs ys)

  -- A key is listed exactly when it is found.
  pub elem-keys {κ} : {V : Type κ} (k : A) (m : Dict A V) → elem k (keys m) ≡ is_some (lookup k m)
  unfolding elem lookup
  elem-keys k [] = refl
  elem-keys k ((j, v) ∷ m) = ground (arith, elem-keys k m)

pub is_some-some {ℓ} : {A : Type ℓ} (o : Option A) → is_some o ≡ true → (a : A) × (o ≡ some a)
is_some-some none h = cc
is_some-some (some a) h = (a, refl)

-- A dictionary in which nothing is found is empty.
pub eq-nil_of_none {ℓ κ} :
    {A : Type ℓ} {V : Type κ} ⦃e : Eq A⦄ (m : Dict A V) → ((k : A) → lookup k m ≡ none) → m ≡ []
unfolding lookup
eq-nil_of_none [] h = refl
eq-nil_of_none ⦃e⦄ ((j, v) ∷ m) h = ground (arith, h j, (e.beq_iff j j).1 refl)
