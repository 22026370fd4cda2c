-- ===== src/Doubles.antt =====
-- The type `double` as an interface: the values other than NaN, with `<` and `+`. The order is the
-- strict weak one that IEEE 754 documents for them (-0.0 and 0.0 are two values, neither below the
-- other); of `+` nothing is assumed.
use sysfail.Prelude.{ℕ, ◌+◌, ◌≡◌, refl, Bool, true, false, ◌||◌, ◌⊎◌, ltb, arith}

pub record Doubles : Type 1 where
  pub Num : Type 0
  pub less : Num → Num → Bool
  pub plus : Num → Num → Num
  pub nought : Num
  pub unity : Num
  pub less_irrefl : (a : Num) → less a a ≡ false
  pub less_trans : (a b c : Num) → less a b ≡ true → less b c ≡ true → less a c ≡ true
  pub less_cotrans : (a b c : Num) → less a b ≡ true → (less a c ≡ true) ⊎ (less c b ≡ true)
  pub nought-less-unity : less nought unity ≡ true

module _ (d : Doubles) where
  open d use {Num, less, nought, less_trans, less_cotrans, less_irrefl}

  -- A `double` as a condition: not zero.
  abbrev pub truthy : Num → Bool
  truthy a = less a nought || less nought a

  pub less_asym : (a b : Num) → less a b ≡ true → less b a ≡ false
  less_asym a b h = ground (arith, less_trans a b a, less_irrefl a)

  -- `b ≤ c` and `a ≤ b` give `a ≤ c`.
  pub not-less_trans : (a b c : Num) → less b a ≡ false → less c b ≡ false → less c a ≡ false
  not-less_trans a b c p q = ground (arith, less_cotrans c a b)

  -- `a < b` and `b ≤ c` give `a < c`.
  pub less_of_less_le : (a b c : Num) → less a b ≡ true → less c b ≡ false → less a c ≡ true
  less_of_less_le a b c p q = ground (arith, less_cotrans a b c)

  -- `a ≤ b` and `b < c` give `a < c`.
  pub less_of_le_less : (a b c : Num) → less b a ≡ false → less b c ≡ true → less a c ≡ true
  less_of_le_less a b c p q = ground (arith, less_cotrans b c a)

pub milli_irrefl : (a : ℕ) → ltb a a ≡ false
milli_irrefl a = ground arith

pub milli_trans : (a b c : ℕ) → ltb a b ≡ true → ltb b c ≡ true → ltb a c ≡ true
milli_trans a b c p q = ground arith

pub milli_cotrans : (a b c : ℕ) → ltb a b ≡ true → (ltb a c ≡ true) ⊎ (ltb c b ≡ true)
milli_cotrans a b c p = ground arith

-- Thousandths, for tests: 1.0 is 1000.
abbrev pub milli : Doubles
milli = record {
  Num = ℕ;
  less = ltb;
  plus = ◌+◌;
  nought = 0;
  unity = 1000;
  less_irrefl = milli_irrefl;
  less_trans = milli_trans;
  less_cotrans = milli_cotrans;
  nought-less-unity = refl;
}
