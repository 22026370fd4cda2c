-- ===== src/Prelude/Int.antt =====
-- Signed integers, and the conversions between the machine's integer types that the code makes.
use Prim.Native.Nat.{ℕ, suc, ◌-◌, ◌%◌, ◌^◌, ◌<◌}
use mathlib.Core.Path.{◌≡◌}
use mathlib.Core.Logic.{◌↔◌}
use mathlib.Core.Bool.{Bool, true, false}
use native.Mathlib.Omega.{arith}
use sysfail.Prelude.Tests.{ltb, eqb, if◌then◌else◌}

-- `negsuc n` is -(n + 1).
pub data ℤ : Type 0 where
  pos : ℕ → ℤ
  negsuc : ℕ → ℤ

abbrev pub eqb_ℤ : ℤ → ℤ → Bool
eqb_ℤ (pos a) (pos b) = eqb a b
eqb_ℤ (pos a) (negsuc b) = false
eqb_ℤ (negsuc a) (pos b) = false
eqb_ℤ (negsuc a) (negsuc b) = eqb a b

pub eqb_ℤ_iff : (a b : ℤ) → (eqb_ℤ a b ≡ true) ↔ (a ≡ b)
eqb_ℤ_iff (pos a) (pos b) = ground arith
eqb_ℤ_iff (pos a) (negsuc b) = ground arith
eqb_ℤ_iff (negsuc a) (pos b) = ground arith
eqb_ℤ_iff (negsuc a) (negsuc b) = ground arith

-- the unary minus
unfoldable pub neg : ℤ → ℤ
neg (pos n) = if eqb n 0 then pos 0 else negsuc (n - 1)
neg (negsuc n) = pos (suc n)

neg-neg : (a : ℤ) → neg (neg a) ≡ a
unfolding neg
neg-neg (pos n) = ground arith
neg-neg (negsuc n) = ground arith

-- The residue of an integer modulo `m`: the conversion to an unsigned type of `m` values.
abbrev pub residue : ℕ → ℤ → ℕ
residue m (pos n) = n % m
residue m (negsuc n) = m - 1 - n % m

-- The value that a residue modulo `m` stands for in the signed type, whose half is `h`.
abbrev pub signed : ℕ → ℕ → ℕ → ℤ
signed m h r = if ltb r h then pos r else negsuc (m - 1 - r)

-- The conversion to `int`.
unfoldable pub to_int : ℤ → ℤ
to_int z = signed (2 ^ 32) (2 ^ 31) (residue (2 ^ 32) z)

-- The conversion to `uint64_t` and back to `long`.
unfoldable pub through_u64 : ℤ → ℤ
through_u64 z = signed (2 ^ 64) (2 ^ 63) (residue (2 ^ 64) z)

-- The values of a signed type whose half is `h`.
abbrev pub Fits : ℕ → ℤ → Type 0
Fits h (pos n) = n < h
Fits h (negsuc n) = n < h

pub to_int_of_Fits : (z : ℤ) → Fits (2 ^ 31) z → to_int z ≡ z
unfolding to_int
to_int_of_Fits (pos n) h = ground arith
to_int_of_Fits (negsuc n) h = ground arith

pub through_u64_of_Fits : (z : ℤ) → Fits (2 ^ 63) z → through_u64 z ≡ z
unfolding through_u64
through_u64_of_Fits (pos n) h = ground arith
through_u64_of_Fits (negsuc n) h = ground arith

-- `<` on a signed type
abbrev pub less : ℤ → ℤ → Bool
less (pos a) (pos b) = ltb a b
less (pos a) (negsuc b) = false
less (negsuc a) (pos b) = true
less (negsuc a) (negsuc b) = ltb b a
