-- ===== src/ThdMon/Names.antt =====
-- The names of the task directory, which `scan_tasks` of src/thdmon.cc reads as thread ids.
use Prim.Native.Nat.{◌/◌}
use sysfail.Prelude.{
  if_true, ℕ, zero, suc, ◌+◌, ◌%◌, ◌^◌, ◌<◌, ◌≡◌, ◌≢◌, refl, Bool, true, false, Option, none, some,
  List, [], ◌∷◌, if◌then◌else◌, arith, ltb, eqb, ◌∙◌, ap, map, Bool-cases, inl, inr,
}
use sysfail.Prelude.Int.{ℤ, pos, neg}
use sysfail.Regex.Classes.{all}
use sysfail.Map.{Bytes, ◌>>=◌, is_space, is_digit, skip, span}
use sysfail.Map.Inode.{dec_value}

-- The value of digits as an `int`; none, or a value out of its range, is an exception.
unfoldable pub in_int : Bool → Bytes → Option ℤ
in_int minus [] = none
in_int minus (c ∷ u) =
    if minus
    then if ltb (2 ^ 31) (dec_value 0 (c ∷ u)) then none else some (neg (pos (dec_value 0 (c ∷ u))))
    else if ltb (dec_value 0 (c ∷ u)) (2 ^ 31)
    then some (pos (dec_value 0 (c ∷ u)))
    else none

-- After the spaces: a sign, and the longest start of digits.
unfoldable pub signed_digits : Bytes → Option ℤ
unfolding in_int
signed_digits [] = none
signed_digits (c ∷ s) =
    if eqb c b'-'
    then in_int true (span is_digit s).0
    else if eqb c b'+'
    then in_int false (span is_digit s).0
    else in_int false (span is_digit (c ∷ s)).0

-- `std::stoi`; `none` where it throws.
unfoldable pub stoi : Bytes → Option ℤ
unfolding signed_digits
stoi s = signed_digits (skip is_space s)

-- What the first loop of `scan_tasks` makes of the names of a listing; `none` where it throws.
unfoldable pub entry_ids : List Bytes → Option (List ℤ)
entry_ids [] = some []
entry_ids (name ∷ names) = do tid ← stoi name; tids ← entry_ids names; some (tid ∷ tids)

-- A number in decimal, as the kernel names a task.
unfoldable pub digits : ℕ → ℕ → Bytes → Bytes
digits zero n acc = acc
digits (suc k) n acc =
    let rest = digits k (n / 10) ((b'0' + n % 10) ∷ acc) in
    if ltb n 10 then (b'0' + n) ∷ acc else rest

unfoldable pub decimal : ℕ → Bytes
unfolding digits
decimal n = digits (suc n) n []

digits-value : (k n : ℕ) (acc : Bytes) → n < k → dec_value 0 (digits k n acc) ≡ dec_value n acc
unfolding digits
digits-value zero n acc lt = absurd (omega arith)
digits-value (suc k) n acc lt = elim (Bool-cases (ltb n 10)) [
  | inl h ↦ rw h (ap (λ x. dec_value x acc) (omega arith))
  | inr h ↦ rw h (
      digits-value k (n / 10) ((b'0' + n % 10) ∷ acc) (ground arith)
      ∙ ap (λ x. dec_value x acc) (omega arith))
]

digits-all :
    (k n : ℕ) (acc : Bytes) → all is_digit acc ≡ true → all is_digit (digits k n acc) ≡ true
unfolding digits
digits-all zero n acc h = h
digits-all (suc k) n acc h = elim (Bool-cases (ltb n 10)) [
  | inl e ↦ rw e (ground arith)
  | inr e ↦ rw e (digits-all k (n / 10) ((b'0' + n % 10) ∷ acc) (ground arith))
]

digits-nonempty : (k n : ℕ) (acc : Bytes) → n < k → digits k n acc ≢ []
unfolding digits
digits-nonempty zero n acc lt = absurd (omega arith)
digits-nonempty (suc k) n acc lt = elim (Bool-cases (ltb n 10)) [
  | inl h ↦ rw h (λ e. cc)
  | inr h ↦ rw h (digits-nonempty k (n / 10) ((b'0' + n % 10) ∷ acc) (ground arith))
]

span-digits : (u : Bytes) → all is_digit u ≡ true → (span is_digit u).0 ≡ u
span-digits [] h = refl
span-digits (c ∷ u) h = ground (arith, span-digits u)

skip-digits : (c : ℕ) (u : Bytes) → is_digit c ≡ true → skip is_space (c ∷ u) ≡ c ∷ u
skip-digits c u h = ground arith

unsigned :
    (c : ℕ) (u : Bytes)
    → is_digit c ≡ true
    → signed_digits (c ∷ u) ≡ in_int false (span is_digit (c ∷ u)).0
unfolding signed_digits
unsigned c u h = ground arith

stoi_digits :
    (s : Bytes)
    → s ≢ []
    → all is_digit s ≡ true
    → dec_value 0 s < 2 ^ 31
    → stoi s ≡ some (pos (dec_value 0 s))
unfolding stoi signed_digits in_int
stoi_digits [] n h lt = absurd (n refl)
stoi_digits (c ∷ u) n h lt =
    let d : is_digit c ≡ true = ground arith in
    ap signed_digits (skip-digits c u d)
    ∙ unsigned c u d
    ∙ ap (in_int false) (span-digits (c ∷ u) h)
    ∙ if_true (ltb (dec_value 0 (c ∷ u)) (2 ^ 31)) _ none (ground arith)

stoi-decimal : (n : ℕ) → n < 2 ^ 31 → stoi (decimal n) ≡ some (pos n)
unfolding decimal
stoi-decimal n lt =
    let v = digits-value (suc n) n [] (omega arith) in
    stoi_digits (digits (suc n) n []) (digits-nonempty (suc n) n [] (omega arith))
      (digits-all (suc n) n [] refl) (rw v lt)
    ∙ ap (λ x. some (pos x)) v

-- The names that the kernel gives to threads are read back as their ids.
entry_ids-decimal :
    (tids : List ℕ)
    → all (λ t. ltb t (2 ^ 31)) tids ≡ true
    → entry_ids (map decimal tids) ≡ some (map pos tids)
unfolding entry_ids
entry_ids-decimal [] h = refl
entry_ids-decimal (t ∷ tids) h =
    rw (stoi-decimal t (ground arith), entry_ids-decimal tids (ground arith)) refl
