-- ===== src/Log.antt =====
-- src/log.cc: a message, formatted by `vsnprintf` into a buffer of 512 bytes, goes to stderr. The
-- model starts from the text that the format and its arguments stand for.
use sysfail.Prelude.{
  ℕ, zero, suc, ◌+◌, ◌^◌, ◌≤◌, ◌<◌, ◌≡◌, refl, true, Option, none, some, List, [], ◌∷◌, ◌++◌,
  if◌then◌else◌, ltb, leb, arith, ◌∙◌, ap, Bool-cases, inl, inr,
}
use sysfail.Prelude.Int.{ℤ, pos, negsuc, less}
use sysfail.Prelude.Lists.{length}

abbrev pub Bytes : Type 0
Bytes = List ℕ

abbrev pub take : ℕ → Bytes → Bytes
take zero s = []
take (suc n) [] = []
take (suc n) (c ∷ s) = c ∷ take n s

abbrev pub len : ℕ
len = 512

-- `vsnprintf(buffer, sizeof(buffer), ...)`, by the text: what is in the buffer afterwards, and what
-- is returned. The laws are those of the C standard; a text that is longer than an `int` can count
-- is none of its cases.
pub record Printf : Type 0 where
  pub run : Bytes → Bytes × ℤ
  pub counts : (text : Bytes) → length text < 2 ^ 31 → (run text).1 ≡ pos (length text)
  pub fits : (text : Bytes) → length text < 512 → (rest : Bytes) × ((run text).0 ≡ text ++ 0 ∷ rest)
  pub cut : (text : Bytes) → 512 ≤ length text → (run text).0 ≡ take 511 text ++ 0 ∷ []

abbrev pub clamp : ℤ → ℤ
clamp n = if less (pos len) n then pos len else n

-- The bytes that write(2) is given; `none` if the count reaches past the buffer, as a negative one
-- does.
write : Bytes → ℤ → Option Bytes
write buffer (pos n) = if leb n len then some (take n buffer) else none
write buffer (negsuc n) = none

unfoldable pub log : Printf → Bytes → Option Bytes
unfolding write
log vsnprintf text = let (buffer, n) = vsnprintf.run text in write buffer (clamp n)

take-append : (text rest : Bytes) → take (length text) (text ++ rest) ≡ text
take-append [] rest = refl
take-append (c ∷ text) rest = ap (λ s. c ∷ s) (take-append text rest)

take_all : (n : ℕ) (s : Bytes) → length s ≤ n → take n s ≡ s
take_all zero [] h = refl
take_all zero (c ∷ s) h = absurd (omega arith)
take_all (suc n) [] h = refl
take_all (suc n) (c ∷ s) h = ap (λ u. c ∷ u) (take_all n s (omega arith))

length-cut : (n : ℕ) (s : Bytes) → length (take n s ++ 0 ∷ []) ≤ n + 1
length-cut zero s = omega arith
length-cut (suc n) [] = omega arith
length-cut (suc n) (c ∷ s) = omega (arith, length-cut n s)

lt→leb : (n : ℕ) → n < 512 → leb n 512 ≡ true
lt→leb n h = ground arith

write_short : (n : ℕ) (s : Bytes) → n < 512 → write s (clamp (pos n)) ≡ some (take n s)
unfolding write
write_short n s h = elim (Bool-cases (ltb 512 n)) [
  | inl e ↦ absurd (ground arith)
  | inr e ↦ rw e (rw (lt→leb n h) refl)
]

write_long : (n : ℕ) (s : Bytes) → 512 ≤ n → write s (clamp (pos n)) ≡ some (take 512 s)
unfolding write
write_long n s h = elim (Bool-cases (ltb 512 n)) [
  | inl e ↦ rw e refl
  | inr e ↦ let same : n ≡ 512 = ground arith in ap (λ k. write s (clamp (pos k))) same
]

-- The write never reaches past the buffer. A text of up to 511 bytes is written whole; of a longer
-- one, the first 511 bytes are, and the byte 0 that ends the buffer.
pub log_lem :
    (vsnprintf : Printf) (text : Bytes)
    → length text < 2 ^ 31
    → log vsnprintf text ≡ some (if ltb (length text) 512 then text else take 511 text ++ 0 ∷ [])
unfolding log
log_lem v text h = elim (Bool-cases (ltb (length text) 512)) [
  | inl short ↦
      let (rest, e) = v.fits text (ground arith) in
      rw (short, v.counts text h, e)
        (write_short (length text) (text ++ 0 ∷ rest) (ground arith)
          ∙ ap some (take-append text (0 ∷ rest)))
  | inr long ↦
      rw (long, v.counts text h, v.cut text (ground arith))
        (write_long (length text) (take 511 text ++ 0 ∷ []) (ground arith)
          ∙ ap some (take_all 512 (take 511 text ++ 0 ∷ []) (length-cut 511 text)))
]
