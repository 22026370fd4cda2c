-- ===== src/Map/Lines.antt =====
-- A line as the kernel writes it, and that `parse_line` reads it back.

use sysfail.Prelude.{
  ℕ, zero, suc, ◌+◌, ◌-◌, ◌%◌, ◌^◌, ◌<◌, ◌≡◌, ◌≢◌, refl, Bool, true, false, not, some, [], ◌∷◌,
  ◌++◌, arith, eqb, ltb, ◌∙◌, ap,
}
use sysfail.Regex.Classes.{all}
use sysfail.Map.{
  Bytes, AddrRange, is_space, is_hex, hex_value, skip, span, read_hex, read_word, number, text,
  parse_line,
}

-- The fields of a line. The numbers are written as digits, with or without leading zeros.
pub record Line : Type 0 where
  pub start : Bytes
  pub end : Bytes
  pub permissions : Bytes
  pub offset : Bytes
  pub device : Bytes
  pub inode : Bytes
  pub padding : ℕ
  pub path : Bytes

abbrev pub blanks : ℕ → Bytes → Bytes
blanks zero s = s
blanks (suc n) s = b' ' ∷ blanks n s

-- The line as proc(5) describes it: "start-end permissions offset device inode", a blank, and the
-- path behind more blanks.
abbrev pub print_line : Line → Bytes
print_line l =
    l.start
    ++ (b'-'
        ∷ (l.end
            ++ (b' '
                ∷ (l.permissions
                    ++ (b' '
                        ∷ (l.offset
                            ++ (b' '
                                ∷ (l.device
                                    ++ (b' '
                                        ∷ (l.inode ++ (b' ' ∷ blanks l.padding l.path)))))))))))

-- A text with no blank that is not empty.
abbrev pub IsWord : Bytes → Type 0
IsWord u = (u ≢ []) × (all (λ c. not (is_space c)) u ≡ true)

-- The digits of a 64-bit number, to the base that `is_hex` reads.
abbrev pub IsNumber : Bytes → Type 0
IsNumber u = (u ≢ []) × (all is_hex u ≡ true) × (hex_value 0 u < 2 ^ 64)

abbrev pub starts_blank : Bytes → Bool
starts_blank [] = false
starts_blank (c ∷ s) = eqb b' ' c

pub record IsWritten (l : Line) : Type 0 where
  pub start : IsNumber l.start
  pub end : IsNumber l.end
  pub permissions : IsWord l.permissions
  pub offset : IsWord l.offset
  pub device : IsWord l.device
  pub inode : IsNumber l.inode
  pub path : starts_blank l.path ≡ false

-- What the code makes of it.
abbrev pub range_of : Line → AddrRange
range_of l = record {
  start = hex_value 0 l.start;
  length = (hex_value 0 l.end + 2 ^ 64 - hex_value 0 l.start) % 2 ^ 64;
  permissions = l.permissions;
  path = l.path;
  inode = hex_value 0 l.inode;
}

span-all :
    (p : ℕ → Bool) (u : Bytes) (c : ℕ) (s : Bytes)
    → all p u ≡ true
    → p c ≡ false
    → span p (u ++ c ∷ s) ≡ (u, c ∷ s)
span-all p [] c s h k = rw k refl
span-all p (d ∷ u) c s h k = ground (arith, span-all p u c s)

skip_hex : (c : ℕ) (s : Bytes) → is_hex c ≡ true → skip is_space (c ∷ s) ≡ c ∷ s
skip_hex c s h = ground arith

lt→ltb : (a b : ℕ) → a < b → ltb a b ≡ true
lt→ltb a b h = ground arith

number_lem :
    (c : ℕ) (u s : Bytes)
    → hex_value 0 (c ∷ u) < 2 ^ 64
    → number (c ∷ u, s) ≡ some (hex_value 0 (c ∷ u), s)
unfolding number
number_lem c u s h = rw (lt→ltb _ _ h) refl

skip_word : (c : ℕ) (s : Bytes) → not (is_space c) ≡ true → skip is_space (c ∷ s) ≡ c ∷ s
skip_word c s h = ground arith

read_hex_lem :
    (u : Bytes) (c : ℕ) (s : Bytes)
    → IsNumber u
    → is_hex c ≡ false
    → read_hex (u ++ c ∷ s) ≡ some (hex_value 0 u, c ∷ s)
unfolding read_hex
read_hex_lem [] c s h k = absurd (h.0 refl)
read_hex_lem (d ∷ u) c s h k =
    ap (λ x. number (span is_hex x)) (skip_hex d (u ++ c ∷ s) (ground (arith, h.1)))
    ∙ ap number (span-all is_hex (d ∷ u) c s h.1 k)
    ∙ number_lem d u (c ∷ s) h.2

read_word_lem : (u : Bytes) (s : Bytes) → IsWord u → read_word (u ++ b' ' ∷ s) ≡ some (u, b' ' ∷ s)
unfolding read_word
read_word_lem [] s h = absurd (h.0 refl)
read_word_lem (d ∷ u) s h =
    ap (λ x. text (span (λ c. not (is_space c)) x))
      (skip_word d (u ++ b' ' ∷ s) (ground (arith, h.1)))
    ∙ ap text (span-all (λ c. not (is_space c)) (d ∷ u) b' ' s h.1 refl)

read_hex_blank : (s : Bytes) → read_hex (b' ' ∷ s) ≡ read_hex s
unfolding read_hex
read_hex_blank s = refl

read_word_blank : (s : Bytes) → read_word (b' ' ∷ s) ≡ read_word s
unfolding read_word
read_word_blank s = refl

skip-blanks : (n : ℕ) (s : Bytes) → starts_blank s ≡ false → skip (eqb b' ') (blanks n s) ≡ s
skip-blanks zero [] h = refl
skip-blanks zero (c ∷ s) h = rw h refl
skip-blanks (suc n) s h = skip-blanks n s h

pub parse_line-print_line : (l : Line) → IsWritten l → parse_line (print_line l) ≡ some (range_of l)
unfolding parse_line
parse_line-print_line l w = rw (read_hex_lem l.start b'-' _ w.start refl) (
    rw (read_hex_lem l.end b' ' _ w.end refl) (
      rw (read_word_blank, read_word_lem l.permissions _ w.permissions)
        (rw (read_word_blank, read_word_lem l.offset _ w.offset)
          (rw (read_word_blank, read_word_lem l.device _ w.device)
            (rw (read_hex_blank, read_hex_lem l.inode b' ' _ w.inode refl)
              (rw (skip-blanks l.padding l.path w.path) refl))))))
