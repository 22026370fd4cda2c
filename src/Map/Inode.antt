-- ===== src/Map/Inode.antt =====
-- The inode of a line, which the kernel writes in decimal and the code reads in hexadecimal.
use sysfail.Prelude.{
  ℕ, ◌+◌, ◌-◌, ◌*◌, ◌≤◌, ◌<◌, ◌≡◌, refl, true, some, [], ◌∷◌, arith, eqb, Bool-cases, inl, inr,
}
use sysfail.Regex.Classes.{all}
use sysfail.Map.{Bytes, AddrRange, is_digit, hex_digit, hex_value, parse_line}
use sysfail.Map.Lines.{Line, IsWritten, print_line, range_of, parse_line-print_line}

abbrev pub dec_value : ℕ → Bytes → ℕ
dec_value acc [] = acc
dec_value acc (c ∷ s) = dec_value (acc * 10 + (c - b'0')) s

dec-lt-hex : (a b : ℕ) (u : Bytes) → a < b → all is_digit u ≡ true → dec_value a u < hex_value b u
dec-lt-hex a b [] lt h = lt
dec-lt-hex a b (c ∷ u) lt h =
    dec-lt-hex (a * 10 + (c - b'0')) (b * 16 + hex_digit c) u (ground arith) (ground arith)

misread :
    (a b : ℕ) (u : Bytes)
    → a ≡ b
    → a < 10
    → all is_digit u ≡ true
    → 10 ≤ dec_value a u
    → dec_value a u < hex_value b u
misread a b [] e lt h ge = absurd (omega arith)
misread a b (c ∷ u) e lt h ge = elim (Bool-cases (eqb a 0)) [
  | inl z ↦
      misread (a * 10 + (c - b'0')) (b * 16 + hex_digit c) u (ground arith) (ground arith)
        (ground arith) ge
  | inr n ↦ dec-lt-hex (a * 10 + (c - b'0')) (b * 16 + hex_digit c) u (ground arith) (ground arith)
]

-- For a line that the kernel writes with an inode of ten or more, the inode that is read is greater
-- than the one that is written.
parse_line-inode :
    (l : Line)
    → IsWritten l
    → all is_digit l.inode ≡ true
    → 10 ≤ dec_value 0 l.inode
    → (info : AddrRange) × (parse_line (print_line l) ≡ some info)
      × (dec_value 0 l.inode < info.inode)
parse_line-inode l w h ge =
    (range_of l, parse_line-print_line l w, misread 0 0 l.inode refl (omega arith) h ge)
