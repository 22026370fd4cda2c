-- ===== src/Map/Text.antt =====
-- From the file to `self_text`: the code finds its own text whatever stands around it.
use sysfail.Prelude.{
  ℕ, zero, suc, not, ◌+◌, ◌≡◌, refl, Bool, true, false, ◌&&◌, ◌||◌, some, List, [], ◌∷◌, ◌++◌, map,
  arith, eqb, eqb_iff, if◌then◌else◌, ◌∙◌, ap, sym, Bool-cases, inl, inr,
}
use sysfail.Prelude.Lists.{length}
use sysfail.Regex.Classes.{all}
use sysfail.Map.{
  Bytes, is_space, is_hex, lines, get_mmap, mapped, AddrRange, Mapping, store, read_lines,
  executable, libsysfail, select, only, self_text, has, hex_value,
}
use sysfail.Map.Lines.{blanks, Line, IsWritten, print_line, range_of, parse_line-print_line}

abbrev pub is_self : AddrRange → Bool
is_self info = executable info && libsysfail info

abbrev pub lacks : ℕ → Mapping → Bool
lacks k [] = true
lacks k ((j, x) ∷ m) = if eqb k j then false else lacks k m

-- The ranges of a list that are the library's text.
abbrev pub own : List AddrRange → List AddrRange
own [] = []
own (x ∷ xs) = let rest = own xs in if is_self x then x ∷ rest else rest

length-select-store :
    (k : ℕ) (info : AddrRange) (m : Mapping)
    → lacks k m ≡ true
    → length (select (store k info m)) ≡ length (own (info ∷ [])) + length (select m)
unfolding select store
length-select-store k info [] h = omega arith
length-select-store k info ((j, x) ∷ m) h = ground (arith, length-select-store k info m)

-- Where at most one range is the text, its place in the map plays no part.
select-store_other :
    (k : ℕ) (info : AddrRange) (m : Mapping)
    → lacks k m ≡ true
    → is_self info ≡ false
    → select (store k info m) ≡ select m
unfolding select store
select-store_other k info [] h o = ground arith
select-store_other k info ((j, x) ∷ m) h o = ground (arith, select-store_other k info m)

select-store_self :
    (k : ℕ) (info : AddrRange) (m : Mapping)
    → lacks k m ≡ true
    → is_self info ≡ true
    → select m ≡ []
    → select (store k info m) ≡ info ∷ []
unfolding select store
select-store_self k info [] h o e = ground arith
select-store_self k info ((j, x) ∷ m) h o e = ground (arith, select-store_self k info m)

lacks-store :
    (j k : ℕ) (info : AddrRange) (m : Mapping)
    → lacks j (store k info m) ≡ (if eqb j k then false else lacks j m)
unfolding store
lacks-store j k info [] = refl
lacks-store j k info ((i, x) ∷ m) = ground (arith, lacks-store j k info m)

abbrev pub starts_at : ℕ → List Line → Bool
starts_at k [] = false
starts_at k (l ∷ ls) = eqb k (hex_value 0 l.start) || starts_at k ls

-- No two ranges start at one address.
abbrev pub IsApart : List Line → Type 0
IsApart [] = Unit
IsApart (l ∷ ls) = (starts_at (hex_value 0 l.start) ls ≡ false) × IsApart ls

abbrev pub AreWritten : List Line → Type 0
AreWritten [] = Unit
AreWritten (l ∷ ls) = (IsWritten l × (has b'\n' l.path ≡ false)) × AreWritten ls

abbrev Absent : List Line → Mapping → Type 0
Absent ls m = (k : ℕ) → starts_at k ls ≡ true → lacks k m ≡ true

-- What the loop leaves in the map, by the library's ranges among those read.
record Keeps (rs : List AddrRange) (m m' : Mapping) : Type 0 where
  many : length (select m') ≡ length (own rs) + length (select m)
  none_of : own rs ≡ [] → select m' ≡ select m
  one_of : (info : AddrRange) → own rs ≡ info ∷ [] → select m ≡ [] → select m' ≡ info ∷ []

own_self : (x : AddrRange) (rs : List AddrRange) → is_self x ≡ true → own (x ∷ rs) ≡ x ∷ own rs
own_self x rs h = ground arith

own_other : (x : AddrRange) (rs : List AddrRange) → is_self x ≡ false → own (x ∷ rs) ≡ own rs
own_other x rs h = ground arith

Keeps-store :
    (k : ℕ) (x : AddrRange) (rs : List AddrRange) (m m' : Mapping)
    → lacks k m ≡ true
    → Keeps rs (store k x m) m'
    → Keeps (x ∷ rs) m m'
Keeps-store k x rs m m' h r = record {
  many = ground (arith, r.many, length-select-store k x m);
  none_of = λ e. elim (Bool-cases (is_self x)) [
    | inl s ↦ cc (own_self x rs s, e)
    | inr o ↦ r.none_of (sym (own_other x rs o) ∙ e) ∙ select-store_other k x m h o
  ];
  one_of = λ info e z. elim (Bool-cases (is_self x)) [
    | inl s ↦
        let found = sym (own_self x rs s) ∙ e in
        r.none_of (cc found) ∙ select-store_self k x m h s z ∙ cc found
    | inr o ↦ r.one_of info (sym (own_other x rs o) ∙ e) (select-store_other k x m h o ∙ z)
  ];
}

read_lines-Keeps :
    (ls : List Line) (m : Mapping)
    → AreWritten ls
    → IsApart ls
    → Absent ls m
    → (m' : Mapping) × (read_lines (map print_line ls) m ≡ some m') × Keeps (map range_of ls) m m'
unfolding read_lines
read_lines-Keeps [] m w a n =
    (m, refl, record { many = omega arith; none_of = λ e. refl; one_of = λ info e. cc })
read_lines-Keeps (l ∷ ls) m w a n =
    let k = hex_value 0 l.start in
    let m1 = store k (range_of l) m in
    let here : lacks k m ≡ true = n k (ground (arith, eqb_iff k k)) in
    let (m', q, r) = read_lines-Keeps ls m1 w.1 a.1 (λ j h. ground (
      arith,
      lacks-store j k (range_of l) m,
      n j,
      eqb_iff j k,
      ap (λ x. starts_at x ls) {x = j} {y = k},
      a.0,
    )) in
    (
      m',
      rw (parse_line-print_line l w.0.0) q,
      Keeps-store k (range_of l) (map range_of ls) m m' here r,
    )

-- The content of the file: the lines, each with its line end.
abbrev pub file : List Line → Bytes
file [] = []
file (l ∷ ls) = print_line l ++ (b'\n' ∷ file ls)

lines_cons : (u s : Bytes) → has b'\n' u ≡ false → lines (u ++ b'\n' ∷ s) ≡ u ∷ lines s
unfolding lines
lines_cons [] s h = refl
lines_cons (c ∷ u) s h = rw (lines_cons u s (ground arith)) (ground arith)

has-append : (x : ℕ) (u v : Bytes) → has x (u ++ v) ≡ (has x u || has x v)
has-append x [] v = refl
has-append x (c ∷ u) v = ground (arith, has-append x u v)

IsWord-has : (u : Bytes) → all (λ c. not (is_space c)) u ≡ true → has b'\n' u ≡ false
IsWord-has [] h = refl
IsWord-has (c ∷ u) h = ground (arith, IsWord-has u)

IsNumber-has : (u : Bytes) → all is_hex u ≡ true → has b'\n' u ≡ false
IsNumber-has [] h = refl
IsNumber-has (c ∷ u) h = ground (arith, IsNumber-has u)

blanks-has : (n : ℕ) (u : Bytes) → has b'\n' (blanks n u) ≡ has b'\n' u
blanks-has zero u = refl
blanks-has (suc n) u = blanks-has n u

print_line-has :
    (l : Line) → IsWritten l → has b'\n' l.path ≡ false → has b'\n' (print_line l) ≡ false
print_line-has l w h = simp (
  has-append,
  blanks-has,
  IsNumber-has l.start w.start.1,
  IsNumber-has l.end w.end.1,
  IsWord-has l.permissions w.permissions.1,
  IsWord-has l.offset w.offset.1,
  IsWord-has l.device w.device.1,
  IsNumber-has l.inode w.inode.1,
  h,
)

lines-file : (ls : List Line) → AreWritten ls → lines (file ls) ≡ map print_line ls
unfolding lines
lines-file [] w = refl
lines-file (l ∷ ls) w =
    lines_cons (print_line l) (file ls) (print_line-has l w.0.0 w.0.1)
    ∙ ap (λ x. print_line l ∷ x) (lines-file ls w.1)

only_same :
    (xs ys : List AddrRange)
    → length xs ≡ length ys
    → (ys ≡ [] → xs ≡ [])
    → ((info : AddrRange) → ys ≡ info ∷ [] → xs ≡ info ∷ [])
    → only xs ≡ only ys
only_same xs [] n e f = ap only (e refl)
only_same xs (y ∷ []) n e f = ap only (f y refl)
only_same [] (y ∷ z ∷ ys) n e f = absurd (omega arith)
only_same (x ∷ []) (y ∷ z ∷ ys) n e f = absurd (omega arith)
only_same (x ∷ x' ∷ xs) (y ∷ z ∷ ys) n e f = refl

only_lem : (rs : List AddrRange) (m : Mapping) → Keeps rs [] m → only (select m) ≡ only (own rs)
unfolding select
only_lem rs m k =
    only_same (select m) (own rs) (omega (arith, k.many)) k.none_of (λ info e. k.one_of info e refl)

-- From a file in the kernel's format, whose ranges start at different addresses, `get_mmap` makes a
-- map of which `self_text` finds the one range that is executable and has the path of a
-- libsysfail, wherever its line stands; with none or several the assertion fails.
pub self_text-get_mmap :
    (ls : List Line)
    → AreWritten ls
    → IsApart ls
    → (m : Mapping) × (get_mmap (some (file ls)) ≡ mapped m)
      × (self_text m ≡ only (own (map range_of ls)))
unfolding get_mmap self_text
self_text-get_mmap ls w a =
    let (m, q, k) = read_lines-Keeps ls [] w a (λ j h. refl) in
    (m, rw (lines-file ls w, q) refl, only_lem (map range_of ls) m k)
