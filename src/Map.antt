-- ===== src/Map.antt =====
-- src/map.cc and src/map.hh: the memory map of a process, from the text of /proc/<pid>/maps. Text is
-- a list of bytes.
--
-- Where an extraction from a line fails, the code goes on with values that C++ leaves indeterminate:
-- that is `none` of `parse_line`. A number starts with a hexadecimal digit here; the signs and the
-- prefix 0x, which a stream accepts too, stand in no line of the kernel.
pub mod Lines
pub mod Inode
pub mod Paths
pub mod Text
use Prim.Native.Char.{code}
use Prim.Native.String.{String}
use sysfail.Prelude.{
  ℕ, ◌+◌, ◌-◌, ◌*◌, ◌%◌, ◌^◌, Bool, false, not, ◌&&◌, ◌||◌, Option, none, some, List, [], ◌∷◌,
  if◌then◌else◌, eqb, ltb, leb,
}
use sysfail.Prelude.Dict.{Dict}
use sysfail.Regex.{Regex, one, seq, star, plus, matches}
use sysfail.Regex.Classes.{literal}

abbrev pub Bytes : Type 0
Bytes = List ℕ

abbrev pub codes : String → Bytes
codes String.[] = []
codes (String.◌∷◌ c s) = code c ∷ codes s

pub record AddrRange : Type 0 where
  pub start : ℕ
  pub length : ℕ
  pub permissions : Bytes
  pub path : Bytes
  pub inode : ℕ

-- `isspace` of the C locale
abbrev pub is_space : ℕ → Bool
is_space c = eqb c b' ' || (leb 9 c && leb c 13)

abbrev pub is_digit : ℕ → Bool
is_digit c = leb b'0' c && leb c b'9'

abbrev pub is_hex : ℕ → Bool
is_hex c = is_digit c || ((leb b'a' c && leb c b'f') || (leb b'A' c && leb c b'F'))

abbrev pub hex_digit : ℕ → ℕ
hex_digit c = if is_digit c then c - b'0' else if leb b'a' c then c - 87 else c - 55

-- The value of digits, after what stands before them.
abbrev pub hex_value : ℕ → Bytes → ℕ
hex_value acc [] = acc
hex_value acc (c ∷ s) = hex_value (acc * 16 + hex_digit c) s

abbrev pub skip : (ℕ → Bool) → Bytes → Bytes
skip p [] = []
skip p (c ∷ s) = let rest = skip p s in if p c then rest else c ∷ s

-- The longest start of a text in a class, and the rest.
abbrev pub span : (ℕ → Bool) → Bytes → Bytes × Bytes
span p [] = ([], [])
span p (c ∷ s) = let (u, v) = span p s in if p c then (c ∷ u, v) else ([], c ∷ s)

number : Bytes × Bytes → Option (ℕ × Bytes)
number ([], rest) = none
number (c ∷ u, rest) =
    if ltb (hex_value 0 (c ∷ u)) (2 ^ 64) then some (hex_value 0 (c ∷ u), rest) else none

-- `iss >> std::hex >> x` for a `uintptr_t`
unfoldable pub read_hex : Bytes → Option (ℕ × Bytes)
unfolding number
read_hex s = number (span is_hex (skip is_space s))

text : Bytes × Bytes → Option (Bytes × Bytes)
text ([], rest) = none
text (c ∷ u, rest) = some (c ∷ u, rest)

-- `iss >> x` for a `std::string`
unfoldable pub read_word : Bytes → Option (Bytes × Bytes)
unfolding text
read_word s = text (span (λ c. not (is_space c)) (skip is_space s))

-- `iss.ignore(1, '-')`
abbrev pub ignore_one : Bytes → Bytes
ignore_one [] = []
ignore_one (c ∷ s) = s

infixl 5 ◌>>=◌
abbrev pub ◌>>=◌ : {A B : Type 0} → Option A → (A → Option B) → Option B
none >>= f = none
some a >>= f = f a

-- The body of the loop of `get_mmap`, up to the assignment to the map.
unfoldable pub parse_line : Bytes → Option AddrRange
parse_line line = do
  (start_addr, r1) ← read_hex line
  (end_addr, r2) ← read_hex (ignore_one r1)
  (permissions, r3) ← read_word r2
  (offset_str, r4) ← read_word r3
  (dev_str, r5) ← read_word r4
  (inode, path) ← read_hex r5
  some (record {
    start = start_addr;
    length = (end_addr + 2 ^ 64 - start_addr) % 2 ^ 64;
    permissions = permissions;
    path = skip (eqb b' ') path;
    inode = inode;
  })

-- A std::map, ascending in its keys.
abbrev pub Mapping : Type 0
Mapping = Dict ℕ AddrRange

-- `mapping.map[startAddr] = info`
unfoldable pub store : ℕ → AddrRange → Mapping → Mapping
store k info [] = (k, info) ∷ []
store k info ((j, x) ∷ m) =
    let rest = store k info m in
    if ltb k j then (k, info) ∷ (j, x) ∷ m else if eqb k j then (k, info) ∷ m else (j, x) ∷ rest

longer : ℕ → List Bytes → List Bytes
longer c [] = (c ∷ []) ∷ []
longer c (l ∷ ls) = (c ∷ l) ∷ ls

-- `std::getline` until the text ends
unfoldable pub lines : Bytes → List Bytes
unfolding longer
lines [] = []
lines (c ∷ s) = let rest = lines s in if eqb c b'\n' then [] ∷ rest else longer c rest

-- The loop of `get_mmap`.
unfoldable pub read_lines : List Bytes → Mapping → Option Mapping
read_lines [] m = some m
read_lines (line ∷ rest) m = do info ← parse_line line; read_lines rest (store info.start info m)

-- What `get_mmap` comes to: the file does not open, a line is not of the kernel's format, or a map.
pub data MapRead : Type 0 where
  unopened unformatted : MapRead
  mapped : Mapping → MapRead

read_of : Option Mapping → MapRead
read_of none = unformatted
read_of (some m) = mapped m

-- `get_mmap`, on the content of the file, if it opens.
unfoldable pub get_mmap : Option Bytes → MapRead
unfolding read_of
get_mmap none = unopened
get_mmap (some content) = read_of (read_lines (lines content) [])

abbrev pub has : ℕ → Bytes → Bool
has x [] = false
has x (c ∷ s) = eqb c x || has x s

-- `AddrRange::executable`
abbrev pub executable : AddrRange → Bool
executable info = has b'x' info.permissions

-- `.` matches all but the line terminators.
abbrev pub any_char : ℕ → Bool
any_char c = not (eqb c b'\n' || eqb c b'\r')

-- [.0-9]
abbrev pub version_char : ℕ → Bool
version_char c = eqb c b'.' || is_digit c

-- [a-zA-Z0-9]
abbrev pub alphanumeric : ℕ → Bool
alphanumeric c = (leb b'a' c && leb c b'z') || ((leb b'A' c && leb c b'Z') || is_digit c)

abbrev pub vdso_re : Regex
vdso_re = seq (literal (codes "[")) (seq (plus (one alphanumeric)) (literal (codes "]")))

abbrev pub so_regex : Regex
so_regex = seq (star (one any_char)) (
    seq (literal (codes "/libsysfail")) (
      seq (star (plus (one version_char))) (seq (literal (codes ".so")) (star (one version_char)))))

-- `AddrRange::vdso` and `AddrRange::libsysfail`
unfoldable pub vdso : AddrRange → Bool
vdso info = matches vdso_re info.path

unfoldable pub libsysfail : AddrRange → Bool
libsysfail info = matches so_regex info.path

-- The loop of `Mapping::self_text`.
unfoldable pub select : Mapping → List AddrRange
select [] = []
select ((k, info) ∷ m) =
    let rest = select m in if executable info && libsysfail info then info ∷ rest else rest

-- The assertion that there is one, and the first.
abbrev pub only : List AddrRange → Option AddrRange
only [] = none
only (info ∷ []) = some info
only (info ∷ other ∷ rest) = none

-- `Mapping::self_text`; `none` is the failed assertion.
unfoldable pub self_text : Mapping → Option AddrRange
unfolding select
self_text m = only (select m)
