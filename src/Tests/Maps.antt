-- ===== src/Tests/Maps.antt =====
-- The memory map of a small process.
use Prim.Native.String.{String}
use sysfail.Prelude.{◌≡◌, refl, true, false, some, [], ◌∷◌, map, arith, ◌↔◌}
use sysfail.Regex.{matches}
use sysfail.Map.{
  codes, Mapping, mapped, parse_line, get_mmap, self_text, libsysfail, vdso, only, read_hex,
  read_word,
}
use sysfail.Map.Lines.{Line, IsWritten, range_of}
use sysfail.Map.Paths.{IsLibPath, libsysfail_iff}
use sysfail.Map.Text.{own, file, self_text-get_mmap}

abbrev pub line : String → String → String → String → String → Line
line start end permissions inode path = record {
  start = codes start;
  end = codes end;
  permissions = codes permissions;
  offset = codes "00000000";
  device = codes "fd:01";
  inode = codes inode;
  padding = 3;
  path = codes path;
}

abbrev app : Line
app = line "00400000" "00452000" "r-xp" "173521" "/usr/bin/app"

abbrev pub lib : Line
lib = line "7f5000" "7f7000" "r-xp" "42" "/opt/lib/libsysfail.so.0.1"

abbrev pub lib_data : Line
lib_data = line "7f7000" "7f8000" "rw-p" "42" "/opt/lib/libsysfail.so.0.1"

abbrev vdso_line : Line
vdso_line = line "7ffc00" "7ffd00" "r-xp" "0" "[vdso]"

lib_read :
    parse_line (codes "7f5000-7f7000 r-xp 00000000 fd:01 42    /opt/lib/libsysfail.so.0.1")
    ≡ some (range_of lib)
unfolding parse_line read_hex read_word
lib_read = refl

lib_accepted : libsysfail (range_of lib) ≡ true
unfolding libsysfail matches
lib_accepted = refl

not_accepted : libsysfail (range_of app) ≡ false
unfolding libsysfail matches
not_accepted = refl

vdso_accepted : vdso (range_of vdso_line) ≡ true
unfolding vdso matches
vdso_accepted = refl

pub lib-IsWritten : IsWritten lib
lib-IsWritten = record {
  start = (cc, refl, omega arith);
  end = (cc, refl, omega arith);
  permissions = (cc, refl);
  offset = (cc, refl);
  device = (cc, refl);
  inode = (cc, refl, omega arith);
  path = refl;
}

pub lib_data-IsWritten : IsWritten lib_data
lib_data-IsWritten = record {
  start = (cc, refl, omega arith);
  end = (cc, refl, omega arith);
  permissions = (cc, refl);
  offset = (cc, refl);
  device = (cc, refl);
  inode = (cc, refl, omega arith);
  path = refl;
}

libsysfail_iff_example : (libsysfail (range_of lib) ≡ true) ↔ IsLibPath (range_of lib).path
libsysfail_iff_example = libsysfail_iff (range_of lib)

self_text-get_mmap_example :
    (m : Mapping) × (get_mmap (some (file (lib ∷ lib_data ∷ []))) ≡ mapped m)
    × (self_text m ≡ only (own (map range_of (lib ∷ lib_data ∷ []))))
self_text-get_mmap_example =
    self_text-get_mmap (lib ∷ lib_data ∷ [])
      ((lib-IsWritten, refl), ((lib_data-IsWritten, refl), tt)) (refl, (refl, tt))

text_found : only (own (map range_of (lib ∷ lib_data ∷ []))) ≡ some (range_of lib)
unfolding libsysfail matches
text_found = refl
