-- ===== src/Regex.antt =====
-- The regular expressions of `std::regex` that src/map.cc uses, with `std::regex_match`: the whole
-- text must match. `matches` decides by derivatives; Regex/Sound relates it to the languages.
pub mod Sound
pub mod Classes
use sysfail.Prelude.{ℕ, Bool, true, false, ◌&&◌, ◌||◌, List, [], ◌∷◌, if◌then◌else◌}

pub data Regex : Type 0 where
  nothing empty : Regex
  one : (ℕ → Bool) → Regex  -- a character of a class
  seq alt : Regex → Regex → Regex
  star : Regex → Regex

abbrev pub plus : Regex → Regex
plus r = seq r (star r)

abbrev pub nullable : Regex → Bool
nullable nothing = false
nullable empty = true
nullable (one p) = false
nullable (seq a b) = nullable a && nullable b
nullable (alt a b) = nullable a || nullable b
nullable (star a) = true

-- What is left to match after the character `c`.
abbrev pub after : ℕ → Regex → Regex
after c nothing = nothing
after c empty = nothing
after c (one p) = if p c then empty else nothing
after c (seq a b) = alt (seq (after c a) b) (if nullable a then after c b else nothing)
after c (alt a b) = alt (after c a) (after c b)
after c (star a) = seq (after c a) (star a)

-- `std::regex_match`
unfoldable pub matches : Regex → List ℕ → Bool
matches r [] = nullable r
matches r (c ∷ s) = matches (after c r) s
