-- ===== src/Regex/Sound.antt =====
-- The language of a regular expression, and that `matches` decides it.
use sysfail.Prelude.{
  ℕ, ◌≡◌, refl, Bool, true, ◌&&◌, ◌⊎◌, ◌↔◌, inl, inr, List, [], ◌∷◌, ◌++◌, arith, ap, sym, ◌∙◌,
  Bool-cases,
}
use sysfail.Regex.{Regex, nothing, empty, one, seq, alt, star, nullable, after, matches}

-- Texts that are a row of texts, none empty, of a language.
pub data Row (P : List ℕ → Type 0) : List ℕ → Type 0 where
  none_left : Row P []
  then_more : (c : ℕ) (u v : List ℕ) {s : List ℕ} → s ≡ c ∷ (u ++ v) → P (c ∷ u) → Row P v → Row P s

abbrev pub Matches : Regex → List ℕ → Type 0
Matches nothing s = ⊥
Matches empty s = s ≡ []
Matches (one p) s = (c : ℕ) × (s ≡ c ∷ []) × (p c ≡ true)
Matches (seq a b) s = (u : List ℕ) × (v : List ℕ) × (s ≡ u ++ v) × Matches a u × Matches b v
Matches (alt a b) s = Matches a s ⊎ Matches b s
Matches (star a) s = Row (Matches a) s

and-true : (a b : Bool) → (a && b) ≡ true → (a ≡ true) × (b ≡ true)
and-true a b h = ground arith

-- The empty text.
nullable-Matches : (r : Regex) → nullable r ≡ true → Matches r []
nullable-Matches nothing h = cc
nullable-Matches empty h = refl
nullable-Matches (one p) h = cc
nullable-Matches (seq a b) h =
    let (x, y) = and-true (nullable a) (nullable b) h in
    ([], [], refl, nullable-Matches a x, nullable-Matches b y)
nullable-Matches (alt a b) h = elim (Bool-cases (nullable a)) [
  | inl e ↦ inl (nullable-Matches a e)
  | inr e ↦ inr (nullable-Matches b (ground arith))
]
nullable-Matches (star a) h = none_left

parts_empty : (u v : List ℕ) → [] ≡ u ++ v → (u ≡ []) × (v ≡ [])
parts_empty [] v h = (refl, sym h)
parts_empty (c ∷ u) v h = cc

Matches-nullable : (r : Regex) (s : List ℕ) → s ≡ [] → Matches r s → nullable r ≡ true
Matches-nullable nothing s e h = absurd h
Matches-nullable empty s e h = refl
Matches-nullable (one p) s e (c, q, h) = cc
Matches-nullable (seq a b) s e (u, v, q, x, y) =
    let (eu, ev) = parts_empty u v (sym e ∙ q) in
    ground (arith, Matches-nullable a u eu x, Matches-nullable b v ev y)
Matches-nullable (alt a b) s e (inl x) = ground (arith, Matches-nullable a s e x)
Matches-nullable (alt a b) s e (inr x) = ground (arith, Matches-nullable b s e x)
Matches-nullable (star a) s e h = refl

-- A text that starts with `c`.
after-Matches : (r : Regex) (c : ℕ) (s : List ℕ) → Matches (after c r) s → Matches r (c ∷ s)
after-Matches nothing c s h = absurd h
after-Matches empty c s h = absurd h
after-Matches (one p) c s h = elim (Bool-cases (p c)) [
  | inl e ↦ (c, ap (λ t. c ∷ t) (rw e at h), e)
  | inr e ↦ absurd (rw e at h)
]
after-Matches (seq a b) c s (inl (u, v, q, x, y)) =
    (c ∷ u, v, ap (λ t. c ∷ t) q, after-Matches a c u x, y)
after-Matches (seq a b) c s (inr h) = elim (Bool-cases (nullable a)) [
  | inl e ↦ ([], c ∷ s, refl, nullable-Matches a e, after-Matches b c s (rw e at h))
  | inr e ↦ absurd (rw e at h)
]
after-Matches (alt a b) c s (inl x) = inl (after-Matches a c s x)
after-Matches (alt a b) c s (inr x) = inr (after-Matches b c s x)
after-Matches (star a) c s (u, v, q, x, y) =
    then_more c u v (ap (λ t. c ∷ t) q) (after-Matches a c u x) y

heads : {a b : ℕ} {u v : List ℕ} → a ∷ u ≡ b ∷ v → (a ≡ b) × (u ≡ v)
heads e = (cc, cc)

Matches-after : (r : Regex) (c : ℕ) (s t : List ℕ) → t ≡ c ∷ s → Matches r t → Matches (after c r) s
Matches-after nothing c s t q h = absurd h
Matches-after empty c s t q h = cc
Matches-after (one p) c s t q (d, e, k) =
    let (x, y) = heads (sym e ∙ q) in let pc : p c ≡ true = rw (← x) k in rw pc (sym y)
Matches-after (seq a b) c s t q ([], v, e, x, y) =
    inr (rw (Matches-nullable a [] refl x) (Matches-after b c s v (sym e ∙ q) y))
Matches-after (seq a b) c s t q (d ∷ u, v, e, x, y) =
    let (h, k) = heads (sym e ∙ q) in
    inl (u, v, sym k, Matches-after a c u (d ∷ u) (ap (λ z. z ∷ u) h) x, y)
Matches-after (alt a b) c s t q (inl x) = inl (Matches-after a c s t q x)
Matches-after (alt a b) c s t q (inr x) = inr (Matches-after b c s t q x)
Matches-after (star a) c s t q none_left = cc
Matches-after (star a) c s t q (then_more d u v e x y) =
    let (h, k) = heads (sym e ∙ q) in
    (u, v, sym k, Matches-after a c u (d ∷ u) (ap (λ z. z ∷ u) h) x, y)

-- `matches` decides the language.
pub matches_iff : (r : Regex) (s : List ℕ) → (matches r s ≡ true) ↔ Matches r s
unfolding matches
matches_iff r [] = (nullable-Matches r, Matches-nullable r [] refl)
matches_iff r (c ∷ s) = (
  λ h. after-Matches r c s ((matches_iff (after c r) s).0 h),
  λ h. (matches_iff (after c r) s).1 (Matches-after r c s (c ∷ s) refl h),
)
