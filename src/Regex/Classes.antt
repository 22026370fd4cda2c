-- ===== src/Regex/Classes.antt =====
-- The languages of the pieces that patterns are made of.
use sysfail.Prelude.{
  ℕ, ◌≡◌, ◌≢◌, refl, Bool, true, ◌&&◌, ◌↔◌, List, [], ◌∷◌, ◌++◌, arith, ap, sym, ◌∙◌, eqb, eqb_iff,
}
use sysfail.Regex.{Regex, empty, one, seq, star, plus}
use sysfail.Regex.Sound.{Matches, Row, none_left, then_more}

-- A literal text.
abbrev pub literal : List ℕ → Regex
literal [] = empty
literal (c ∷ w) = seq (one (eqb c)) (literal w)

abbrev pub all : (ℕ → Bool) → List ℕ → Bool
all p [] = true
all p (c ∷ s) = p c && all p s

all-append : (p : ℕ → Bool) (u v : List ℕ) → all p (u ++ v) ≡ (all p u && all p v)
all-append p [] v = refl
all-append p (c ∷ u) v = ground (arith, all-append p u v)

pub Matches-literal : (w s : List ℕ) → Matches (literal w) s ↔ (s ≡ w)
Matches-literal [] s = (λ h. h, λ h. h)
Matches-literal (c ∷ w) s = (
  λ (u, v, e, (d, q, k), y).
      e
      ∙ ap (λ x. x ++ v) q
      ∙ ap (λ x. d ∷ x) ((Matches-literal w v).0 y)
      ∙ ap (λ x. x ∷ w) (sym ((eqb_iff c d).0 k)),
  λ e. (c ∷ [], w, e, (c, refl, (eqb_iff c c).1 refl), (Matches-literal w w).1 refl),
)

module _ (p : ℕ → Bool) where
  one-all : (s : List ℕ) → Matches (one p) s → all p s ≡ true
  one-all s (c, e, h) = rw e (ground arith)

  Row-all :
      (r : Regex)
      → ((s : List ℕ) → Matches r s → all p s ≡ true)
      → (s : List ℕ) → Row (Matches r) s
      → all p s ≡ true
  Row-all r h s none_left = refl
  Row-all r h s (then_more c u v e x y) =
      rw e (ground (arith, all-append p u v, h (c ∷ u) x, Row-all r h v y))

  all-Row : (s : List ℕ) → all p s ≡ true → Row (Matches (one p)) s
  all-Row [] h = none_left
  all-Row (c ∷ s) h = then_more c [] s refl (c, refl, (ground arith)) (all-Row s (ground arith))

  -- Any number of characters of a class.
  pub Matches-star : (s : List ℕ) → Matches (star (one p)) s ↔ (all p s ≡ true)
  Matches-star s = (Row-all (one p) one-all s, all-Row s)

  plus-all : (s : List ℕ) → Matches (plus (one p)) s → all p s ≡ true
  plus-all s (u, v, e, x, y) =
      rw e (ground (arith, all-append p u v, one-all u x, Row-all (one p) one-all v y))

  -- One or more.
  pub Matches-plus : (s : List ℕ) → Matches (plus (one p)) s ↔ ((s ≢ []) × (all p s ≡ true))
  Matches-plus s = (λ h. (nonempty s h, plus-all s h), λ h. some_left s h.0 h.1)
    where
      nonempty : (s : List ℕ) → Matches (plus (one p)) s → s ≢ []
      nonempty s (u, v, e, (c, q, k), y) z = cc

      some_left : (s : List ℕ) → s ≢ [] → all p s ≡ true → Matches (plus (one p)) s
      some_left [] ne h = absurd (ne refl)
      some_left (c ∷ s) ne h = (c ∷ [], s, refl, (c, refl, ground arith), all-Row s (ground arith))

  -- Any number of times one or more: any number.
  pub Matches-star-plus : (s : List ℕ) → Matches (star (plus (one p))) s ↔ (all p s ≡ true)
  Matches-star-plus s = (Row-all (plus (one p)) plus-all s, from s)
    where
      from : (s : List ℕ) → all p s ≡ true → Row (Matches (plus (one p))) s
      from [] h = none_left
      from (c ∷ s) h =
          then_more c [] s refl ((Matches-plus (c ∷ [])).1 (cc, ground arith))
            (from s (ground arith))
