-- ===== src/Plan/Table.antt =====
-- The table of cumulative weights is a sorted map, and `lower_bound` finds the least key at or
-- above a draw in it.
use sysfail.Prelude.{◌≡◌, true, List, [], ◌∷◌, arith}
use sysfail.Prelude.Int.{ℤ}
use sysfail.Doubles.{Doubles}
use sysfail.Plan.{Cumulative, assign, cumulate}

module _ (d : Doubles) where
  open d use {Num, less, plus, nought}

  -- Every key of the table is above `k`.
  abbrev pub Above : Num → Cumulative d → Type 0
  Above k [] = Unit {0}
  Above k ((j, w) ∷ m) = (less k j ≡ true) × Above k m

  abbrev pub IsSorted : Cumulative d → Type 0
  IsSorted [] = Unit {0}
  IsSorted ((j, w) ∷ m) = Above j m × IsSorted m

  Above-trans : (i j : Num) (m : Cumulative d) → less i j ≡ true → Above j m → Above i m
  Above-trans i j [] h a = tt
  Above-trans i j ((k, w) ∷ m) h a = (d.less_trans i j k h a.0, Above-trans i j m h a.1)

  assign-Above :
      (i k : Num) (v : ℤ) (m : Cumulative d)
      → less i k ≡ true
      → Above i m
      → Above i (assign d k v m)
  unfolding assign
  assign-Above i k v [] h a = (h, tt)
  assign-Above i k v ((j, w) ∷ m) h a = ground (arith, assign-Above i k v m h a.1)

  pub assign-IsSorted :
      (k : Num) (v : ℤ) (m : Cumulative d) → IsSorted m → IsSorted (assign d k v m)
  unfolding assign
  assign-IsSorted k v [] s = (tt, tt)
  assign-IsSorted k v ((j, w) ∷ m) s =
      ground (arith, Above-trans k j m, assign-Above j k v m, assign-IsSorted k v m s.1)

  cumulate-IsSorted :
      (c : Num) (ws : List (ℤ × Num)) (m : Cumulative d) → IsSorted m → IsSorted (cumulate d c ws m)
  unfolding cumulate
  cumulate-IsSorted c [] m s = s
  cumulate-IsSorted c ((e, w) ∷ ws) m s =
      cumulate-IsSorted (plus c w) ws (assign d (plus c w) e m) (assign-IsSorted (plus c w) e m s)
