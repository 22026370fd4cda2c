-- ===== src/Plan/Choice.antt =====
-- Which error a draw picks: the sorted map of running sums against a scan of the weights.
use sysfail.Prelude.{
  ◌≡◌, refl, Bool, true, false, Option, none, some, List, [], ◌∷◌, if◌then◌else◌, arith, ◌||◌, not,
  ◌∙◌, ap,
}
use sysfail.Prelude.Int.{ℤ}
use sysfail.Prelude.Lists.{is_some}
use sysfail.Doubles.{Doubles, less_asym, less_of_less_le, less_of_le_less}
use sysfail.Plan.{Cumulative, assign, lower_bound, cumulate, Outcome, active_outcome}
use sysfail.Plan.Table.{IsSorted, assign-IsSorted}

module _ (d : Doubles) where
  open d use {Num, less, plus, nought, unity, less_trans}

  -- The least running sum at or above `x` so far; of equivalent sums the first stands for the key,
  -- and the last for the error.
  abbrev pub closer : Num → Num → ℤ → Option (Num × ℤ) → Option (Num × ℤ)
  closer x k v none = if less k x then none else some (k, v)
  closer x k v (some (j, w)) =
      if less k x
      then some (j, w)
      else if less j k
      then some (j, w)
      else if less k j
      then some (k, v)
      else some (j, v)

  -- A scan of the weights with the running sum `c`, with no table.
  unfoldable pub choose : Num → Num → List (ℤ × Num) → Option (Num × ℤ) → Option (Num × ℤ)
  choose x c [] best = best
  choose x c ((e, w) ∷ ws) best = choose x (plus c w) ws (closer x (plus c w) e best)

  closer_below :
      (x k : Num) (v : ℤ) (best : Option (Num × ℤ)) → less k x ≡ true → closer x k v best ≡ best
  closer_below x k v none h = rw h
  closer_below x k v (some (j, w)) h = rw h

  lower_bound-assign :
      (x k : Num) (v : ℤ) (m : Cumulative d)
      → IsSorted d m
      → lower_bound d x (assign d k v m) ≡ closer x k v (lower_bound d x m)
  unfolding lower_bound assign
  lower_bound-assign x k v [] s = refl
  lower_bound-assign x k v ((j, w) ∷ m) s = ground (
    arith,
    lower_bound-assign x k v m s.1,
    closer_below x k v (lower_bound d x ((j, w) ∷ m)),
    less_asym d j k,
    less_asym d k j,
    less_trans k j x,
    less_of_le_less d k j x,
    less_of_le_less d j k x,
  )

  lower_bound-cumulate :
      (x c : Num) (ws : List (ℤ × Num)) (m : Cumulative d)
      → IsSorted d m
      → lower_bound d x (cumulate d c ws m) ≡ choose x c ws (lower_bound d x m)
  unfolding cumulate choose
  lower_bound-cumulate x c [] m s = refl
  lower_bound-cumulate x c ((e, w) ∷ ws) m s =
      lower_bound-cumulate x (plus c w) ws (assign d (plus c w) e m)
        (assign-IsSorted d (plus c w) e m s)
      ∙ ap (choose x (plus c w) ws) (lower_bound-assign x (plus c w) e m s)

  -- Looking a draw up in the table that the constructor of ActiveOutcome fills is a scan of the
  -- weights for the least running sum at or above the draw.
  pub lower_bound-eq-choose :
      (o : Outcome d) (x : Num)
      → lower_bound d x (active_outcome d o).error_by_cumulative_p
        ≡ choose x nought o.error_weights none
  unfolding active_outcome lower_bound
  lower_bound-eq-choose o x = lower_bound-cumulate x nought o.error_weights [] tt

  -- Some running sum of the weights, from `c` on, is at or above `x`.
  unfoldable pub reaches : Num → Num → List (ℤ × Num) → Bool
  reaches x c [] = false
  reaches x c ((e, w) ∷ ws) = not (less (plus c w) x) || reaches x (plus c w) ws

  choose-reaches :
      (x c : Num) (ws : List (ℤ × Num)) (best : Option (Num × ℤ))
      → is_some (choose x c ws best) ≡ (is_some best || reaches x c ws)
  unfolding choose reaches
  choose-reaches x c [] none = refl
  choose-reaches x c [] (some b) = refl
  choose-reaches x c ((e, w) ∷ ws) none =
      ground (arith, choose-reaches x (plus c w) ws (closer x (plus c w) e none))
  choose-reaches x c ((e, w) ∷ ws) (some b) =
      ground (arith, choose-reaches x (plus c w) ws (closer x (plus c w) e (some b)))

  -- A draw picks an error exactly when some running sum of the weights reaches it.
  pub lower_bound-reaches :
      (o : Outcome d) (x : Num)
      → is_some (lower_bound d x (active_outcome d o).error_by_cumulative_p)
        ≡ reaches x nought o.error_weights
  lower_bound-reaches o x =
      rw (lower_bound-eq-choose o x) (choose-reaches x nought o.error_weights none)

  -- Every running sum from `c` on is above `k`.
  abbrev pub Over : Num → Num → List (ℤ × Num) → Type 0
  Over k c [] = Unit {0}
  Over k c ((e, w) ∷ ws) = (less k (plus c w) ≡ true) × Over k (plus c w) ws

  choose_stays :
      (x k : Num) (v : ℤ) (c : Num) (ws : List (ℤ × Num))
      → less k x ≡ false
      → Over k c ws
      → choose x c ws (some (k, v)) ≡ some (k, v)
  unfolding choose
  choose_stays x k v c [] h o = refl
  choose_stays x k v c ((e, w) ∷ ws) h o = ground (arith, choose_stays x k v (plus c w) ws h o.1)

  -- Weights are not normalised: if the first one alone comes to 1 or more and every later running
  -- sum is above it, every draw below 1 picks the first error.
  first_takes_all :
      (o : Outcome d) (e : ℤ) (w : Num) (ws : List (ℤ × Num)) (x : Num)
      → o.error_weights ≡ (e, w) ∷ ws
      → less (plus nought w) unity ≡ false
      → Over (plus nought w) (plus nought w) ws
      → less x unity ≡ true
      → lower_bound d x (active_outcome d o).error_by_cumulative_p ≡ some (plus nought w, e)
  unfolding choose
  first_takes_all o e w ws x h big over draw =
      rw (lower_bound-eq-choose o x, h)
        (ground (
          arith,
          less_asym d x (plus nought w),
          less_of_less_le d x unity (plus nought w),
          choose_stays x (plus nought w) e (plus nought w) ws,
        ))
