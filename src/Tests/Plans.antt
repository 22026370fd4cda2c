-- ===== src/Tests/Plans.antt =====
-- Plans, their tables of errors, and plans from C.
use sysfail.Prelude.{ℕ, ◌≡◌, refl, none, some, List, [], ◌∷◌}
use sysfail.Prelude.Int.{ℤ, pos}
use sysfail.Prelude.Dict.{insert, int_eq}
use sysfail.Doubles.{milli}
use sysfail.Plan.{
  Outcome, ok, throws, invalid_probability, lower_bound, active_outcome, assign, cumulate,
  probability,
}
use sysfail.Plan.Choice.{choose, lower_bound-eq-choose}
use sysfail.CWrapper.{CNode, convert, convert_outcome, accepts}
use sysfail.Tests.Data.{outcome, mix}

table_of_mix :
    (active_outcome milli (outcome 1000 0 mix)).error_by_cumulative_p
    ≡ (300, pos 4) ∷ (1000, pos 5) ∷ []
unfolding active_outcome cumulate assign
table_of_mix = refl

-- Sums that are equal: the later error replaces the earlier one.
table_of_tie :
    (active_outcome milli (outcome 1000 0 ((pos 4, 300) ∷ (pos 5, 0) ∷ []))).error_by_cumulative_p
    ≡ (300, pos 5) ∷ []
unfolding active_outcome cumulate assign
table_of_tie = refl

negative_probability : probability milli 1001 0 ≡ throws invalid_probability
unfolding probability
negative_probability = refl

lower_bound-eq-choose_example :
    lower_bound milli 301 (active_outcome milli (outcome 1000 0 mix)).error_by_cumulative_p
    ≡ choose milli 301 0 mix none
lower_bound-eq-choose_example = lower_bound-eq-choose milli (outcome 1000 0 mix) 301

abbrev pub node : ℤ → ℕ → CNode milli
node call q = record {
  call = call;
  fail_p = q;
  fail_bias = 0;
  delay_p = 0;
  delay_bias = 0;
  max_delay_usec = 0;
  eligible = none;
  error_wts = (pos 5, 500) ∷ (pos 4, 500) ∷ (pos 5, 900) ∷ [];
}

-- The weights come sorted by the error, and the first of two for one error stays.
abbrev pub converted : ℕ → Outcome milli
converted q = record {
  fail = record { p = q; after_bias = 0 };
  delay = record { p = 0; after_bias = 0 };
  max_delay = pos 0;
  error_weights = (pos 4, 500) ∷ (pos 5, 500) ∷ [];
  eligible = some (accepts none);
}

invalid_node : convert_outcome milli (node (pos 1) 2000) ≡ throws invalid_probability
unfolding convert_outcome probability
invalid_node = refl

abbrev pub chain : List (CNode milli)
chain = node (pos 1) 100 ∷ node (pos 1) 200 ∷ node (pos 0) 300 ∷ []

pub chain-convert :
    convert milli chain [] ≡ ok ((pos 1, converted 100) ∷ (pos 0, converted 300) ∷ [])
unfolding convert convert_outcome probability insert
chain-convert = refl
