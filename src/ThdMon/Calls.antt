-- ===== src/ThdMon/Calls.antt =====
-- The calls that one scan makes, in order: arrivals first, then terminations.
use mathlib.Core.List.{append-nil, append_assoc, map-append}
use sysfail.Prelude.{
  ℕ, ◌≡◌, refl, Option, none, some, List, [], ◌∷◌, ◌++◌, map, arith, ◌∙◌, ap, sym,
}
use sysfail.Prelude.Dict.{Dict, lookup, erase, nat_eq}
use sysfail.Prelude.Lists.{elem}
use sysfail.ThdMon.{terminated, Events, mark, visit, sweep}
use sysfail.ThdMon.Scan.{told, arrival}

-- The arrivals and the terminations of a scan, as calls.
abbrev pub arrivals : ℕ → List ℕ → Events
arrivals gen tids = map (λ t. (t, arrival gen)) tids

abbrev pub departures : List ℕ → Events
departures tids = map (λ t. (t, terminated)) tids

pub told-arrivals :
    (gen t : ℕ) (tids : List ℕ) → told t (arrival gen) (arrivals gen tids) ≡ elem t tids
unfolding told elem
told-arrivals gen t [] = refl
told-arrivals gen t (x ∷ xs) = ground (arith, told-arrivals gen t xs)

visit-arrivals :
    (gen tid : ℕ) (x : Option ℕ) (r : Events × Dict ℕ ℕ)
    → (xs : List ℕ) × ((visit gen tid x r).0 ≡ r.0 ++ arrivals gen xs)
unfolding visit
visit-arrivals gen tid none r = (tid ∷ [], refl)
visit-arrivals gen tid (some g) r = ([], rw append-nil refl)

-- The calls of the first loop of a scan are arrivals.
pub mark-arrivals :
    (gen : ℕ) (tids : List ℕ) (r : Events × Dict ℕ ℕ)
    → (xs : List ℕ) × ((mark gen tids r).0 ≡ r.0 ++ arrivals gen xs)
unfolding mark
mark-arrivals gen [] r = ([], rw append-nil refl)
mark-arrivals gen (tid ∷ tids) r =
    let r' = visit gen tid (lookup tid r.1) r in
    let (ys, p) = visit-arrivals gen tid (lookup tid r.1) r in
    let (xs, q) = mark-arrivals gen tids r' in
    (
      ys ++ xs,
      q
          ∙ ap (λ ev. ev ++ arrivals gen xs) p
          ∙ append_assoc r.0 (arrivals gen ys) (arrivals gen xs)
          ∙ ap (λ ev. r.0 ++ ev) (sym (map-append (λ t. (t, arrival gen)) ys xs)),
    )

pub sweep-departures :
    (tids : List ℕ) (r : Events × Dict ℕ ℕ) → (sweep tids r).0 ≡ r.0 ++ departures tids
unfolding sweep
sweep-departures [] r = rw append-nil refl
sweep-departures (tid ∷ tids) r =
    sweep-departures tids (r.0 ++ (tid, terminated) ∷ [], erase tid r.1)
    ∙ append_assoc r.0 ((tid, terminated) ∷ []) (departures tids)
