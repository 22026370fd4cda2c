-- ===== src/ThdMon/Scan.antt =====
-- What one scan leaves in the table and tells the handler.
use sysfail.Prelude.{
  ℕ, ◌≡◌, refl, Bool, true, false, not, ◌&&◌, ◌||◌, Option, none, some, List, [], ◌∷◌, ◌++◌,
  if◌then◌else◌, eqb, eqb_iff, ltb, arith, ◌∙◌, ap, Option-cases, inl, inr,
}
use sysfail.Prelude.Dict.{
  Dict, lookup, insert, modify, erase, nat_eq, lookup-insert, lookup-modify, lookup-erase,
}
use sysfail.Prelude.Lists.{elem, is_some}
use sysfail.ThdMon.{
  DiscThdSt, self, existing, spawned, terminated, Events, mark, visit, stale, sweep,
}

abbrev pub same_state : DiscThdSt → DiscThdSt → Bool
same_state self self = true
same_state existing existing = true
same_state spawned spawned = true
same_state terminated terminated = true
same_state _ _ = false

-- The handler was called for the thread with this state.
unfoldable pub told : ℕ → DiscThdSt → Events → Bool
told t st [] = false
told t st ((tid, x) ∷ ev) = (eqb tid t && same_state x st) || told t st ev

pub told-append :
    (t : ℕ) (st : DiscThdSt) (ev ev' : Events)
    → told t st (ev ++ ev') ≡ (told t st ev || told t st ev')
unfolding told
told-append t st [] ev' = refl
told-append t st ((tid, x) ∷ ev) ev' = ground (arith, told-append t st ev ev')

-- No key stands twice, as in every unordered_map.
abbrev pub Distinct : Dict ℕ ℕ → Type 0
Distinct [] = Unit {0}
Distinct ((j, g) ∷ m) = (is_some (lookup j m) ≡ false) × Distinct m

insert-Distinct : (k v : ℕ) (m : Dict ℕ ℕ) → Distinct m → Distinct (insert k v m)
unfolding insert lookup
insert-Distinct k v [] h = (refl, tt)
insert-Distinct k v ((j, g) ∷ m) h =
    ground (arith, insert-Distinct k v m h.1, lookup-insert k j v m)

modify-Distinct : (k : ℕ) (f : ℕ → ℕ) (m : Dict ℕ ℕ) → Distinct m → Distinct (modify k f m)
unfolding modify lookup
modify-Distinct k f [] h = tt
modify-Distinct k f ((j, g) ∷ m) h =
    ground (arith, modify-Distinct k f m h.1, lookup-modify k j f m)

pub erase-Distinct : (k : ℕ) (m : Dict ℕ ℕ) → Distinct m → Distinct (erase k m)
unfolding erase lookup
erase-Distinct k [] h = tt
erase-Distinct k ((j, g) ∷ m) h = ground (arith, erase-Distinct k m h.1, lookup-erase k j m)

-- The state under which a scan of this generation reports a thread that it has not met.
abbrev pub arrival : ℕ → DiscThdSt
arrival gen = if eqb gen 0 then existing else spawned

module _ (gen : ℕ) where
  visit-lookup :
      (tid : ℕ) (r : Events × Dict ℕ ℕ) (t : ℕ)
      → lookup t (visit gen tid (lookup tid r.1) r).1
        ≡ (if eqb tid t then some gen else lookup t r.1)
  unfolding visit lookup
  visit-lookup tid r t = elim (Option-cases (lookup tid r.1)) [
    | inl e ↦ rw (e, visit) (rw lookup-insert (rw e refl))
    | inr (g, e) ↦
        rw (e, visit)
          (ground (
            arith,
            lookup-modify tid t (λ _. gen) r.1,
            eqb_iff tid t,
            ap (λ x. lookup x r.1) {x = tid} {y = t},
            e,
          ))
  ]

  visit-Distinct :
      (tid : ℕ) (x : Option ℕ) (r : Events × Dict ℕ ℕ)
      → Distinct r.1
      → Distinct (visit gen tid x r).1
  unfolding visit
  visit-Distinct tid none r h = insert-Distinct tid gen r.1 h
  visit-Distinct tid (some g) r h = modify-Distinct tid (λ _. gen) r.1 h

  visit-told :
      (tid : ℕ) (x : Option ℕ) (r : Events × Dict ℕ ℕ) (t : ℕ) (st : DiscThdSt)
      → told t st (visit gen tid x r).0
        ≡ (told t st r.0 || (eqb tid t && (not (is_some x) && same_state (arrival gen) st)))
  unfolding visit told
  visit-told tid none r t st = ground (arith, told-append t st r.0 ((tid, arrival gen) ∷ []))
  visit-told tid (some g) r t st = ground arith

  pub mark-lookup :
      (tids : List ℕ) (r : Events × Dict ℕ ℕ) (t : ℕ)
      → lookup t (mark gen tids r).1 ≡ (if elem t tids then some gen else lookup t r.1)
  unfolding mark elem
  mark-lookup [] r t = refl
  mark-lookup (tid ∷ tids) r t =
      mark-lookup tids (visit gen tid (lookup tid r.1) r) t ∙ ground (arith, visit-lookup tid r t)

  pub mark-Distinct :
      (tids : List ℕ) (r : Events × Dict ℕ ℕ) → Distinct r.1 → Distinct (mark gen tids r).1
  unfolding mark
  mark-Distinct [] r h = h
  mark-Distinct (tid ∷ tids) r h =
      mark-Distinct tids (visit gen tid (lookup tid r.1) r)
        (visit-Distinct tid (lookup tid r.1) r h)

  pub mark-told :
      (tids : List ℕ) (r : Events × Dict ℕ ℕ) (t : ℕ) (st : DiscThdSt)
      → told t st (mark gen tids r).0 ≡ (
          told t st r.0
          || (elem t tids && (not (is_some (lookup t r.1)) && same_state (arrival gen) st)))
  unfolding mark elem
  mark-told [] r t st = ground arith
  mark-told (tid ∷ tids) r t st =
      mark-told tids (visit gen tid (lookup tid r.1) r) t st
      ∙ ground (
        arith,
        visit-lookup tid r t,
        visit-told tid (lookup tid r.1) r t st,
        eqb_iff tid t,
        ap (λ x. lookup x r.1) {x = tid} {y = t},
      )

  -- Of a table without repeated keys, the entries of an earlier generation.
  abbrev pub is_stale : Option ℕ → Bool
  is_stale none = false
  is_stale (some g) = ltb g gen

  pub elem-stale :
      (m : Dict ℕ ℕ) (t : ℕ) → Distinct m → elem t (stale gen m) ≡ is_stale (lookup t m)
  unfolding elem stale lookup
  elem-stale [] t h = refl
  elem-stale ((j, g) ∷ m) t h = ground (
    arith,
    elem-stale m t h.1,
    eqb_iff j t,
    ap (λ x. lookup x m) {x = j} {y = t},
    Option-cases (lookup j m),
  )

pub sweep-lookup :
    (tids : List ℕ) (r : Events × Dict ℕ ℕ) (t : ℕ)
    → lookup t (sweep tids r).1 ≡ (if elem t tids then none else lookup t r.1)
unfolding sweep elem
sweep-lookup [] r t = refl
sweep-lookup (tid ∷ tids) r t =
    sweep-lookup tids (r.0 ++ (tid, terminated) ∷ [], erase tid r.1) t
    ∙ ground (arith, lookup-erase tid t r.1)

pub sweep-told :
    (tids : List ℕ) (r : Events × Dict ℕ ℕ) (t : ℕ) (st : DiscThdSt)
    → told t st (sweep tids r).0 ≡ (told t st r.0 || (elem t tids && same_state terminated st))
unfolding sweep elem told
sweep-told [] r t st = ground arith
sweep-told (tid ∷ tids) r t st =
    sweep-told tids (r.0 ++ (tid, terminated) ∷ [], erase tid r.1) t st
    ∙ ground (arith, told-append t st r.0 ((tid, terminated) ∷ []))
