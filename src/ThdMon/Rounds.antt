-- ===== src/ThdMon/Rounds.antt =====
-- Scans of the poller, whose generation rises, and rescans without one, whose generation does not.
use sysfail.Prelude.{
  ℕ, ◌<◌, ◌≡◌, refl, Bool, not, ◌&&◌, ◌||◌, none, some, List, [], if◌then◌else◌, arith, ◌∙◌, ap,
  Option-cases, inl, inr,
}
use sysfail.Prelude.Dict.{Dict, lookup, nat_eq}
use sysfail.Prelude.Lists.{elem, is_some}
use sysfail.ThdMon.{DiscThdSt, terminated, Events, ThdMon, mark, stale, scan_tasks}
use sysfail.ThdMon.Scan.{
  same_state, told, Distinct, arrival, mark-lookup, mark-Distinct, mark-told, elem-stale, is_stale,
  sweep-lookup, sweep-told,
}

-- No key twice, and every entry from a generation before the current one: so it is at the start of
-- each scan of the poller.
pub record IsReady (mon : ThdMon) : Type 0 where
  pub distinct : Distinct mon.known_thds
  pub older : (t g : ℕ) → lookup t mon.known_thds ≡ some g → g < mon.gen

abbrev pub is_known : ℕ → ThdMon → Bool
is_known t mon = is_some (lookup t mon.known_thds)

known_stale :
    {mon : ThdMon}
    → IsReady mon
    → (t : ℕ) → is_stale mon.gen (lookup t mon.known_thds) ≡ is_known t mon
known_stale {mon} r t = elim (Option-cases (lookup t mon.known_thds)) [
  | inl e ↦ rw e refl
  | inr (g, e) ↦ rw e (ground (arith, r.older t g e))
]

module _ (listing : List ℕ) (mon : ThdMon) where
  abbrev pub marked : Events × Dict ℕ ℕ
  marked = mark mon.gen listing ([], mon.known_thds)

  pub scan-lookup :
      (t : ℕ)
      → Distinct mon.known_thds
      → lookup t (scan_tasks listing mon).1.known_thds
        ≡ (if is_stale mon.gen (lookup t marked.1) then none else lookup t marked.1)
  unfolding scan_tasks
  scan-lookup t h =
      sweep-lookup (stale mon.gen marked.1) marked t
      ∙ ap (λ b. if b then none else lookup t marked.1)
          (elem-stale mon.gen marked.1 t (mark-Distinct mon.gen listing ([], mon.known_thds) h))

  pub scan-told :
      (t : ℕ) (st : DiscThdSt)
      → Distinct mon.known_thds
      → told t st (scan_tasks listing mon).0 ≡ (
          (elem t listing && (not (is_known t mon) && same_state (arrival mon.gen) st))
          || (is_stale mon.gen (lookup t marked.1) && same_state terminated st))
  unfolding scan_tasks told
  scan-told t st h =
      sweep-told (stale mon.gen marked.1) marked t st
      ∙ ground (
        arith,
        mark-told mon.gen listing ([], mon.known_thds) t st,
        elem-stale mon.gen marked.1 t (mark-Distinct mon.gen listing ([], mon.known_thds) h),
      )

  -- A scan of the poller leaves exactly the listed threads in the table. It calls the handler for
  -- an arrival (as existing in generation 0, as spawned later) exactly for the listed threads that
  -- were not known, and for a termination exactly for the known threads that are not listed.
  pub scan_tracks :
      IsReady mon
      → (t : ℕ)
      → (is_known t (scan_tasks listing mon).1 ≡ elem t listing)
        × (told t (arrival mon.gen) (scan_tasks listing mon).0
            ≡ (elem t listing && not (is_known t mon)))
        × (told t terminated (scan_tasks listing mon).0 ≡ (is_known t mon && not (elem t listing)))
  scan_tracks r t = (
    ground (arith, scan-lookup t r.distinct, marks, old),
    ground (arith, scan-told t (arrival mon.gen) r.distinct, marks, old),
    ground (arith, scan-told t terminated r.distinct, marks, old),
  )
    where
      marks : lookup t marked.1 ≡ (if elem t listing then some mon.gen else lookup t mon.known_thds)
      marks = mark-lookup mon.gen listing ([], mon.known_thds) t

      old : is_stale mon.gen (lookup t mon.known_thds) ≡ is_known t mon
      old = known_stale r t

  -- The first loop reports the listed threads that were not known, and the second loop collects the
  -- known threads that are not listed.
  pub told-marked :
      (t : ℕ) → told t (arrival mon.gen) marked.0 ≡ (elem t listing && not (is_known t mon))
  unfolding told
  told-marked t = ground (arith, mark-told mon.gen listing ([], mon.known_thds) t (arrival mon.gen))

  pub elem-stale_marked :
      IsReady mon
      → (t : ℕ) → elem t (stale mon.gen marked.1) ≡ (is_known t mon && not (elem t listing))
  elem-stale_marked r t = ground (
    arith,
    elem-stale mon.gen marked.1 t (mark-Distinct mon.gen listing ([], mon.known_thds) r.distinct),
    mark-lookup mon.gen listing ([], mon.known_thds) t,
    known_stale r t,
  )
