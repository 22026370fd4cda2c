-- ===== src/ThdMon/Rescan.antt =====
-- From one scan to the next: the poller's generation keeps the table ready, and the generation of a
-- monitor without a poller stays 0.
use sysfail.Prelude.{
  if_true, ℕ, ◌+◌, ◌^◌, ◌≤◌, ◌<◌, ◌≡◌, refl, true, false, not, subst, ◌&&◌, ◌||◌, some, List, [],
  ◌∷◌, arith,
}
use sysfail.Prelude.Dict.{Dict, lookup, nat_eq}
use sysfail.Prelude.Lists.{elem}
use sysfail.ThdMon.{
  existing, spawned, terminated, next_gen, Events, ThdMon, mark, stale, sweep, scan_tasks,
  rescan_threads, poll_round,
}
use sysfail.ThdMon.Scan.{
  told, arrival, Distinct, mark-lookup, mark-Distinct, mark-told, erase-Distinct,
}
use sysfail.ThdMon.Rounds.{IsReady, is_known, marked, scan-lookup, scan_tracks}

sweep-Distinct : (tids : List ℕ) (r : Events × Dict ℕ ℕ) → Distinct r.1 → Distinct (sweep tids r).1
unfolding sweep
sweep-Distinct [] r h = h
sweep-Distinct (tid ∷ tids) r h = sweep-Distinct tids _ (erase-Distinct tid r.1 h)

-- No key twice, and no entry from a later generation.
pub record IsBounded (mon : ThdMon) : Type 0 where
  pub distinct : Distinct mon.known_thds
  pub bounded : (t g : ℕ) → lookup t mon.known_thds ≡ some g → g ≤ mon.gen

module _ (listing : List ℕ) (mon : ThdMon) where
  pub scan-Distinct : Distinct mon.known_thds → Distinct (scan_tasks listing mon).1.known_thds
  unfolding scan_tasks
  scan-Distinct h =
      sweep-Distinct (stale mon.gen (marked listing mon).1) (marked listing mon)
        (mark-Distinct mon.gen listing ([], mon.known_thds) h)

  pub scan-IsBounded : IsBounded mon → IsBounded (scan_tasks listing mon).1
  unfolding scan_tasks
  scan-IsBounded b = record {
    distinct = scan-Distinct b.distinct;
    bounded = λ t g e. ground (
      arith,
      scan-lookup listing mon t b.distinct,
      mark-lookup mon.gen listing ([], mon.known_thds) t,
      b.bounded t g,
      e,
    );
  }

-- The monitor with the generation of its next round.
abbrev pub bumped : ThdMon → ThdMon
bumped mon = record mon { gen = next_gen mon.gen }

pub bumped-IsReady : (mon : ThdMon) → IsBounded mon → mon.gen + 1 < 2 ^ 32 → IsReady (bumped mon)
bumped-IsReady mon b lt = record {
  distinct = b.distinct;
  older = λ t g e. ground (arith, b.bounded t g e);
}

IsReady-IsBounded : {mon : ThdMon} → IsReady mon → IsBounded mon
IsReady-IsBounded r = record {
  distinct = r.distinct;
  bounded = λ t g e. ground (arith, r.older t g e);
}

later_arrival : (gen : ℕ) → gen + 1 < 2 ^ 32 → arrival (next_gen gen) ≡ spawned
later_arrival gen lt = ground arith

-- Unless the generation wraps around, a round of the poller takes a table with no entry from a
-- later generation to another such one, one generation later. It leaves exactly the listed threads
-- known, reports as spawned exactly those of them that were not known, and as terminated exactly
-- the known threads that are not listed.
pub poll_round_tracks :
    (listing : List ℕ) (mon : ThdMon)
    → IsBounded mon
    → mon.gen + 1 < 2 ^ 32
    → IsBounded (poll_round listing mon).1
      × ((poll_round listing mon).1.gen ≡ mon.gen + 1)
      × ((t : ℕ)
          → (is_known t (poll_round listing mon).1 ≡ elem t listing)
            × (told t spawned (poll_round listing mon).0 ≡ (elem t listing && not (is_known t mon)))
            × (told t terminated (poll_round listing mon).0
                ≡ (is_known t mon && not (elem t listing))))
unfolding poll_round scan_tasks
poll_round_tracks listing mon b lt =
    let r = bumped-IsReady mon b lt in
    (
      scan-IsBounded listing (bumped mon) (IsReady-IsBounded r),
      omega arith,
      λ t.
          let (known, arrived, left) = scan_tracks listing (bumped mon) r t in
          (
            known,
            subst
                (λ st.
                  told t st (scan_tasks listing (bumped mon)).0
                  ≡ (elem t listing && not (is_known t mon)))
                (later_arrival mon.gen lt) arrived,
            left,
          ),
    )

-- While the poller runs, a rescan does what a round of the poller does, and so rounds and rescans
-- mix in any order.
pub rescan_as_round :
    (listing : List ℕ) (mon : ThdMon)
    → mon.polling ≡ true
    → rescan_threads listing mon ≡ poll_round listing mon
unfolding rescan_threads poll_round
rescan_as_round listing mon p = if_true mon.polling _ _ p

stale_zero : (m : Dict ℕ ℕ) → stale 0 m ≡ []
unfolding stale
stale_zero [] = refl
stale_zero ((t, g) ∷ m) = ground (arith, stale_zero m)

-- Without a poller the generation stays 0 and no rescan ever reports a termination: a thread that
-- was once known stays known, listed or not, and a thread that arrives is reported as existing.
pub rescan_never_terminates :
    (listing : List ℕ) (mon : ThdMon)
    → mon.polling ≡ false
    → mon.gen ≡ 0
    → (t : ℕ)
    → (told t terminated (rescan_threads listing mon).0 ≡ false)
      × (told t existing (rescan_threads listing mon).0 ≡ (elem t listing && not (is_known t mon)))
      × (is_known t (rescan_threads listing mon).1 ≡ (elem t listing || is_known t mon))
      × ((rescan_threads listing mon).1.gen ≡ 0)
unfolding rescan_threads scan_tasks sweep told
rescan_never_terminates listing mon p z t =
    rw (p, z, stale_zero (mark 0 listing ([], mon.known_thds)).1)
      (
        ground (arith, mark-told 0 listing ([], mon.known_thds) t terminated),
        ground (arith, mark-told 0 listing ([], mon.known_thds) t existing),
        ground (arith, mark-lookup 0 listing ([], mon.known_thds) t),
        refl,
      )
