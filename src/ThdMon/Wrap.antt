-- ===== src/ThdMon/Wrap.antt =====
-- The generation of src/thdmon.cc is a `uint32_t`, and `scan_tasks` compares generations by `<`: what
-- becomes of the threads that are known when it wraps around.
use sysfail.Prelude.{
  ℕ, ◌+◌, ◌^◌, ◌<◌, ◌≡◌, refl, Bool, true, false, not, ◌&&◌, some, List, [], ◌∷◌, ◌++◌, arith,
}
use sysfail.Prelude.Dict.{lookup, nat_eq}
use sysfail.Prelude.Lists.{elem}
use sysfail.ThdMon.{terminated, Events, ThdMon, next_gen, poll_round, scan_tasks}
use sysfail.ThdMon.Scan.{told, told-append, Distinct, mark-lookup}
use sysfail.ThdMon.Rounds.{is_known, scan-lookup, scan-told}
use sysfail.ThdMon.Rescan.{IsBounded, scan-Distinct, bumped}

-- Rounds of the poller, each with its listing, and the calls of the handler that they make.
unfoldable pub run_rounds : List (List ℕ) → ThdMon → Events × ThdMon
run_rounds [] mon = ([], mon)
run_rounds (listing ∷ listings) mon =
    let (ev, mon') = poll_round listing mon in
    let (rest, last) = run_rounds listings mon' in (ev ++ rest, last)

abbrev pub in_none : ℕ → List (List ℕ) → Bool
in_none t [] = true
in_none t (listing ∷ listings) = not (elem t listing) && in_none t listings

-- Known since the last generation before the wrap, which is below no other.
record IsLeft (t : ℕ) (mon : ThdMon) : Type 0 where
  distinct : Distinct mon.known_thds
  last : (g : ℕ) × (lookup t mon.known_thds ≡ some g) × (g + 1 ≡ 2 ^ 32)
  below : mon.gen < 2 ^ 32

module _ (t : ℕ) (listing : List ℕ) (absent : elem t listing ≡ false) where
  round-IsLeft : (mon : ThdMon) → IsLeft t mon → IsLeft t (poll_round listing mon).1
  unfolding poll_round scan_tasks
  round-IsLeft mon l = record {
    distinct = scan-Distinct listing (bumped mon) l.distinct;
    last = (
      l.last.0,
      ground (
        arith,
        scan-lookup listing (bumped mon) t l.distinct,
        mark-lookup (next_gen mon.gen) listing ([], mon.known_thds) t,
        l.last.1,
        absent,
      ),
      l.last.2,
    );
    below = ground arith;
  }

  round-silent :
      (mon : ThdMon) → IsLeft t mon → told t terminated (poll_round listing mon).0 ≡ false
  unfolding poll_round
  round-silent mon l = ground (
    arith,
    scan-told listing (bumped mon) t terminated l.distinct,
    mark-lookup (next_gen mon.gen) listing ([], mon.known_thds) t,
    l.last.1,
    l.last.2,
    absent,
  )

rounds_silent :
    (t : ℕ) (listings : List (List ℕ)) (mon : ThdMon)
    → in_none t listings ≡ true
    → IsLeft t mon
    → (told t terminated (run_rounds listings mon).0 ≡ false)
      × (is_known t (run_rounds listings mon).1 ≡ true)
unfolding run_rounds told
rounds_silent t [] mon h l = (refl, ground (arith, l.last.1))
rounds_silent t (listing ∷ listings) mon h l =
    let here : elem t listing ≡ false = ground arith in
    let later : in_none t listings ≡ true = ground arith in
    let r =
      rounds_silent t listings (poll_round listing mon).1 later
        (round-IsLeft t listing here mon l) in
    (
      ground (
        arith,
        told-append t terminated (poll_round listing mon).0
            (run_rounds listings (poll_round listing mon).1).0,
        round-silent t listing here mon l,
        r.0,
      ),
      r.1,
    )

-- From the last generation before the wrap, a thread that the scan of this generation listed and that
-- no later round lists is never reported as terminated, and stays known.
pub wrap_forgets :
    (t : ℕ) (listings : List (List ℕ)) (mon : ThdMon)
    → IsBounded mon
    → mon.gen + 1 ≡ 2 ^ 32
    → lookup t mon.known_thds ≡ some mon.gen
    → in_none t listings ≡ true
    → (told t terminated (run_rounds listings mon).0 ≡ false)
      × (is_known t (run_rounds listings mon).1 ≡ true)
wrap_forgets t listings mon b e seen h =
    rounds_silent t listings mon h
      record { distinct = b.distinct; last = (mon.gen, seen, e); below = omega arith }
