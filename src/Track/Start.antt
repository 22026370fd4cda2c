-- ===== src/Track/Start.antt =====
-- The first scan, which the constructor of ThdMon waits for; the whole life of the poller; and
-- `discover_threads` without a poller.
use sysfail.Prelude.{
  ℕ, ◌+◌, ◌^◌, ◌<◌, ◌≡◌, refl, Bool, true, false, List, [], ◌∷◌, ◌++◌, arith, eqb, eqb_iff, ap,
}
use sysfail.Prelude.Dict.{Dict, lookup, insert, nat_eq}
use sysfail.Prelude.Lists.{elem, is_some, length}
use sysfail.ThdMon.{ThdMon, mark, stale, scan_tasks, poll_start, new_monitor}
use sysfail.ThdMon.Scan.{mark-lookup}
use sysfail.ThdMon.Rounds.{is_known, marked, scan-lookup}
use sysfail.ThdMon.Rescan.{IsBounded, scan-IsBounded}
use sysfail.Session.{ThdState, Process, Outside, ok}
use sysfail.Session.Invariant.{Inv}
use sysfail.Track.{Round, outside, reap, track_all, process}
use sysfail.Track.Scans.{track_scan}
use sysfail.Track.Rounds.{Tracks, IsFair, All, reap-Inv, rounds-Tracks}

-- At generation 0 nothing is stale.
pub stale_none :
    (listing : List ℕ) (mon : ThdMon)
    → mon.gen ≡ 0
    → (t : ℕ) → elem t (stale mon.gen (marked listing mon).1) ≡ false
unfolding elem stale
stale_none listing mon z t = rw z (at_zero (mark 0 listing ([], mon.known_thds)).1)
  where
    at_zero : (m : Dict ℕ ℕ) → elem t (stale 0 m) ≡ false
    at_zero [] = refl
    at_zero ((j, g) ∷ m) = ground (arith, at_zero m)

pub no_entry : (t : ℕ) → is_some (lookup {V = ThdState} t []) ≡ false
unfolding lookup
no_entry t = refl

-- No thread of the session has been enabled.
pub record IsFresh (s : Process) : Type 0 where
  pub empty : s.thd_st ≡ []
  pub off : (t : ℕ) → s.sud t ≡ false
  pub open_session : s.session ≡ true

pub IsFresh-Inv : (o : Outside) {s : Process} → IsFresh s → Inv o s
unfolding lookup
IsFresh-Inv o {s} f = record {
  at_one = λ t st e. ground (arith, ap (lookup t) f.empty);
  backed = λ t e. ground (arith, f.off t);
  armed = λ t st e g. ground (arith, f.off t);
  chosen = λ t e. ground (arith, ap (lookup t) f.empty);
  off_if_gone = λ t g. f.off t;
}

module _ (selector : ℕ → Bool) (poller : ℕ) where
  abbrev pub started : ThdMon
  started = record { gen = 0; known_thds = (poller, 0) ∷ []; polling = true }

  pub started-IsBounded : IsBounded started
  unfolding lookup
  started-IsBounded = record { distinct = (refl, tt); bounded = λ t g e. ground arith }

  pub started_knows :
      (listing : List ℕ)
      → elem poller listing ≡ true
      → (t : ℕ) → is_known t (scan_tasks listing started).1 ≡ elem t listing
  unfolding lookup
  started_knows listing own t = ground (
    arith,
    scan-lookup listing started t (refl, tt),
    mark-lookup 0 listing ([], started.known_thds) t,
    eqb_iff poller t,
    ap (λ x. elem x listing) {x = poller} {y = t},
    own,
  )

  pub started_before : (t : ℕ) → is_known t started ≡ eqb poller t
  unfolding lookup
  started_before t = ground arith

  scan_gen : (listing : List ℕ) → (scan_tasks listing started).1.gen ≡ 0
  unfolding scan_tasks
  scan_gen listing = refl

  first-Tracks :
      (r : Round) (s : Process)
      → IsFair selector poller r
      → IsFresh s
      → (s' : Process) × (track_all
            (outside selector r)
            (scan_tasks r.listing started).0
            (reap (outside selector r) s)
          ≡ (ok tt, s'))
        × Tracks selector poller r (scan_tasks r.listing started).1 s'
  first-Tracks r s fair f =
      let o = outside selector r in
      let (s', q, v, e, d) =
        track_scan o r.listing started (λ t. false) (reap o s) (stale_none r.listing started refl)
          fair.0 f.open_session (reap-Inv o o s refl (IsFresh-Inv o f)) in
      (
        s',
        q,
        record {
          bounded = scan-IsBounded r.listing started started-IsBounded;
          knows = started_knows r.listing fair.1;
          entries = λ t.
              ground
                (arith, d t, started_before t, ap (λ m. is_some (lookup t m)) f.empty, no_entry t);
          inv = v;
          open_session = e;
        },
      )

  -- Let a session be open, its table empty and no thread dispatched. The poller runs through any number
  -- of rounds, from two to 2^32, in each of which every thread gets its signals or is gone and the
  -- poller itself is listed: no call of its handler blocks or fails, and in the end
  -- exactly the threads of the last listing that the selector picks, other than the poller, have
  -- entries in the table. Threads may come and go from one round to the next.
  pub process-Tracks :
      (r last : Round) (rs : List Round) (s : Process)
      → All (IsFair selector poller) (r ∷ rs ++ last ∷ [])
      → length rs + 1 < 2 ^ 32
      → IsFresh s
      → (mon : ThdMon) × (s' : Process) × (process selector poller r (rs ++ last ∷ []) s
          ≡ (ok mon, s'))
        × Tracks selector poller last mon s'
  unfolding process poll_start new_monitor insert
  process-Tracks r last rs s fair lt f =
      let (s1, q, k) = first-Tracks r s fair.0 f in
      let (mon, s', q', k') =
        rounds-Tracks selector poller r last rs (scan_tasks r.listing started).1 s1 fair.0 fair.1
          (omega (arith, scan_gen r.listing)) k in
      (mon, s', rw q q', k')
