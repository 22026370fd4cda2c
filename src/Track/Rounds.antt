-- ===== src/Track/Rounds.antt =====
-- The session's table after the rounds of the poller.
use sysfail.Prelude.{
  ℕ, ◌+◌, ◌^◌, ◌<◌, ◌≡◌, refl, Bool, true, not, ◌&&◌, List, [], ◌∷◌, ◌++◌, arith, eqb, eqb_iff, ap,
}
use sysfail.Prelude.Dict.{lookup, nat_eq}
use sysfail.Prelude.Lists.{elem, is_some, length}
use sysfail.ThdMon.{ThdMon, scan_tasks, poll_round}
use sysfail.ThdMon.Rounds.{is_known, elem-stale_marked}
use sysfail.ThdMon.Rescan.{IsBounded, bumped, bumped-IsReady, poll_round_tracks}
use sysfail.Session.{Process, Outside, ok}
use sysfail.Session.Invariant.{Inv, IsSettled}
use sysfail.Track.{Round, outside, reap, track_all, poll_rounds}
use sysfail.Track.Scans.{track_scan}

poll_round-gen :
    (listing : List ℕ) (mon : ThdMon)
    → mon.gen + 1 < 2 ^ 32
    → (poll_round listing mon).1.gen ≡ mon.gen + 1
unfolding poll_round scan_tasks
poll_round-gen listing mon h = omega arith

pub reap-Inv :
    (o o' : Outside) (s : Process) → o.selector ≡ o'.selector → Inv o s → Inv o' (reap o' s)
reap-Inv o o' s same v = record {
  at_one = v.at_one;
  backed = λ t e. ground (arith, v.backed t);
  armed = λ t st e f. ground (arith, v.armed t st);
  chosen = λ t e. ground (arith, v.chosen t, ap (λ f. f t) same);
  off_if_gone = λ t g. rw g (ground arith);
}

abbrev pub All {ℓ κ} : {A : Type ℓ} → (A → Type κ) → List A → Type κ
All P [] = Unit
All P (x ∷ xs) = P x × All P xs

module _ (selector : ℕ → Bool) (poller : ℕ) where
  -- The monitor knows exactly the threads of this listing, and the session has entries for exactly
  -- those of them that the selector picks, other than the poller.
  pub record Tracks (r : Round) (mon : ThdMon) (s : Process) : Type 0 where
    pub bounded : IsBounded mon
    pub knows : (t : ℕ) → is_known t mon ≡ elem t r.listing
    pub entries :
        (t : ℕ)
        → is_some (lookup t s.thd_st) ≡ (elem t r.listing && (selector t && not (eqb poller t)))
    pub inv : Inv (outside selector r) s
    pub open_session : s.session ≡ true

  -- In a round every thread gets its signals or is gone, and the poller itself is listed.
  abbrev pub IsFair : Round → Type 0
  IsFair r = ((t : ℕ) → IsSettled (outside selector r) t) × (elem poller r.listing ≡ true)

  -- A round of the poller follows its listing.
  round-Tracks :
      (r r' : Round) (mon : ThdMon) (s : Process)
      → IsFair r
      → IsFair r'
      → mon.gen + 1 < 2 ^ 32
      → Tracks r mon s
      → (s' : Process) × (track_all
            (outside selector r')
            (poll_round r'.listing mon).0
            (reap (outside selector r') s)
          ≡ (ok tt, s'))
        × Tracks r' (poll_round r'.listing mon).1 s'
  unfolding poll_round
  round-Tracks r r' mon s fair fair' lt k =
      let o = outside selector r' in
      let ready = bumped-IsReady mon k.bounded lt in
      let (bounded, _, tracks) = poll_round_tracks r'.listing mon k.bounded lt in
      let (s', q, v, e, d) =
        track_scan o r'.listing (bumped mon) (λ t. is_known t mon && not (elem t r'.listing))
          (reap o s) (elem-stale_marked r'.listing (bumped mon) ready) fair'.0 k.open_session
          (reap-Inv (outside selector r) o s refl k.inv) in
      (
        s',
        q,
        record {
          bounded = bounded;
          knows = λ t. (tracks t).0;
          entries = λ t. ground (
            arith,
            d t,
            k.knows t,
            k.entries t,
            eqb_iff poller t,
            ap (λ x. elem x r'.listing) {x = poller} {y = t},
            ap (λ x. elem x r.listing) {x = poller} {y = t},
            fair.1,
            fair'.1,
          );
          inv = v;
          open_session = e;
        },
      )

  -- And so do any number of rounds.
  pub rounds-Tracks :
      (r last : Round) (rs : List Round) (mon : ThdMon) (s : Process)
      → IsFair r
      → All IsFair (rs ++ last ∷ [])
      → mon.gen + (length rs + 1) < 2 ^ 32
      → Tracks r mon s
      → (mon' : ThdMon) × (s' : Process) × (poll_rounds selector (rs ++ last ∷ []) mon s
          ≡ (ok mon', s'))
        × Tracks last mon' s'
  unfolding poll_rounds
  rounds-Tracks r last [] mon s fair fairs lt k =
      let (s', q, k') = round-Tracks r last mon s fair fairs.0 (omega arith) k in
      ((poll_round last.listing mon).1, s', rw q refl, k')
  rounds-Tracks r last (r' ∷ rs) mon s fair fairs lt k =
      let (s1, q, k1) = round-Tracks r r' mon s fair fairs.0 (omega arith) k in
      let (mon', s', q', k') =
        rounds-Tracks r' last rs (poll_round r'.listing mon).1 s1 fairs.0 fairs.1
          (omega (arith, poll_round-gen r'.listing mon (omega arith))) k1 in
      (mon', s', rw q q', k')
