-- ===== src/Track/Follow.antt =====
-- Rounds of the poller and rescans beside it, on an open session.
use sysfail.Prelude.{
  if_true, ℕ, ◌+◌, ◌^◌, ◌<◌, ◌≡◌, refl, true, not, ◌&&◌, ◌||◌, some, List, ap, ◌∙◌,
}
use sysfail.Prelude.Dict.{lookup, nat_eq}
use sysfail.Prelude.Lists.{elem, is_some}
use sysfail.ThdMon.{ThdMon, poll_round}
use sysfail.ThdMon.Rounds.{is_known, elem-stale_marked}
use sysfail.ThdMon.Rescan.{IsBounded, bumped, bumped-IsReady, poll_round_tracks, rescan_as_round}
use sysfail.Session.{Process, Outside, ok}
use sysfail.Session.Invariant.{Inv, IsSettled}
use sysfail.Track.{Tracked, observe, discover_threads, poll_session}
use sysfail.Track.Scans.{track_scan}
use sysfail.Track.Discover.{HasMonitor, observe_ok}

polling_kept : (listing : List ℕ) (mon : ThdMon) → (poll_round listing mon).1.polling ≡ mon.polling
unfolding poll_round
polling_kept listing mon = refl

module _ (o : Outside) (listing : List ℕ) (mon : ThdMon) (s : Process) where
  -- What a round leaves: entries of the threads that were known and are not listed go, and those of
  -- listed threads that were not known, and that the selector picks, come.
  abbrev pub Follows : Tracked → Type 0
  Follows a =
      Inv o a.process
      × (a.process.session ≡ true)
      × HasMonitor true (mon.gen + 1) (λ t. elem t listing) a
      × ((t : ℕ)
          → is_some (lookup t a.process.thd_st) ≡ (
              not (is_known t mon && not (elem t listing))
              && (is_some (lookup t s.thd_st)
                  || ((elem t listing && not (is_known t mon)) && o.selector t))))

  observe-Follows :
      mon.polling ≡ true
      → IsBounded mon
      → mon.gen + 1 < 2 ^ 32
      → ((t : ℕ) → IsSettled o t)
      → s.session ≡ true
      → Inv o s
      → (a : Tracked) × (observe o (poll_round listing mon) s ≡ (ok tt, a)) × Follows a
  unfolding poll_round
  observe-Follows p b lt c e v =
      let (b', g, tracks) = poll_round_tracks listing mon b lt in
      let (s', q, v', e', d) =
        track_scan o listing (bumped mon) (λ t. is_known t mon && not (elem t listing)) s
          (elem-stale_marked listing (bumped mon) (bumped-IsReady mon b lt)) c e v in
      (
        record { process = s'; tmon = some (poll_round listing mon).1 },
        observe_ok o (poll_round listing mon).0 (poll_round listing mon).1 s s' q,
        (
          v',
          e',
          record {
            mon = (poll_round listing mon).1;
            found = refl;
            mode = polling_kept listing mon ∙ p;
            generation = g;
            bounded = b';
            knows = λ t. (tracks t).0;
          },
          d,
        ),
      )

  -- While a poller runs, `discover_threads` and a round of the poller have one effect. Unless the
  -- generation wraps around, they return, keep the invariant and the open session, and after them
  -- the monitor knows exactly the listed threads; entries go for the known threads that are not
  -- listed and come for the listed ones that were not known and that the selector picks.
  pub discover-Follows :
      mon.polling ≡ true
      → IsBounded mon
      → mon.gen + 1 < 2 ^ 32
      → ((t : ℕ) → IsSettled o t)
      → s.session ≡ true
      → Inv o s
      → (a : Tracked) × (discover_threads o listing (record { process = s; tmon = some mon })
          ≡ (ok tt, a))
        × (poll_session o listing (record { process = s; tmon = some mon }) ≡ (ok tt, a))
        × Follows a
  unfolding discover_threads poll_session
  discover-Follows p b lt c e v =
      let (a, q, f) = observe-Follows p b lt c e v in
      (
        a,
        ap (λ x. observe o x s) (rescan_as_round listing mon p) ∙ q,
        if_true mon.polling _ _ p ∙ q,
        f,
      )
