-- ===== src/Tests/Monitor.antt =====
-- Scans of the task directory.
use sysfail.Prelude.{some, none, ℕ, ◌≡◌, refl, true, false, not, ◌&&◌, ◌||◌, [], ◌∷◌, arith}
use sysfail.Prelude.Dict.{lookup, insert, modify, erase, nat_eq}
use sysfail.Prelude.Lists.{elem}
use sysfail.ThdMon.{
  ThdMon, existing, spawned, terminated, scan_tasks, rescan_threads, poll_round, poll_start,
  new_monitor, mark, stale, sweep,
}
use sysfail.ThdMon.Scan.{told}
use sysfail.ThdMon.Rounds.{IsReady, is_known}
use sysfail.ThdMon.Wrap.{run_rounds, wrap_forgets}
use sysfail.ThdMon.Names.{in_int, signed_digits, digits, stoi, entry_ids, decimal}
use sysfail.Map.{codes}
use sysfail.Prelude.Int.{pos, negsuc, neg}
use sysfail.ThdMon.Rescan.{IsBounded, poll_round_tracks, rescan_never_terminates}

abbrev monitor : ThdMon
monitor = record { gen = 1; known_thds = (2, 0) ∷ (5, 0) ∷ []; polling = true }

-- The poller is thread 2; 5 is gone and 9 is new in the second round.
two_rounds :
    let (_, m0) = poll_start 2 (new_monitor true) in
    let (ev1, m1) = scan_tasks (1 ∷ 2 ∷ 5 ∷ []) m0 in
    let (ev2, m2) = poll_round (1 ∷ 2 ∷ 9 ∷ []) m1 in
    (ev1 ≡ (1, existing) ∷ (5, existing) ∷ [])
    × (ev2 ≡ (9, spawned) ∷ (5, terminated) ∷ [])
    × (m2.gen ≡ 1)
unfolding poll_start poll_round scan_tasks new_monitor mark stale sweep lookup insert modify erase
two_rounds = (refl, refl, refl)

-- A rescan between two rounds: 5 goes with the rescan and 2 with the round after it.
round_after_rescan :
    let (ev1, m1) = rescan_threads (2 ∷ []) monitor in
    let (ev2, m2) = poll_round (9 ∷ []) m1 in
    (ev1 ≡ (5, terminated) ∷ []) × (ev2 ≡ (9, spawned) ∷ (2, terminated) ∷ []) × (m2.gen ≡ 3)
unfolding poll_round rescan_threads scan_tasks mark stale sweep lookup insert modify erase
round_after_rescan = (refl, refl, refl)

monitor-IsReady : IsReady monitor
unfolding lookup
monitor-IsReady = record { distinct = (refl, (refl, tt)); older = λ t g e. ground arith }

monitor-IsBounded : IsBounded monitor
unfolding lookup
monitor-IsBounded = record { distinct = (refl, (refl, tt)); bounded = λ t g e. ground arith }

poll_round_tracks_example :
    IsBounded (poll_round (2 ∷ 9 ∷ []) monitor).1
    × ((poll_round (2 ∷ 9 ∷ []) monitor).1.gen ≡ 2)
    × ((t : ℕ)
        → (is_known t (poll_round (2 ∷ 9 ∷ []) monitor).1 ≡ elem t (2 ∷ 9 ∷ []))
          × (told t spawned (poll_round (2 ∷ 9 ∷ []) monitor).0
              ≡ (elem t (2 ∷ 9 ∷ []) && not (is_known t monitor)))
          × (told t terminated (poll_round (2 ∷ 9 ∷ []) monitor).0
              ≡ (is_known t monitor && not (elem t (2 ∷ 9 ∷ [])))))
poll_round_tracks_example = poll_round_tracks (2 ∷ 9 ∷ []) monitor monitor-IsBounded (omega arith)

abbrev idle_monitor : ThdMon
idle_monitor = record { gen = 0; known_thds = (5, 0) ∷ []; polling = false }

rescan_never_terminates_example :
    (told 5 terminated (rescan_threads [] idle_monitor).0 ≡ false)
    × (told 5 existing (rescan_threads [] idle_monitor).0
        ≡ (elem {A = ℕ} 5 [] && not (is_known 5 idle_monitor)))
    × (is_known 5 (rescan_threads [] idle_monitor).1
        ≡ (elem {A = ℕ} 5 [] || is_known 5 idle_monitor))
    × ((rescan_threads [] idle_monitor).1.gen ≡ 0)
rescan_never_terminates_example = rescan_never_terminates [] idle_monitor refl refl 5

-- Thread 7 was listed last in the generation before the wrap.
abbrev late_monitor : ThdMon
late_monitor = record {
  gen = 4294967295;
  known_thds = (7, 4294967295) ∷ (2, 4294967295) ∷ [];
  polling = true;
}

late_monitor-IsBounded : IsBounded late_monitor
unfolding lookup
late_monitor-IsBounded = record { distinct = (refl, (refl, tt)); bounded = λ t g e. ground arith }

wrap_forgets_example :
    (told 7 terminated (run_rounds ((2 ∷ []) ∷ (2 ∷ 9 ∷ []) ∷ []) late_monitor).0 ≡ false)
    × (is_known 7 (run_rounds ((2 ∷ []) ∷ (2 ∷ 9 ∷ []) ∷ []) late_monitor).1 ≡ true)
unfolding lookup elem
wrap_forgets_example =
    wrap_forgets 7 ((2 ∷ []) ∷ (2 ∷ 9 ∷ []) ∷ []) late_monitor late_monitor-IsBounded (omega arith)
      refl refl

-- A name that is no number, and numbers at the ends of an int's range.
names_read :
    (stoi (codes "self") ≡ none)
    × (stoi (codes "2147483647") ≡ some (pos 2147483647))
    × (stoi (codes "2147483648") ≡ none)
    × (stoi (codes "-2147483648x") ≡ some (negsuc 2147483647))
    × (entry_ids (codes "12" ∷ codes "x" ∷ []) ≡ none)
unfolding stoi signed_digits in_int entry_ids neg
names_read = (refl, refl, refl, refl, refl)

decimal_987 : decimal 987 ≡ codes "987"
unfolding decimal digits
decimal_987 = refl
