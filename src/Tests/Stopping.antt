-- ===== src/Tests/Stopping.antt =====
-- The monitor's threads from the start of the poller to the end of the destructor.
use sysfail.Prelude.{◌<◌, ◌≤◌, ◌≡◌, ◌≢◌, refl, true, ◌⊎◌}
use sysfail.ThdMon.Threads.{
  Threads, Step, scanning, gone, acquiring, rescanning, joined, start, lock, scan, announce, wait,
  wake, relock, acquire, rescan, rescanned, set_stop, notify, created, Reach, new, after, Steps,
  none_yet, then_step,
}
use sysfail.ThdMon.Exclusion.{threads_exclude}
use sysfail.ThdMon.Destroy.{destroy_returns}

-- The poller has made its first scan, and the owner still waits for the semaphore.
abbrev first_round : (t : Threads) × Steps created 4 t
first_round = (
  _,
  then_step (then_step (then_step (then_step none_yet (start refl)) (lock refl refl)) (scan refl))
      (announce refl),
)

-- A rescan while the poller waits; the poller wants the mutex meanwhile.
abbrev rescans : (t : Threads) × Reach t
rescans = (
  _,
  after
      (after
        (after
          (after
            (after (after (after (after new (start refl)) (lock refl refl)) (scan refl))
              (announce refl))
            (wait refl refl))
          (acquire 0 refl refl))
        (wake refl))
      (rescan refl refl),
)

threads_exclude_example :
    ¬ ((rescans.0.poller ≡ scanning) × (rescans.0.owner ≡ rescanning))
    × ((rescans.0.owner ≡ acquiring) ⊎ (0 < rescans.0.scans))
    × ((rescans.0.owner ≢ joined) ⊎ (rescans.0.poller ≡ gone))
    × ((rescans.0.poller ≢ gone) ⊎ (rescans.0.stop ≡ true))
threads_exclude_example = threads_exclude rescans.1

abbrev joins : (t : Threads) × Reach t
joins = (_, after (after (after rescans.1 (rescanned refl)) (set_stop refl refl)) (notify refl))

abbrev joins_on : (t : Threads) × Steps joins.0 1 t
joins_on = (_, then_step none_yet (relock refl refl))

destroy_returns_example :
    (1 ≤ 10) × ((joins_on.0.owner ≡ joined) ⊎ ((u : Threads) × Step joins_on.0 u))
destroy_returns_example = destroy_returns joins.1 refl 1 joins_on.0 joins_on.1
