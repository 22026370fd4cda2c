-- ===== src/ThdMon/Construct.antt =====
-- The constructor of ThdMon gets the semaphore that it waits for.
use sysfail.Prelude.{ℕ, zero, suc, ◌+◌, ◌<◌, ◌≤◌, ◌≡◌, refl, arith, ◌⊎◌}
use sysfail.ThdMon.Threads.{
  Poller, starting, locking, scanning, scanned, acquiring, serving, Threads, Step, start, lock,
  scan, announce, no_wait, wait, wake, relock, wait_again, wait_over, leave, again, acquire, rescan,
  rescanned, set_stop, notify, join, created, Steps, none_yet, then_step,
}

-- How many steps the poller has before it releases the semaphore for the first time.
abbrev ahead : Poller → ℕ
ahead starting = 4
ahead locking = 3
ahead scanning = 2
ahead scanned = 1
ahead _ = 0

-- `n` steps from the start, with the owner in `acquire()`.
abbrev Constructing : ℕ → Threads → Type 0
Constructing n t =
    t.owner ≡ acquiring
    → (0 < t.initialized) ⊎ ((n + ahead t.poller ≡ 4) × (0 < ahead t.poller) × (t.gen ≡ 0))

construct_step : {t u : Threads} (n : ℕ) → Step t u → Constructing n t → Constructing (suc n) u
construct_step n (start e) c = ground arith
construct_step n (lock e h) c = ground arith
construct_step n (scan e) c = ground arith
construct_step n (announce e) c = ground arith
construct_step n (no_wait e h) c = ground arith
construct_step n (wait e h) c = ground arith
construct_step n (wake e) c = ground arith
construct_step n (relock e h) c = ground arith
construct_step n (wait_again e h) c = ground arith
construct_step n (wait_over e) c = ground arith
construct_step n (leave e h) c = ground arith
construct_step n (again e h) c = ground arith
construct_step n (acquire k e h) c = ground arith
construct_step n (rescan e h) c = ground arith
construct_step n (rescanned e) c = ground arith
construct_step n (set_stop e h) c = ground arith
construct_step n (notify e) c = ground arith
construct_step n (join e h) c = ground arith

Steps-Constructing : {t : Threads} {n : ℕ} → Steps created n t → Constructing n t
Steps-Constructing none_yet = ground arith
Steps-Constructing (then_step {n = n} st step) = construct_step n step (Steps-Constructing st)

-- However the threads go on from the start of the poller: from four steps on, a constructor that
-- has not returned finds the semaphore released and can return.
construct_returns :
    (n : ℕ) (t : Threads)
    → Steps created n t
    → t.owner ≡ acquiring
    → 4 ≤ n
    → (u : Threads) × Step t u × (u.owner ≡ serving)
construct_returns n t st e four =
    let (k, q) = some_count t.initialized (ground (arith, Steps-Constructing st e)) in
    (_, acquire k e q, refl)
  where
    some_count : (m : ℕ) → 0 < m → (k : ℕ) × (m ≡ suc k)
    some_count zero lt = absurd (ground arith)
    some_count (suc k) lt = (k, refl)
