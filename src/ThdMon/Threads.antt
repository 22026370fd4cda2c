-- ===== src/ThdMon/Threads.antt =====
-- The threads of ThdMon in src/thdmon.cc, as a step relation: the poller in `process`, and the owner,
-- which constructs the monitor, rescans and destroys it. They share the mutex, the flag `stop`, the
-- semaphore `poll_initialized` and the generation. A wait on the condition variable gives the mutex
-- back and ends at any time: by the notification, by its interval or spuriously. What is scanned is
-- left out here.
use sysfail.Prelude.{ℕ, suc, ◌≡◌, Bool, true, false, if◌then◌else◌, eqb}
use sysfail.ThdMon.{next_gen}

-- Who holds `stop_mtx`.
pub data Holder : Type 0 where
  nobody by_poller by_owner : Holder

-- Where the poller stands: before its loop, before it has the mutex, in a scan, after it, at the
-- predicate of `wait_for`, in the wait, after it without and with the mutex, at the end of the
-- body, or past the loop.
pub data Poller : Type 0 where
  starting locking scanning scanned checking waiting relocking woken testing gone : Poller

-- Where the owner stands: in `poll_initialized.acquire()`, between its calls, in a rescan, in the
-- destructor with the mutex, in `join()`, or past it.
pub data Owner : Type 0 where
  acquiring serving rescanning stopping joining joined : Owner

pub record Threads : Type 0 where
  pub holder : Holder
  pub stop : Bool
  pub initialized : ℕ  -- the count of the semaphore
  pub gen : ℕ
  pub scans : ℕ  -- how many scans the poller has finished
  pub poller : Poller
  pub owner : Owner

-- `if (gen == 0) poll_initialized.release()`
abbrev released : ℕ → ℕ → ℕ
released gen n = if eqb gen 0 then suc n else n

pub data Step (s : Threads) : Threads → Type 0 where
  start : s.poller ≡ starting → Step s (record s { poller = locking })
  lock :
      s.poller ≡ locking
      → s.holder ≡ nobody
      → Step s (record s { poller = scanning; holder = by_poller })
  scan : s.poller ≡ scanning → Step s (record s { poller = scanned; scans = suc s.scans })
  announce :
      s.poller ≡ scanned
      → Step s (record s { poller = checking; initialized = released s.gen s.initialized })
  no_wait : s.poller ≡ checking → s.stop ≡ true → Step s (record s { poller = testing })
  wait :
      s.poller ≡ checking → s.stop ≡ false → Step s (record s { poller = waiting; holder = nobody })
  wake : s.poller ≡ waiting → Step s (record s { poller = relocking })
  relock :
      s.poller ≡ relocking
      → s.holder ≡ nobody
      → Step s (record s { poller = woken; holder = by_poller })
  wait_again :
      s.poller ≡ woken → s.stop ≡ false → Step s (record s { poller = waiting; holder = nobody })
  -- by the predicate, or by the interval
  wait_over : s.poller ≡ woken → Step s (record s { poller = testing })
  leave :
      s.poller ≡ testing
      → s.stop ≡ true
      → Step s (record s { poller = gone; holder = nobody; gen = next_gen s.gen })
  again :
      s.poller ≡ testing
      → s.stop ≡ false
      → Step s (record s { poller = scanning; gen = next_gen s.gen })
  acquire :
      (n : ℕ)
      → s.owner ≡ acquiring
      → s.initialized ≡ suc n
      → Step s (record s { owner = serving; initialized = n })
  rescan :
      s.owner ≡ serving
      → s.holder ≡ nobody
      → Step s (record s { owner = rescanning; holder = by_owner; gen = next_gen s.gen })
  rescanned : s.owner ≡ rescanning → Step s (record s { owner = serving; holder = nobody })
  -- the destructor takes the mutex and sets the flag
  set_stop :
      s.owner ≡ serving
      → s.holder ≡ nobody
      → Step s (record s { owner = stopping; holder = by_owner; stop = true })
  notify : s.owner ≡ stopping → Step s (record s { owner = joining; holder = nobody })
  join : s.owner ≡ joining → s.poller ≡ gone → Step s (record s { owner = joined })

-- After the constructor has started the poller.
abbrev pub created : Threads
created = record {
  holder = nobody;
  stop = false;
  initialized = 0;
  gen = 0;
  scans = 0;
  poller = starting;
  owner = acquiring;
}

pub data Reach : Threads → Type 0 where
  new : Reach created
  after : {s t : Threads} → Reach s → Step s t → Reach t

pub data Steps (s : Threads) : ℕ → Threads → Type 0 where
  none_yet : Steps s 0 s
  then_step : {n : ℕ} {t u : Threads} → Steps s n t → Step t u → Steps s (suc n) u
