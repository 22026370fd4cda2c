-- ===== src/ThdMon.antt =====
-- src/thdmon.cc and src/thdmon.hh: the monitor that finds threads by listing /proc/self/task. The
-- listing is an input of each scan. The handler is not run here: a scan returns the calls that it
-- makes of it, in order.
pub mod Scan
pub mod Rounds
pub mod Rescan
pub mod Wrap
pub mod Names
pub mod Calls
pub mod Threads
pub mod Exclusion
pub mod Construct
pub mod Destroy
use sysfail.Prelude.{
  ℕ, ◌+◌, ◌%◌, ◌^◌, Bool, Option, none, some, List, [], ◌∷◌, ◌++◌, if◌then◌else◌, eqb, ltb,
}
use sysfail.Prelude.Dict.{Dict, lookup, insert, modify, erase, nat_eq}

-- `DiscThdSt`
pub data DiscThdSt : Type 0 where
  self existing spawned terminated : DiscThdSt

-- The calls of the handler.
abbrev pub Events : Type 0
Events = List (ℕ × DiscThdSt)

pub record ThdMon : Type 0 where
  pub gen : ℕ  -- uint32_t
  pub known_thds : Dict ℕ ℕ
  pub polling : Bool  -- `poller_thd.joinable()`

abbrev pub next_gen : ℕ → ℕ
next_gen gen = (gen + 1) % 2 ^ 32

-- The body of the first loop of `scan_tasks`, by what `find` gives.
visit : ℕ → ℕ → Option ℕ → Events × Dict ℕ ℕ → Events × Dict ℕ ℕ
visit gen tid none (ev, m) =
    (ev ++ (tid, if eqb gen 0 then existing else spawned) ∷ [], insert tid gen m)
visit gen tid (some g) (ev, m) = (ev, modify tid (λ _. gen) m)

-- The first loop of `scan_tasks`, on the calls so far and the table.
unfoldable pub mark : ℕ → List ℕ → Events × Dict ℕ ℕ → Events × Dict ℕ ℕ
unfolding visit
mark gen [] r = r
mark gen (tid ∷ tids) r = mark gen tids (visit gen tid (lookup tid r.1) r)

-- The loop that fills `to_remove`.
unfoldable pub stale : ℕ → Dict ℕ ℕ → List ℕ
stale gen [] = []
stale gen ((tid, g) ∷ m) = let rest = stale gen m in if ltb g gen then tid ∷ rest else rest

-- The loop over `to_remove`.
unfoldable pub sweep : List ℕ → Events × Dict ℕ ℕ → Events × Dict ℕ ℕ
sweep [] r = r
sweep (tid ∷ tids) r = sweep tids (r.0 ++ (tid, terminated) ∷ [], erase tid r.1)

-- `ThdMon::scan_tasks`, on a listing of the tasks.
unfoldable pub scan_tasks : List ℕ → ThdMon → Events × ThdMon
scan_tasks listing mon =
    let (ev, m) = mark mon.gen listing ([], mon.known_thds) in
    let (ev', m') = sweep (stale mon.gen m) (ev, m) in (ev', record mon { known_thds = m' })

-- `ThdMon::rescan_threads`
unfoldable pub rescan_threads : List ℕ → ThdMon → Events × ThdMon
rescan_threads listing mon =
    if mon.polling
    then scan_tasks listing (record mon { gen = next_gen mon.gen })
    else scan_tasks listing mon

-- `ThdMon::process` up to its loop: the poller, itself a thread, knows itself.
unfoldable pub poll_start : ℕ → ThdMon → Events × ThdMon
poll_start tid mon =
    ((tid, self) ∷ [], record mon { known_thds = insert tid mon.gen mon.known_thds })

-- A later round of the loop of `ThdMon::process`: the `gen++` of the `for`, after the wait of the
-- round before it, and the scan. A rescan of another thread stands in that wait. In the first round
-- there is the scan alone.
unfoldable pub poll_round : List ℕ → ThdMon → Events × ThdMon
unfolding scan_tasks
poll_round listing mon = scan_tasks listing (record mon { gen = next_gen mon.gen })

-- The constructor, before the first scan.
unfoldable pub new_monitor : Bool → ThdMon
new_monitor polling = record { gen = 0; known_thds = []; polling = polling }
