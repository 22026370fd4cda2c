-- ===== src/Tests/Opening.antt =====
-- The signal table, the constructor of the session, its race with the monitor, and the log.
use sysfail.Prelude.{
  ℕ, ◌<◌, ◌≤◌, ◌≡◌, refl, Bool, true, false, not, ◌&&◌, ◌||◌, none, some, List, [], ◌∷◌, ◌++◌,
  if◌then◌else◌, eqb, ltb, arith,
}
use sysfail.Prelude.Int.{ℤ, pos}
use sysfail.Prelude.Dict.{lookup, nat_eq}
use sysfail.Prelude.Lists.{elem, is_some, length}
use sysfail.Plan.{no_discovery}
use sysfail.Signal.Table.{Table, other}
use sysfail.Signal.Unmask.{expected}
use sysfail.Regex.{matches}
use sysfail.Map.{libsysfail}
use sysfail.Map.Lines.{range_of}
use sysfail.Map.Text.{file}
use sysfail.Session.Invariant.{Inv}
use sysfail.ThdMon.{ThdMon}
use sysfail.ThdMon.Rescan.{IsBounded}
use sysfail.Track.Race.{running, aborted, Closing, Reach, close_may_abort}
use sysfail.Track.Discover.{polls, HasMonitor}
use sysfail.Open.{Surroundings, State, opened, IsClosed, open_session, open_session_ready}
use sysfail.Log.{Printf, log, take, log_lem}
use sysfail.Tests.Data.{live_outside, empty_process}
use sysfail.Tests.Maps.{lib, lib_data, lib-IsWritten, lib_data-IsWritten}
use sysfail.Tests.Tracking.{all_live, empty-Inv}

-- Every handler blocks every signal.
abbrev blocking : Table
blocking i = record {
  sa_sigaction = other i;
  sa_mask = λ j. true;
  sa_flags = record { siginfo = false; nodefer = false; onstack = false; restart = true };
}

-- glibc keeps 32 and 33 for itself.
abbrev takes : ℕ → Bool
takes i = not (eqb i 32 || (eqb i 33 || (eqb i 9 || eqb i 19)))

abbrev pub around : Surroundings
around = record {
  content = some (file (lib ∷ lib_data ∷ []));
  accepts = takes;
  sigrtmin = 34;
  exists = true;
  listing = 2 ∷ 7 ∷ [];
  poller = 2;
}

abbrev pub closed_state : State
closed_state = record {
  signals = blocking;
  tracked = record { process = record empty_process { session = false }; tmon = none };
}

pub closed_state-IsClosed : IsClosed closed_state
closed_state-IsClosed = record { empty = refl; off = λ t. refl }

open_session_ready_example :
    (st' : State) × (open_session live_outside around no_discovery closed_state
      ≡ (opened (range_of lib), st'))
    × ((i : ℕ) → st'.signals i ≡ expected takes 34 blocking i)
    × Inv live_outside st'.tracked.process
    × (st'.tracked.process.session ≡ true)
    × HasMonitor (polls no_discovery) 0 (λ t. elem t (2 ∷ 7 ∷ [])) st'.tracked
    × ((t : ℕ)
        → is_some (lookup t st'.tracked.process.thd_st) ≡ (
            elem t (2 ∷ 7 ∷ [])
            && (live_outside.selector t && not (polls no_discovery && eqb 2 t))))
unfolding libsysfail matches elem
open_session_ready_example =
    open_session_ready live_outside around no_discovery (lib ∷ lib_data ∷ []) (range_of lib)
      closed_state refl ((lib-IsWritten, refl), ((lib_data-IsWritten, refl), tt)) (refl, (refl, tt))
      refl (omega arith) refl refl refl refl refl all_live refl closed_state-IsClosed

-- The poller, thread 2, is alone so far.
abbrev alone : ThdMon
alone = record { gen = 3; known_thds = (2, 3) ∷ []; polling = true }

alone-IsBounded : IsBounded alone
unfolding lookup
alone-IsBounded = record { distinct = (refl, tt); bounded = λ t g e. ground arith }

close_may_abort_example :
    (b : Closing) × Reach live_outside
      (record { process = empty_process; tmon = alone; pending = []; phase = running })
      b
    × (b.phase ≡ aborted)
unfolding elem lookup
close_may_abort_example =
    close_may_abort live_outside all_live empty_process alone (2 ∷ 7 ∷ []) 7 empty-Inv refl refl
      alone-IsBounded (omega arith) refl refl refl

-- A `vsnprintf` that leaves zeros in the rest of the buffer.
formatted : List ℕ → List ℕ × ℤ
formatted text =
    (if ltb (length text) 512 then text ++ 0 ∷ [] else take 511 text ++ 0 ∷ [], pos (length text))

below : (n : ℕ) → n < 512 → ltb n 512 ≡ true
below n h = ground arith

not_below : (n : ℕ) → 512 ≤ n → ltb n 512 ≡ false
not_below n h = ground arith

printf : Printf
unfolding formatted
printf = record {
  run = formatted;
  counts = λ text h. refl;
  fits = λ text h. ([], rw (below (length text) h) refl);
  cut = λ text h. rw (not_below (length text) h) refl;
}

log_lem_example :
    log printf (72 ∷ 105 ∷ [])
    ≡ some (
        if ltb (length {A = ℕ} (72 ∷ 105 ∷ [])) 512
        then 72 ∷ 105 ∷ []
        else take 511 (72 ∷ 105 ∷ []) ++ 0 ∷ [])
log_lem_example = log_lem printf (72 ∷ 105 ∷ []) (omega arith)
