-- ===== src/Tests/Living.antt =====
-- The life of a session, from its start or from when it is open, with requests, to its end.
use sysfail.Prelude.{
  ℕ, ◌≡◌, refl, Bool, true, false, none, some, List, [], ◌∷◌, eqb, if◌then◌else◌, arith,
}
use sysfail.Prelude.Int.{pos, neg}
use sysfail.Prelude.Dict.{lookup, nat_eq}
use sysfail.Prelude.Lists.{elem, is_some}
use sysfail.Doubles.{milli}
use sysfail.Signal.{send_signal}
use sysfail.Regex.{matches}
use sysfail.Map.{libsysfail}
use sysfail.Map.Lines.{range_of}
use sysfail.Session.{ok, thd_enable, thd_disable, thd_enable_self, thd_disable_self}
use sysfail.Session.Threads.{IsLive}
use sysfail.Session.Invariant.{IsSettled}
use sysfail.Session.Own.{self-remote}
use sysfail.Track.{Tracked, outside}
use sysfail.Track.Rounds.{All}
use sysfail.Open.{State, opened}
use sysfail.Open.Requests.{
  add_this_thread, remove_this_thread, add_thread, remove_thread, discover, poller_round, Call,
  IsCalm, View, Implements, serve, session_of, wanted_all,
}
use sysfail.Open.Lifecycle.{session_lem}
use sysfail.CWrapper.{CPlan, accepts}
use sysfail.CWrapper.Start.{sysfail_start, constructed, initial, sysfail_start-stop}
use sysfail.Open.{IsUsual}
use sysfail.Tests.Data.{live_outside, empty_process}
use sysfail.Tests.Plans.{chain, chain-convert, converted}
use sysfail.Tests.Maps.{lib, lib_data, lib-IsWritten, lib_data-IsWritten}
use sysfail.Tests.Tracking.{round, settled, empty-Inv}
use sysfail.Tests.Opening.{around, closed_state, closed_state-IsClosed}

pub live : (selector : ℕ → Bool) (l : List ℕ) (t : ℕ) → IsLive (outside selector (round l)) t
unfolding send_signal neg
live selector l t = record { reached = refl; switched = refl }

self-remote_example :
    (thd_enable_self live_outside 7 empty_process ≡ thd_enable live_outside 7 empty_process)
    × (thd_disable_self live_outside 7 empty_process ≡ thd_disable live_outside 7 empty_process)
self-remote_example =
    self-remote live_outside 7 empty_process (live live_outside.selector [] 7) refl empty-Inv

abbrev pub seven : ℕ → Bool
seven t = eqb t 7

abbrev pub idle_session : Tracked
idle_session = record {
  process = empty_process;
  tmon = some (record { gen = 0; known_thds = (5, 0) ∷ []; polling = false });
}

abbrev pub at_start : View
at_start = record { injected = λ t. false; met = λ t. eqb 5 t }

pub idle_session-Implements : Implements false 0 live_outside idle_session at_start
unfolding lookup
idle_session-Implements = record {
  inv = empty-Inv;
  open_session = refl;
  entries = λ t. refl;
  gen = 0;
  raised = omega arith;
  idle = λ p. refl;
  monitor = record {
    mon = record { gen = 0; known_thds = (5, 0) ∷ []; polling = false };
    found = refl;
    mode = refl;
    generation = refl;
    bounded = record { distinct = (refl, tt); bounded = λ t g e. ground arith };
    knows = λ t. ground arith;
  };
}

-- Thread 7 adds itself, others add and remove it, a discovery meets it, and a poller, if there is one,
-- misses it.
abbrev pub calls : List Call
calls =
    (round [], add_this_thread 7)
    ∷ (round [], remove_thread 7)
    ∷ (round (7 ∷ []), discover)
    ∷ (round [], remove_this_thread 7)
    ∷ (round (2 ∷ []), poller_round)
    ∷ (round [], add_thread 7)
    ∷ []

wanted_seven : (wanted_all seven false calls at_start).injected 7 ≡ true
unfolding wanted_all elem
wanted_seven = refl

pub everyone : (selector : ℕ → Bool) (l : List ℕ) (t : ℕ) → IsSettled (outside selector (round l)) t
everyone selector l = settled (outside selector (round l)) (λ t. refl) (λ t. refl)

pub calm : (selector : ℕ → Bool) → All (IsCalm selector) calls
calm selector = (
  (everyone selector [], live selector [] 7),
  (
    (everyone selector [], tt),
    (
      (everyone selector (7 ∷ []), tt),
      (
        (everyone selector [], live selector [] 7),
        ((everyone selector (2 ∷ []), tt), ((everyone selector [], tt), tt)),
      ),
    ),
  ),
)

session_lem_example :
    (a1 : Tracked) × (a2 : Tracked) × (serve seven calls idle_session ≡ (ok tt, a1))
    × ((t : ℕ)
        → is_some (lookup t a1.process.thd_st) ≡ (wanted_all seven false calls at_start).injected t)
    × (session_of seven calls (round []) idle_session ≡ (ok tt, a2))
    × (a2.process.thd_st ≡ [])
    × (a2.process.session ≡ false)
    × (a2.tmon ≡ none)
    × ((t : ℕ) → a2.process.sud t ≡ false)
session_lem_example =
    session_lem false seven (round []) (round []) calls idle_session at_start (calm seven)
      (everyone seven []) (omega arith) idle_session-Implements

abbrev c_plan : CPlan milli
c_plan = record {
  strategy = pos 1;
  poll_itvl_usec = 10000;
  selector = some (λ t. if eqb t 7 then pos 1 else pos 0);
  syscall_outcomes = chain;
}

abbrev picked : ℕ → Bool
picked = accepts c_plan.selector

pub around-IsUsual : IsUsual around (lib ∷ lib_data ∷ []) (range_of lib)
unfolding libsysfail matches elem
around-IsUsual = record {
  content = refl;
  written = ((lib-IsWritten, refl), ((lib_data-IsWritten, refl), tt));
  apart = (refl, (refl, tt));
  one = refl;
  room = omega arith;
  sigsys_taken = refl;
  enable_taken = refl;
  disable_taken = refl;
  rearm_taken = refl;
  exists = refl;
  poller_listed = refl;
}

sysfail_start-stop_example :
    (st' : State) × (a1 : Tracked) × (a2 : Tracked) × (sysfail_start milli
        (round [])
        around
        (some c_plan)
        closed_state
      ≡ (constructed (opened (range_of lib)), st'))
    × (serve picked calls st'.tracked ≡ (ok tt, a1))
    × ((t : ℕ)
        → is_some (lookup t a1.process.thd_st)
          ≡ (wanted_all picked true calls (initial milli c_plan around)).injected t)
    × (session_of picked calls (round []) st'.tracked ≡ (ok tt, a2))
    × (a2.process.thd_st ≡ [])
    × (a2.process.session ≡ false)
    × (a2.tmon ≡ none)
    × ((t : ℕ) → a2.process.sud t ≡ false)
sysfail_start-stop_example =
    sysfail_start-stop milli c_plan ((pos 1, converted 100) ∷ (pos 0, converted 300) ∷ [])
      (round []) (round []) around (lib ∷ lib_data ∷ []) (range_of lib) calls closed_state
      chain-convert around-IsUsual (everyone picked []) (calm picked) (everyone picked [])
      (omega arith) closed_state-IsClosed
