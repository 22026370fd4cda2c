-- ===== src/Tests/Twice.antt =====
-- A second session, while the kernel dispatches thread 7 for a first one; and methods of a session beside
-- each other.
use sysfail.Prelude.{
  ℕ, suc, ◌≡◌, ◌≢◌, refl, Bool, true, false, none, some, List, [], ◌∷◌, eqb, arith,
}
use sysfail.Prelude.Int.{neg}
use sysfail.Prelude.Dict.{lookup, nat_eq}
use sysfail.Plan.{no_discovery}
use sysfail.Signal.{send_signal}
use sysfail.Map.Lines.{range_of}
use sysfail.ThdMon.{DiscThdSt, Events, ThdMon}
use sysfail.Session.{Process, block, ok}
use sysfail.Track.{Tracked, outside, thd_track}
use sysfail.Open.{State, opened, open_session}
use sysfail.Open.Requests.{serve, session_of}
use sysfail.Open.Frame.{IsAround}
use sysfail.Open.Second.{second_strands}
use sysfail.Open.Lock.{
  waiting, stopped, aborted, disabling, Locked, Act, add_thread, act, IsByLive, enter, call,
  begin_scan, Reach, here, after,
}
use sysfail.Open.Lock.Safety.{act-Returns}
use sysfail.Open.Lock.Ending.{CanStop, stop_alone}
use sysfail.Tests.Data.{live_outside, empty_process}
use sysfail.Tests.Maps.{lib, lib_data}
use sysfail.Tests.Tracking.{round, all_live, empty-Inv}
use sysfail.Tests.Opening.{around, closed_state}
use sysfail.Tests.Living.{calls, calm, everyone, around-IsUsual}

-- The first session has an entry for 7.
abbrev first_open : State
first_open = record closed_state {
  tracked = record {
    process = record {
      thd_st = (7, record { on = block; sig_coord = 1 }) ∷ [];
      sud = eqb 7;
      session = true;
    };
    tmon = none;
  };
}

-- The second one picks thread 2 alone.
abbrev second : ℕ → Bool
second = eqb 2

seven-IsAround : (l : List ℕ) → IsAround 7 (round l)
unfolding send_signal neg
seven-IsAround l = refl

second_strands_example :
    (st' : State) × (a1 : Tracked) × (a2 : Tracked) × (open_session
        (outside second (round []))
        around
        no_discovery
        first_open
      ≡ (opened (range_of lib), st'))
    × (serve second calls st'.tracked ≡ (ok tt, a1))
    × (session_of second calls (round []) st'.tracked ≡ (ok tt, a2))
    × (lookup 7 a1.process.thd_st ≡ none)
    × (a1.process.sud 7 ≡ true)
    × (a2.process.thd_st ≡ [])
    × (a2.process.session ≡ false)
    × (a2.process.sud 7 ≡ true)
second_strands_example =
    second_strands second no_discovery around (round []) (round []) calls (lib ∷ lib_data ∷ [])
      (range_of lib) first_open 7 around-IsUsual (everyone second []) (calm second)
      (everyone second []) (omega arith) refl refl
      (
        seven-IsAround [],
        (
          seven-IsAround [],
          (
            seven-IsAround (7 ∷ []),
            (seven-IsAround [], (seven-IsAround (2 ∷ []), (seven-IsAround [], tt))),
          ),
        ),
      )
      (seven-IsAround [])

-- Two methods have the lock: one has enabled thread 7, and the other has listed the tasks.
abbrev without_poller : ThdMon
without_poller = record { gen = 0; known_thds = []; polling = false }

abbrev shared :
    (b : Locked) × Reach live_outside
      (record {
        process = empty_process;
        tmon = without_poller;
        sharing = 0;
        scan = none;
        stop = waiting;
      })
      b
shared =
    let (s, q, _) =
      act-Returns live_outside all_live (add_thread 7) empty_process tt (empty-Inv, refl) in
    (
      _,
      after (after (after (after here (enter refl)) (enter refl)) (call (add_thread 7) 1 refl tt q))
          (begin_scan (2 ∷ 9 ∷ []) 1 refl refl),
    )

stop_alone_example :
    ((a : Act) (n : ℕ)
      → shared.0.sharing ≡ suc n
      → IsByLive live_outside a
      → (s' : Process) × (act live_outside a shared.0.process ≡ (ok tt, s')))
    × ((tid : ℕ) (st : DiscThdSt) (ev : Events)
        → shared.0.scan ≡ some ((tid, st) ∷ ev)
        → (s' : Process) × (thd_track live_outside tid st shared.0.process ≡ (ok tt, s')))
    × ((tids : List ℕ)
        → shared.0.stop ≡ disabling tids
        → (shared.0.sharing ≡ 0) × (shared.0.scan ≡ none))
    × (shared.0.stop ≢ aborted)
    × (shared.0.stop ≡ stopped
        → (shared.0.process.thd_st ≡ [])
          × (shared.0.process.session ≡ false)
          × ((t : ℕ) → shared.0.process.sud t ≡ false))
    × CanStop live_outside all_live shared.0
stop_alone_example =
    stop_alone live_outside all_live empty_process without_poller empty-Inv refl refl shared.1
      (λ e. cc)
