-- ===== src/Tests/Failing.antt =====
-- A C plan under which every write of a thread fails, from the start of its session.
use sysfail.Prelude.{
  ℕ, Bool, ◌≡◌, refl, some, List, [], ◌∷◌, eqb, if◌then◌else◌, ap, sym, ◌∙◌, arith,
}
use sysfail.Prelude.Int.{pos, neg, to_int}
use sysfail.Prelude.Dict.{lookup, insert, modify, erase, nat_eq}
use sysfail.Prelude.Lists.{elem}
use sysfail.Doubles.{milli}
use sysfail.Host.{World, script}
use sysfail.Regs.{Gregs}
use sysfail.Plan.{ok, probability, active_plan}
use sysfail.Plan.Choice.{reaches}
use sysfail.Inject.Parts.{codes}
use sysfail.Inject.Effect.{LeftOut}
use sysfail.Signal.{send_signal}
use sysfail.Signal.Table.{enable_handler, install, unmask_sigsys, unmask_from}
use sysfail.Regex.{matches}
use sysfail.Map.{
  libsysfail, parse_line, store, lines, read_lines, read_hex, read_word, get_mmap, select,
  self_text, vdso,
}
use sysfail.Session as Session
use sysfail.Session.{thd_enable, coordinate, acquire, release, signal, enable_sysfail, enable}
use sysfail.ThdMon.{mark, stale, sweep, scan_tasks, poll_start, poll_round, new_monitor}
use sysfail.Track.{Tracked, thd_track, track_all, observe, initialize, poll_session}
use sysfail.Track.Rounds.{All}
use sysfail.Dispatch.Kernel.{syscall_of}
use sysfail.Open.{State, opened, open_session}
use sysfail.Open.Requests.{Call, IsCalm, poller_round, request, serve, wanted_all}
use sysfail.CWrapper.{
  CPlan, accepts, convert, convert_outcome, convert_strategy, weights, insert_weight, start_plan,
  sysfail_syscall,
}
use sysfail.CWrapper.Start.{plan_of, sysfail_start, constructed, started-Implements}
use sysfail.CWrapper.Fails.{sysfail_start-fails}
use sysfail.Tests.Data.{regs_of, world}
use sysfail.Tests.Maps.{lib, lib_data}
use sysfail.Tests.Plans.{node, converted}
use sysfail.Tests.Tracking.{round}
use sysfail.Tests.Opening.{around, closed_state, closed_state-IsClosed}
use sysfail.Tests.Isolation.{dispatch, beyond, write_ordinary, text}
use sysfail.Tests.Living.{live, everyone, around-IsUsual}

abbrev failing : CPlan milli
failing = record {
  strategy = pos 1;
  poll_itvl_usec = 10000;
  selector = some (λ t. if eqb t 7 then pos 1 else pos 0);
  syscall_outcomes = node (pos 1) 1000 ∷ node (pos 1) 200 ∷ [];
}

abbrev picked : ℕ → Bool
picked = accepts failing.selector

failing-convert : convert milli failing.syscall_outcomes [] ≡ ok ((pos 1, converted 1000) ∷ [])
unfolding convert convert_outcome probability insert
failing-convert = refl

started : State
started = (sysfail_start milli (round []) around (some failing) closed_state).1

failing-started :
    sysfail_start milli (round []) around (some failing) closed_state
    ≡ (constructed (opened text), started)
unfolding started
failing-started =
    let (st', q, _) =
      started-Implements milli failing ((pos 1, converted 1000) ∷ []) (round []) around
        (lib ∷ lib_data ∷ []) text closed_state failing-convert around-IsUsual (everyone picked [])
        closed_state-IsClosed in
    q ∙ ap (λ y. (constructed (opened text), y.1)) (sym q)

abbrev one_round : List Call
one_round = (round (2 ∷ 7 ∷ []), poller_round) ∷ []

one_round-IsCalm : All (IsCalm picked) one_round
one_round-IsCalm = ((everyone picked (2 ∷ 7 ∷ []), tt), tt)

followed : Tracked
followed = (serve picked one_round started.tracked).1

one_round_runs : serve picked one_round started.tracked ≡ (Session.ok tt, followed)
unfolding followed started sysfail_start start_plan convert convert_outcome probability insert
    convert_strategy open_session get_mmap read_lines lines parse_line read_hex read_word store
    select self_text libsysfail vdso matches install unmask_from unmask_sigsys enable_handler
    initialize observe track_all thd_track thd_enable coordinate acquire release signal
    enable_sysfail enable send_signal neg lookup modify erase elem mark stale sweep scan_tasks
    poll_start new_monitor poll_round poll_session request serve
one_round_runs = refl

sysfail_start-fails_example :
    (regs' : Gregs) × (w' : World script) × (syscall_of script dispatch text
        (λ z. pos 0)
        (active_plan milli (plan_of milli failing ((pos 1, converted 1000) ∷ [])))
        7
        0
        (regs_of 1)
        world
        followed.process
      ≡ some (regs', w', followed.process))
    × LeftOut script (codes (node (pos 1) 1000).error_wts) world regs' w'
unfolding sysfail_syscall to_int accepts reaches weights insert_weight wanted_all elem
sysfail_start-fails_example =
    sysfail_start-fails script dispatch (λ z. pos 0) failing ((pos 1, converted 1000) ∷ [])
      (node (pos 1) 1000) (round []) around (lib ∷ lib_data ∷ []) text one_round closed_state
      started followed 7 0 (regs_of 1) world failing-convert around-IsUsual (everyone picked [])
      closed_state-IsClosed failing-started one_round-IsCalm (omega arith) one_round_runs
      (live picked [] 7) (live picked (2 ∷ 7 ∷ []) 7, tt) refl beyond write_ordinary refl refl
      (omega arith) refl refl refl refl
