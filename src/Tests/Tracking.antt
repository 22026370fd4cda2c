-- ===== src/Tests/Tracking.antt =====
-- The monitor and the session together.
use sysfail.Prelude.{ℕ, ◌≡◌, refl, Bool, true, ◌||◌, List, [], ◌∷◌, inl, arith, eqb}
use sysfail.Prelude.Int.{pos, neg}
use sysfail.Prelude.Dict.{lookup, insert, modify, erase, keys, nat_eq}
use sysfail.Prelude.Lists.{elem}
use sysfail.Signal.{send_signal}
use sysfail.ThdMon.{ThdMon, mark, stale, sweep, scan_tasks, poll_start, poll_round, new_monitor}
use sysfail.Session.{
  Process, Outside, ok, thd_enable, thd_disable, coordinate, acquire, release, signal,
  enable_sysfail, disable_sysfail,
}
use sysfail.Session.Invariant.{Inv, IsSettled}
use sysfail.Track.{Round, process, outside, track_all, poll_rounds}
use sysfail.Track.Rounds.{Tracks, IsFair}
use sysfail.Track.Start.{IsFresh, process-Tracks}
use sysfail.Tests.Data.{live_outside, empty_process}

-- Threads 2 and 8 are not picked: 2 is the poller, and the selector takes odd numbers below 10.
abbrev odd : ℕ → Bool
odd t = eqb t 5 || (eqb t 7 || eqb t 9)

abbrev pub round : List ℕ → Round
round listing = record { answer = λ t. pos 0; prctl_ok = λ t. true; listing = listing }

abbrev table_after : List ℕ → List ℕ → List ℕ
unfolding process
table_after l1 l2 = keys (process odd 2 (round l1) (round l2 ∷ []) empty_process).1.thd_st

-- 5 goes and 9 comes.
follows : table_after (2 ∷ 5 ∷ 7 ∷ []) (2 ∷ 7 ∷ 8 ∷ 9 ∷ []) ≡ 7 ∷ 9 ∷ []
unfolding process poll_start poll_round scan_tasks new_monitor mark stale sweep lookup insert modify
    erase track_all poll_rounds thd_enable thd_disable coordinate acquire release signal
    enable_sysfail disable_sysfail send_signal neg
follows = refl

pub fresh : IsFresh empty_process
fresh = record { empty = refl; off = λ t. refl; open_session = refl }

pub settled :
    (o : Outside)
    → ((t : ℕ) → o.answer t ≡ pos 0)
    → ((t : ℕ) → o.prctl_ok t ≡ true)
    → (t : ℕ) → IsSettled o t
unfolding send_signal neg
settled o a p t = inl (record { reached = ground (arith, a t); switched = p t })

fair : (listing : List ℕ) → IsFair odd 2 (round (2 ∷ listing))
unfolding elem
fair listing = (settled (outside odd (round (2 ∷ listing))) (λ t. refl) (λ t. refl), refl)

process-Tracks_example :
    (mon : ThdMon) × (s' : Process) × (process odd 2
        (round (2 ∷ 5 ∷ []))
        (round (2 ∷ 7 ∷ []) ∷ round (2 ∷ 7 ∷ 9 ∷ []) ∷ [])
        empty_process
      ≡ (ok mon, s'))
    × Tracks odd 2 (round (2 ∷ 7 ∷ 9 ∷ [])) mon s'
process-Tracks_example =
    process-Tracks odd 2 (round (2 ∷ 5 ∷ [])) (round (2 ∷ 7 ∷ 9 ∷ [])) (round (2 ∷ 7 ∷ []) ∷ [])
      empty_process (fair (5 ∷ []), (fair (7 ∷ []), (fair (7 ∷ 9 ∷ []), tt))) (omega arith) fresh

pub all_live : (t : ℕ) → IsSettled live_outside t
all_live = settled live_outside (λ t. refl) (λ t. refl)

pub empty-Inv : Inv live_outside empty_process
unfolding lookup send_signal neg
empty-Inv = record {
  at_one = λ t st e. ground arith;
  backed = λ t e. ground arith;
  armed = λ t st e f. ground arith;
  chosen = λ t e. ground arith;
  off_if_gone = λ t g. refl;
}
