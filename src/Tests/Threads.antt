-- ===== src/Tests/Threads.antt =====
-- Threads that are enabled, disabled and gone, and the end of a session.
use sysfail.Prelude.{ℕ, ◌≡◌, refl, true, false, none, [], ◌∷◌, inl, arith, eqb}
use sysfail.Prelude.Int.{neg}
use sysfail.Prelude.Dict.{lookup, insert, modify, nat_eq}
use sysfail.Signal.{send_signal}
use sysfail.Session.{
  Process, Outside, block, ok, err, thrown, thd_enable, thd_enable_self, close, coordinate, acquire,
  release, signal, enable_sysfail, fresh_state,
}
use sysfail.Session.Threads.{IsLive, IsGone}
use sysfail.Session.Invariant.{Inv}
use sysfail.Session.Teardown.{close_clean}
use sysfail.Session.Self.{thd_enable_self_retry}
use sysfail.Tests.Data.{live_outside, gone_outside, empty_process}

abbrev one_thread : Process
one_thread = record {
  thd_st = (7, record { on = block; sig_coord = 1 }) ∷ [];
  sud = λ t. eqb 7 t;
  session = true;
}

enable_runs :
    ((thd_enable live_outside 7 empty_process).1.thd_st ≡ one_thread.thd_st)
    × ((thd_enable live_outside 8 empty_process).1.thd_st ≡ [])
unfolding thd_enable coordinate acquire release signal enable_sysfail send_signal neg lookup insert
    modify
enable_runs = (refl, refl)

abbrev refused : Outside
refused = record live_outside { prctl_ok = λ t. false }

-- The entry that a refused `prctl` leaves.
failing_self :
    let (r, s) = thd_enable_self refused 7 empty_process in
    (r ≡ err thrown) × (s.thd_st ≡ (7, fresh_state) ∷ [])
unfolding thd_enable_self lookup insert modify
failing_self = (refl, refl)

live : (t : ℕ) → IsLive live_outside t
unfolding send_signal neg
live t = record { reached = refl; switched = refl }

gone : IsGone gone_outside 7
unfolding send_signal neg
gone = refl

none_gone : (t : ℕ) → IsGone live_outside t → ⊥
unfolding send_signal neg
none_gone t e = cc

empty-Inv : Inv live_outside empty_process
unfolding lookup
empty-Inv = record {
  at_one = λ t st e. cc;
  backed = λ t e. cc;
  armed = λ t st e f. cc;
  chosen = λ t e. cc;
  off_if_gone = λ t g. refl;
}

one_thread-Inv : Inv live_outside one_thread
unfolding lookup
one_thread-Inv = record {
  at_one = λ t st e. ground arith;
  backed = λ t e. ground arith;
  armed = λ t st e f. ground arith;
  chosen = λ t e. ground arith;
  off_if_gone = λ t g. absurd (none_gone t g);
}

nothing_found : lookup 7 empty_process.thd_st ≡ none
unfolding lookup
nothing_found = refl

thd_enable_self_retry_example :
    ((thd_enable_self refused 7 empty_process).0 ≡ err thrown)
    × ((thd_enable_self refused 7 empty_process).1.sud ≡ empty_process.sud)
    × (thd_enable_self live_outside 7 (thd_enable_self refused 7 empty_process).1
        ≡ (ok tt, (thd_enable_self refused 7 empty_process).1))
    × (thd_enable live_outside 7 (thd_enable_self refused 7 empty_process).1
        ≡ (ok tt, (thd_enable_self refused 7 empty_process).1))
thd_enable_self_retry_example =
    thd_enable_self_retry refused 7 empty_process live_outside refl nothing_found refl

close_clean_example :
    (s' : Process) × (close live_outside one_thread ≡ (ok tt, s'))
    × (s'.thd_st ≡ [])
    × (s'.session ≡ false)
    × ((t : ℕ) → s'.sud t ≡ false)
close_clean_example = close_clean live_outside one_thread (λ t h. inl (live t)) refl one_thread-Inv
