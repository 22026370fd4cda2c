-- ===== src/Tests/Handshaking.antt =====
-- Calls that enable a thread, in the middle and at their end, and those for two threads in turns.
use sysfail.Prelude.{ℕ, ◌≤◌, ◌≡◌, ◌≢◌, refl, true, false, ◌⊎◌, ◌||◌, eqb, List, [], ◌∷◌, arith}
use sysfail.Prelude.Dict.{lookup, nat_eq}
use sysfail.Session.{Process, Outside, ok}
use sysfail.Session.Handshake.{
  Kind, enabling, idle, waiting, running, quiesced, aborted, is_alive, Handshake, in_handler, lost,
  Step, insert_new, acquire, send, deliver, switch_on, notify, acquire_again, release_enabled,
  uncalled, Reach, here, after,
}
use sysfail.Session.Handshake.Invariant.{handlers_safe}
use sysfail.Session.Handshake.Atomic.{Called, calls_for, entry_of, perform}
use sysfail.Session.Handshake.Table.{update, TableReach, first, next, pick, perform-TableReach}
use sysfail.Session.Threads.{IsLive}
use sysfail.Signal.{send_signal}
use sysfail.Prelude.Int.{pos, neg}
use sysfail.Session.Handshake.Progress.{steps_left, IsLost, Advances, CanReturn, call_goes_on}
use sysfail.Session.Handshake.Hazards.{exit_blocks, disarm_may_abort}
use sysfail.Tests.Data.{empty_process}
use sysfail.Tests.Tracking.{fresh}

-- The handler of the signal has started.
abbrev handling : (s : Handshake) × Reach uncalled s
handling = (
  _,
  after
      (after
        (after (after here (λ e. cc) (insert_new refl refl)) (λ e. cc)
          (acquire enabling 0 refl refl))
        (λ e. cc) (send enabling refl refl))
      (λ e. cc) (deliver enabling refl refl),
)

-- The call has returned.
abbrev enabled : (s : Handshake) × Reach uncalled s
enabled = (
  _,
  after
      (after (after (after handling.1 (λ e. cc) (switch_on refl)) (λ e. cc) (notify refl)) (λ e. cc)
        (acquire_again enabling 0 refl refl))
      (λ e. cc) (release_enabled refl),
)

handlers_safe_example :
    ((in_handler handling.0.delivery ≡ false)
      ⊎ ((handling.0.found ≡ true) × ((k : Kind) × (handling.0.caller ≡ waiting k))))
    × (handling.0.sig_coord ≤ 1)
handlers_safe_example = handlers_safe handling.1

call_goes_on_example :
    (steps_left handling.0 ≤ 8)
    × ((t : Handshake)
        → Step handling.0 t
        → (handling.0.caller ≡ idle) ⊎ (steps_left t ≤ steps_left handling.0))
    × ((handling.0.caller ≡ idle) ⊎ (Advances handling.0 ⊎ IsLost handling.0))
    × (handling.0.delivery ≢ lost → CanReturn handling.0)
call_goes_on_example = call_goes_on handling.1 (λ e. cc)

-- The selector picks 5 and 7.
abbrev two_outside : Outside
two_outside = record {
  selector = λ t. eqb t 5 || eqb t 7;
  answer = λ t. pos 0;
  prctl_ok = λ t. true;
}

pair-IsLive : (t : ℕ) → IsLive two_outside t
unfolding send_signal neg
pair-IsLive t = record { reached = refl; switched = refl }

-- A table whose threads all run their own code.
record Going : Type 1 where
  es : ℕ → Handshake
  reached : TableReach es
  run : (t : ℕ) → (es t).main ≡ running

abbrev start : Going
start = record { es = λ t. uncalled; reached = first; run = λ t. refl }

abbrev move : (g : Going) (j : ℕ) {u : Handshake} → Step (g.es j) u → u.main ≡ running → Going
move g j {u} st e = record {
  es = update j u g.es;
  reached = next g.reached (λ t h. ground (arith, g.run t, h)) (pick j st);
  run = λ t. ground (arith, e, g.run t);
}

-- The calls that enable 7 and 5, step by step in turns, up to their handlers.
abbrev called : Going
called =
    let a = move start 7 (insert_new refl refl) refl in
    let b = move a 5 (insert_new refl refl) refl in
    let c = move b 7 (acquire enabling 0 refl refl) refl in
    let d = move c 5 (acquire enabling 0 refl refl) refl in
    let e = move d 7 (send enabling refl refl) refl in
    let f = move e 5 (send enabling refl refl) refl in
    let g = move f 5 (deliver enabling refl refl) refl in move g 7 (deliver enabling refl refl) refl

-- The call for 5, which was the later one to begin, is the first to return.
abbrev both : Going
both =
    let a = move called 7 (switch_on refl) refl in
    let b = move a 5 (switch_on refl) refl in
    let c = move b 5 (notify refl) refl in
    let d = move c 7 (notify refl) refl in
    let e = move d 5 (acquire_again enabling 0 refl refl) refl in
    let f = move e 7 (acquire_again enabling 0 refl refl) refl in
    let g = move f 5 (release_enabled refl) refl in move g 7 (release_enabled refl) refl

abbrev returned : List Called
returned = (enabling, 7) ∷ (enabling, 5) ∷ []

returned_for : (t : ℕ) → calls_for t returned ≡ (both.es t).calls
returned_for t = ground arith

perform-TableReach_example :
    (p' : Process) × (perform two_outside returned empty_process ≡ (ok tt, p'))
    × ((t : ℕ)
        → (both.es t).caller ≡ idle
        → is_alive (both.es t).main ≡ true
        → (both.es t).main ≢ quiesced
        → (lookup t p'.thd_st ≡ entry_of (both.es t)) × (p'.sud t ≡ (both.es t).sud))
perform-TableReach_example =
    perform-TableReach two_outside both.es returned empty_process both.reached returned_for
      ((pair-IsLive 7, refl), ((pair-IsLive 5, refl), tt)) fresh

exit_blocks_example :
    (t : Handshake) × Reach enabled.0 t × IsLost t × ((u : Handshake) → ¬ Step t u)
exit_blocks_example = exit_blocks enabled.1 refl refl

disarm_may_abort_example : (t : Handshake) × Reach enabled.0 t × (t.main ≡ aborted)
disarm_may_abort_example = disarm_may_abort enabled.1 refl refl
