-- ===== src/Track/Race.antt =====
-- `~Session` in src/session.cc with the poller still running: the destructor holds the session's
-- lock, which the monitor's handler does not take, so a call of `thd_track` may stand between any
-- two of its steps. The table's locks make each call of `thd_enable` and `thd_disable` one step.
--
-- A round of the poller lists the tasks and leaves the calls that it makes of its handler, in order;
-- the poller makes them one by one, and begins no round before the last of them.
use sysfail.Prelude.{
  ℕ, ◌+◌, ◌^◌, ◌<◌, ◌≡◌, ◌≢◌, refl, subst, true, false, not, ◌&&◌, List, [], ◌∷◌, arith,
}
use sysfail.Prelude.Dict.{Dict, lookup, keys, nat_eq}
use sysfail.Prelude.Lists.{elem, is_some}
use sysfail.ThdMon.{DiscThdSt, Events, ThdMon, poll_round}
use sysfail.ThdMon.Rounds.{is_known, elem-stale_marked}
use sysfail.ThdMon.Rescan.{IsBounded, bumped, bumped-IsReady}
use sysfail.Session.{ThdState, Process, Action, Result, Outside, ok, err, thd_disable, next}
use sysfail.Session.Invariant.{Inv, IsSettled, thd_disable-Inv}
use sysfail.Track.{thd_track, track_all}
use sysfail.Track.Scans.{track_scan}

-- Where the destructor stands: before it collects the ids, with ids left to disable, past its
-- assertion, or ended by it.
pub data Phase : Type 0 where
  running closed aborted : Phase
  disabling : List ℕ → Phase

pub record Closing : Type 0 where
  pub process : Process
  pub tmon : ThdMon
  pub pending : Events  -- what is left of the poller's round
  pub phase : Phase

cons_of_found :
    (t : ℕ) (m : Dict ℕ ThdState)
    → is_some (lookup t m) ≡ true
    → (x : ℕ × ThdState) × (m' : Dict ℕ ThdState) × (m ≡ x ∷ m')
unfolding lookup
cons_of_found t [] h = cc
cons_of_found t (x ∷ m) h = (x, m, refl)

first_ok :
    (x : Result (Unit {0}) × Process) (f : Unit {0} → Action (Unit {0})) (s' : Process)
    → next x f ≡ (ok tt, s')
    → (s : Process) × (x ≡ (ok tt, s)) × (f tt s ≡ (ok tt, s'))
first_ok (ok tt, s) f s' e = (s, refl, e)
first_ok (err x, s) f s' e = cc

module _ (o : Outside) where
  pub data Step (l : Closing) : Closing → Type 0 where
    collect : l.phase ≡ running → Step l (record l { phase = disabling (keys l.process.thd_st) })
    disable_one :
        (tid : ℕ) (tids : List ℕ) {s : Process}
        → l.phase ≡ disabling (tid ∷ tids)
        → thd_disable o tid l.process ≡ (ok tt, s)
        → Step l (record l { process = s; phase = disabling tids })
    check_empty :
        l.phase ≡ disabling []
        → l.process.thd_st ≡ []
        → Step l (record l { process = record l.process { session = false }; phase = closed })
    check_failed :
        (x : ℕ × ThdState) (m : Dict ℕ ThdState)
        → l.phase ≡ disabling []
        → l.process.thd_st ≡ x ∷ m
        → Step l (record l { phase = aborted })
    begin_round :
        (listing : List ℕ)
        → l.phase ≢ aborted
        → l.tmon.polling ≡ true
        → l.pending ≡ []
        → Step l (record l {
          tmon = (poll_round listing l.tmon).1;
          pending = (poll_round listing l.tmon).0;
        })
    track :
        (tid : ℕ) (st : DiscThdSt) (ev : Events) {s : Process}
        → l.phase ≢ aborted
        → l.pending ≡ (tid, st) ∷ ev
        → thd_track o tid st l.process ≡ (ok tt, s)
        → Step l (record l { process = s; pending = ev })

  pub data Reach (a : Closing) : Closing → Type 0 where
    here : Reach a a
    after : {b c : Closing} → Reach a b → Step b c → Reach a c

  trans : {a b c : Closing} → Reach a b → Reach b c → Reach a c
  trans r here = r
  trans r (after r' st) = after (trans r r') st

  -- A round's calls that all return, one by one.
  track_each :
      (ev : Events) (mon : ThdMon) (s s' : Process)
      → track_all o ev s ≡ (ok tt, s')
      → Reach
          (record { process = s; tmon = mon; pending = ev; phase = disabling [] })
          (record { process = s'; tmon = mon; pending = []; phase = disabling [] })
  unfolding track_all
  track_each [] mon s s' e =
      subst
        (λ x.
          Reach (record { process = s; tmon = mon; pending = []; phase = disabling [] })
            (record { process = x.1; tmon = mon; pending = []; phase = disabling [] }))
        e here
  track_each ((tid, st) ∷ ev) mon s s' e =
      let (s1, q, e1) = first_ok (thd_track o tid st s) (λ _. track_all o ev) s' e in
      trans (after here (track tid st ev (λ f. cc) refl q)) (track_each ev mon s1 s' e1)

  module _ (c : (t : ℕ) → IsSettled o t) where
    disable_some :
        (tids : List ℕ) (s : Process) (mon : ThdMon)
        → Inv o s
        → s.session ≡ true
        → (s' : Process) × Inv o s'
          × (s'.session ≡ true)
          × Reach
              (record { process = s; tmon = mon; pending = []; phase = disabling tids })
              (record { process = s'; tmon = mon; pending = []; phase = disabling [] })
    disable_some [] s mon v e = (s, v, e, here)
    disable_some (tid ∷ tids) s mon v e =
        let (s1, q1, v1, e1, _, _) = thd_disable-Inv o tid s (c tid) e v in
        let (s', v', e', r) = disable_some tids s1 mon v1 e1 in
        (s', v', e', trans (after here (disable_one tid tids refl q1)) r)

    -- The destructor can fail its assertion, in a process with the invariant, an open session and a
    -- poller, in which every thread gets its signals or is gone. Let the poller stand between two
    -- rounds, with a table with no entry from a later generation and a generation that the next
    -- round does not wrap around, and let its next listing hold a thread that the selector picks and
    -- that the monitor does not know. There is an interleaving, with that one round, that ends in
    -- the abort.
    pub close_may_abort :
        (s : Process) (mon : ThdMon) (listing : List ℕ) (tid : ℕ)
        → Inv o s
        → s.session ≡ true
        → mon.polling ≡ true
        → IsBounded mon
        → mon.gen + 1 < 2 ^ 32
        → elem tid listing ≡ true
        → is_known tid mon ≡ false
        → o.selector tid ≡ true
        → (b : Closing) × Reach
            (record { process = s; tmon = mon; pending = []; phase = running })
            b
          × (b.phase ≡ aborted)
    unfolding poll_round
    close_may_abort s mon listing tid v e polls bounded lt listed new sel =
        let (s1, v1, e1, r1) = disable_some (keys s.thd_st) s mon v e in
        let (s2, q2, v2, e2, d2) =
          track_scan o listing (bumped mon) (λ t. is_known t mon && not (elem t listing)) s1
            (elem-stale_marked listing (bumped mon) (bumped-IsReady mon bounded lt)) c e1 v1 in
        let (x, m, e3) = cons_of_found tid s2.thd_st (ground (arith, d2 tid, listed, new, sel)) in
        (
          _,
          after
              (trans
                (after (trans (after here (collect refl)) r1)
                  (begin_round listing (λ f. cc) polls refl))
                (track_each (poll_round listing mon).0 (poll_round listing mon).1 s1 s2 q2))
              (check_failed x m refl e3),
          refl,
        )
