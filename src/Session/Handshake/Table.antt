-- ===== src/Session/Handshake/Table.antt =====
-- The whole table: an entry for every thread, each with its own turn of callers, so that calls for
-- different threads, their handlers and the code of the threads interleave freely. Calls that do so
-- have the effect of the same calls as single steps.
use sysfail.Prelude.{
  ℕ, ◌≡◌, ◌≢◌, true, List, Bool-cases, inl, inr, ap, sym, ◌∙◌, subst, eqb, if◌then◌else◌,
}
use sysfail.Prelude.Dict.{lookup, nat_eq}
use sysfail.Session.{Process, Outside, ok}
use sysfail.Track.Start.{IsFresh, IsFresh-Inv}
use sysfail.Track.Rounds.{All}
use sysfail.Session.Handshake.{
  idle, quiesced, aborted, Handshake, is_alive, Step, uncalled, Reach, here, after,
}
use sysfail.Session.Handshake.Invariant.{Stage, dispatched, uncalled-Inv, Reach-Inv}
use sysfail.Session.Handshake.Atomic.{
  Called, calls_for, IsPicked, perform, perform-IsAfter, entry_of, entry_between,
}

abbrev pub update : ℕ → Handshake → (ℕ → Handshake) → ℕ → Handshake
update j u es t = if eqb j t then u else es t

-- One thread's entry moves.
pub data TableStep (es : ℕ → Handshake) : (ℕ → Handshake) → Type 0 where
  pick : (j : ℕ) {u : Handshake} → Step (es j) u → TableStep es (update j u es)

-- From the first call on; a failed assertion of any thread ends the process.
pub data TableReach : (ℕ → Handshake) → Type 0 where
  first : TableReach (λ t. uncalled)
  next :
      {es fs : ℕ → Handshake}
      → TableReach es
      → ((t : ℕ) → (es t).main ≢ aborted)
      → TableStep es fs
      → TableReach fs

-- Each thread's entry moves as it does alone.
TableReach-Reach : {es : ℕ → Handshake} → TableReach es → (t : ℕ) → Reach uncalled (es t)
TableReach-Reach first t = here
TableReach-Reach (next {es} r up (pick j {u} st)) t = elim (Bool-cases (eqb j t)) [
  | inl e ↦ rw e (after (TableReach-Reach r j) (up j) st)
  | inr e ↦ rw e (TableReach-Reach r t)
]

-- However calls for any number of threads interleave with the handlers that they signal and with the
-- code of the threads: take any order `cs` of the calls that have returned which keeps the order of
-- those for each thread. As single steps in this order, in an open session whose table is empty and in
-- which the selector picks each of the threads and each gets its signals, the calls return: none
-- blocks or throws. What they leave for a thread is its entry and its dispatch, if it is between calls,
-- has not exited and is not past `disarm`.
pub perform-TableReach :
    (o : Outside) (es : ℕ → Handshake) (cs : List Called) (p : Process)
    → TableReach es
    → ((t : ℕ) → calls_for t cs ≡ (es t).calls)
    → All (IsPicked o) cs
    → IsFresh p
    → (p' : Process) × (perform o cs p ≡ (ok tt, p'))
      × ((t : ℕ)
          → (es t).caller ≡ idle
          → is_alive (es t).main ≡ true
          → (es t).main ≢ quiesced
          → (lookup t p'.thd_st ≡ entry_of (es t)) × (p'.sud t ≡ (es t).sud))
unfolding lookup
perform-TableReach o es cs p r same picked f =
    let (p', q, a) = perform-IsAfter o cs p picked record {
      inv = IsFresh-Inv o f;
      session = f.open_session;
      entries = λ t. ap (lookup t) f.empty;
      sud = f.off;
    } in
    (
      p',
      q,
      λ t e alive loud.
          let i = Reach-Inv uncalled-Inv (TableReach-Reach r t) in
          let st : Stage idle (es t) = subst (λ c. Stage c (es t)) e i.stage in
          let sw : (es t).sud ≡ (es t).found =
            i.switched_if_alive alive ∙ ap (λ c. dispatched c (es t).delivery (es t).found) e in
          (
            (rw (same t) at (a.entries t)) ∙ sym (entry_between (es t) st i.armed sw loud),
            (rw (same t) at (a.sud t)) ∙ sym st.2 ∙ sym sw,
          ),
    )
