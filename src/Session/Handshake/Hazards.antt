-- ===== src/Session/Handshake/Hazards.antt =====
-- Two interleavings of a call with the thread that it signals that end badly.
use sysfail.Prelude.{◌≡◌, ◌≢◌, refl, true, false, arith, inl, inr, subst, Bool-cases}
use sysfail.Session.{block}
use sysfail.Session.Handshake.{
  Kind, enabling, disabling, idle, acquiring, no_signal, running, aborted, Main, Handshake, Step,
  insert_new, insert_again, find, find_none, acquire, send, send_fails, deliver, switch_on,
  switch_off, notify, acquire_again, release_enabled, release_disabled, erase, enable_self,
  disable_self, trap, serve, disarm, disarm_fails, rearm, exit, uncalled, Reach, here, after,
  is_alive,
}
use sysfail.Session.Handshake.Invariant.{Stage, uncalled-Inv, Reach-Inv}
use sysfail.Session.Handshake.Progress.{Reach-trans, IsLost}

-- No step follows.
IsLost-stuck : {s : Handshake} → IsLost s → (t : Handshake) → ¬ Step s t
IsLost-stuck l t (insert_new e f) = ground (arith, l.waits)
IsLost-stuck l t (insert_again e f) = ground (arith, l.waits)
IsLost-stuck l t (find e f) = ground (arith, l.waits)
IsLost-stuck l t (find_none e f) = ground (arith, l.waits)
IsLost-stuck l t (acquire k n e f) = ground (arith, l.waits)
IsLost-stuck l t (send k e f) = ground (arith, l.waits)
IsLost-stuck l t (send_fails k e f) = ground (arith, l.waits)
IsLost-stuck l t (deliver k e f) = ground (arith, l.dropped)
IsLost-stuck l t (switch_on e) = ground (arith, l.dropped)
IsLost-stuck l t (switch_off e) = ground (arith, l.dropped)
IsLost-stuck l t (notify e) = ground (arith, l.dropped)
IsLost-stuck l t (acquire_again k n e f) = ground (arith, l.taken)
IsLost-stuck l t (release_enabled e) = ground (arith, l.waits)
IsLost-stuck l t (release_disabled e) = ground (arith, l.waits)
IsLost-stuck l t (erase e) = ground (arith, l.waits)
IsLost-stuck l t (enable_self e f g h) = ground (arith, l.gone)
IsLost-stuck l t (disable_self e f g h) = ground (arith, l.gone)
IsLost-stuck l t (trap e f g h) = ground (arith, l.gone)
IsLost-stuck l t (serve e f) = ground (arith, l.gone)
IsLost-stuck l t (disarm e f g h) = ground (arith, l.gone)
IsLost-stuck l t (disarm_fails e f g h) = ground (arith, l.gone)
IsLost-stuck l t (rearm e f g) = ground (arith, l.gone)
IsLost-stuck l t (exit e f) = ground (arith, l.gone)

up : {m : Main} → m ≡ running → m ≢ aborted
up e f = cc (e, f)

-- The thread exits between the queueing of the signal and its delivery.
loses :
    (k : Kind) (s t : Handshake)
    → Reach s t
    → t.caller ≡ acquiring k
    → t.sig_coord ≡ 1
    → t.main ≡ running
    → (u : Handshake) × Reach s u × IsLost u
loses k s t r e one m = (
  _,
  after (after (after r (up m) (acquire k 0 e one)) (up m) (send k refl (ground (arith, m)))) (up m)
      (exit (ground (arith, m)) refl),
  record { kind = k; waits = refl; dropped = refl; taken = refl; gone = refl },
)

-- From any point between calls at which the thread runs its own code, some interleaving ends with the
-- next call waiting for ever, with its accessor held: the thread exits after the signal was queued
-- and before its handler has run, and no step follows.
pub exit_blocks :
    {s : Handshake}
    → Reach uncalled s
    → s.caller ≡ idle
    → s.main ≡ running
    → (t : Handshake) × Reach s t × IsLost t × ((u : Handshake) → ¬ Step t u)
exit_blocks {s} r e m =
    let st : Stage idle s = subst (λ c. Stage c s) e (Reach-Inv uncalled-Inv r).stage in
    let (t, q, l) : (t : Handshake) × Reach s t × IsLost t = elim (Bool-cases s.found) [
      | inr f ↦ loses enabling s _ (after here (up m) (insert_new e f)) refl refl m
      | inl f ↦ loses disabling s _ (after here (up m) (find e f)) refl (ground (arith, st, f)) m
    ] in
    (t, q, l, IsLost-stuck l)

-- The thread can trap at its next syscall.
record IsArmed (s : Handshake) : Type 0 where
  between : s.caller ≡ idle
  quiet : s.delivery ≡ no_signal
  found : s.found ≡ true
  at_one : s.sig_coord ≡ 1
  on : s.on ≡ block
  sud : s.sud ≡ true
  runs : s.main ≡ running

on_from : {s t u : Handshake} → Reach s t → is_alive t.main ≡ true → Step t u → Reach s u
on_from r a st = after r (λ e. ground (arith, a, e)) st

-- A whole call that enables.
enables :
    (s : Handshake)
    → s.caller ≡ idle
    → s.delivery ≡ no_signal
    → s.found ≡ false
    → s.main ≡ running
    → (t : Handshake) × Reach s t × IsArmed t
enables s e q f m =
    let a : is_alive s.main ≡ true = ground (arith, m) in
    let r1 = on_from here a (insert_new e f) in
    let r2 = on_from r1 a (acquire enabling 0 refl refl) in
    let r3 = on_from r2 a (send enabling refl a) in
    let r4 = on_from r3 a (deliver enabling refl a) in
    let r5 = on_from r4 a (switch_on refl) in
    let r6 = on_from r5 a (notify refl) in
    let r7 = on_from r6 a (acquire_again enabling 0 refl refl) in
    (
      _,
      on_from r7 a (release_enabled refl),
      record {
        between = refl;
        quiet = refl;
        found = refl;
        at_one = refl;
        on = refl;
        sud = refl;
        runs = m;
      },
    )

-- The thread traps, a whole call disables it, and `disarm` finds no entry.
removes : (s : Handshake) → IsArmed s → (t : Handshake) × Reach s t × (t.main ≡ aborted)
removes s i =
    let a : is_alive s.main ≡ true = ground (arith, i.runs) in
    let r0 = on_from here a (trap i.runs (ground (arith, i.quiet)) i.sud i.on) in
    let r1 = on_from r0 refl (find i.between i.found) in
    let r2 = on_from r1 refl (acquire disabling 0 refl i.at_one) in
    let r3 = on_from r2 refl (send disabling refl refl) in
    let r4 = on_from r3 refl (deliver disabling refl refl) in
    let r5 = on_from r4 refl (switch_off refl) in
    let r6 = on_from r5 refl (notify refl) in
    let r7 = on_from r6 refl (acquire_again disabling 0 refl refl) in
    let r8 = on_from r7 refl (release_disabled refl) in
    let r9 = on_from r8 refl (erase refl) in
    (_, on_from r9 refl (disarm_fails refl refl refl refl), refl)

-- From any point between calls at which the thread runs its own code, some interleaving ends in the
-- failed assertion of `disarm`: the thread traps, a call removes its entry while the handler runs, and
-- `disarm` does not find it.
pub disarm_may_abort :
    {s : Handshake}
    → Reach uncalled s
    → s.caller ≡ idle
    → s.main ≡ running
    → (t : Handshake) × Reach s t × (t.main ≡ aborted)
disarm_may_abort {s} r e m =
    let i = Reach-Inv uncalled-Inv r in
    let st : Stage idle s = subst (λ c. Stage c s) e i.stage in
    elim (Bool-cases s.found) [
      | inr f ↦
          let (t, q, armed) = enables s e st.0 f m in
          let (u, q', ended) = removes t armed in (u, Reach-trans q q', ended)
      | inl f ↦ removes s record {
        between = e;
        quiet = st.0;
        found = f;
        at_one = ground (arith, st, f);
        on = ground (arith, i.armed, i.switched_if_alive, e, m, f);
        sud = ground (arith, i.switched_if_alive, e, m, f);
        runs = m;
      }
    ]
