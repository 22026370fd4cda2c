-- ===== src/Session/Handshake.antt =====
-- `thd_enable(tid)` and `thd_disable(tid)` of src/session.cc step by step, against the thread `tid`
-- that they signal: a step relation over one entry of the table. Callers take turns, since each holds
-- the accessor of the entry from its start to its end. In the thread the handlers of SIG_ENABLE and
-- SIG_DISABLE run on top of its own code, which traps, is quiesced for an rt_sigprocmask that blocks
-- SIGSYS, and exits. The handlers reach the entry by the pointer of the signal, not by the table: the
-- fields `on` and `sig_coord` stay when the entry is gone from the table.
--
-- A signal is delivered when the thread's mask lets it, and the thread that exits drops it. `prctl`
-- succeeds, and a signal to a thread that has not exited is queued.
pub mod Invariant
pub mod Atomic
pub mod Progress
pub mod Hazards
pub mod Table
use sysfail.Prelude.{ℕ, suc, ◌≡◌, ◌≢◌, Bool, true, false, List, [], ◌∷◌, if◌then◌else◌}
use sysfail.Session.{Filter, allow, block}

pub data Kind : Type 0 where
  enabling disabling : Kind

-- Where the caller stands: between calls, before `acquire`, before `send_signal`, before the second
-- `acquire`, before the last `release`, and before the erasure.
pub data Caller : Type 0 where
  idle erasing : Caller
  acquiring sending waiting finishing : Kind → Caller

-- The signal of the call: not there, queued, its handler before and after the `prctl`, and queued but
-- dropped when the thread exited.
pub data Delivery : Type 0 where
  no_signal switched lost : Delivery
  pending entered : Kind → Delivery

-- The thread's own code: outside the handler of SIGSYS, in it before what it does with the table,
-- past `disarm`, ended by a failed assertion, or gone.
pub data Main : Type 0 where
  running trapped quiesced aborted exited : Main

pub record Handshake : Type 0 where
  pub found : Bool  -- the table has the entry
  pub on : Filter
  pub sig_coord : ℕ
  pub sud : Bool
  pub caller : Caller
  pub delivery : Delivery
  pub main : Main
  pub calls : List Kind  -- those that have returned, the last one first

abbrev pub is_alive : Main → Bool
is_alive running = true
is_alive trapped = true
is_alive quiesced = true
is_alive aborted = false
is_alive exited = false

-- A handler runs, on top of the thread's own code.
abbrev pub in_handler : Delivery → Bool
in_handler no_signal = false
in_handler (pending k) = false
in_handler (entered k) = true
in_handler switched = true
in_handler lost = false

abbrev at_exit : Delivery → Delivery
at_exit (pending k) = lost
at_exit d = d

pub data Step (s : Handshake) : Handshake → Type 0 where
  -- `thd_st.insert(a, tid)` and `thd_st.find(a, tid)`, which may end the call at once
  insert_new :
      s.caller ≡ idle
      → s.found ≡ false
      → Step s (record s { found = true; on = allow; sig_coord = 1; caller = acquiring enabling })
  insert_again : s.caller ≡ idle → s.found ≡ true → Step s (record s { calls = enabling ∷ s.calls })
  find : s.caller ≡ idle → s.found ≡ true → Step s (record s { caller = acquiring disabling })
  find_none : s.caller ≡ idle → s.found ≡ false → Step s (record s { calls = disabling ∷ s.calls })
  acquire :
      (k : Kind) (n : ℕ)
      → s.caller ≡ acquiring k
      → s.sig_coord ≡ suc n
      → Step s (record s { sig_coord = n; caller = sending k })
  send :
      (k : Kind)
      → s.caller ≡ sending k
      → is_alive s.main ≡ true
      → Step s (record s { delivery = pending k; caller = waiting k })
  -- ESRCH: the callback releases.
  send_fails :
      (k : Kind)
      → s.caller ≡ sending k
      → s.main ≡ exited
      → Step s (record s { sig_coord = suc s.sig_coord; caller = waiting k })
  deliver :
      (k : Kind)
      → s.delivery ≡ pending k
      → is_alive s.main ≡ true
      → Step s (record s { delivery = entered k })
  switch_on :
      s.delivery ≡ entered enabling
      → Step s (record s { on = block; sud = true; delivery = switched })
  switch_off :
      s.delivery ≡ entered disabling → Step s (record s { sud = false; delivery = switched })
  -- the destructor of NotifySigHdlrCompletion
  notify :
      s.delivery ≡ switched
      → Step s (record s { sig_coord = suc s.sig_coord; delivery = no_signal })
  acquire_again :
      (k : Kind) (n : ℕ)
      → s.caller ≡ waiting k
      → s.sig_coord ≡ suc n
      → Step s (record s { sig_coord = n; caller = finishing k })
  release_enabled :
      s.caller ≡ finishing enabling
      → Step s (record s { sig_coord = suc s.sig_coord; caller = idle; calls = enabling ∷ s.calls })
  release_disabled :
      s.caller ≡ finishing disabling
      → Step s (record s { sig_coord = suc s.sig_coord; caller = erasing })
  erase :
      s.caller ≡ erasing
      → Step s (record s { found = false; caller = idle; calls = disabling ∷ s.calls })
  -- `thd_enable()` and `thd_disable()` in the thread itself, which hold the accessor too
  enable_self :
      s.main ≡ running
      → in_handler s.delivery ≡ false
      → s.caller ≡ idle
      → s.found ≡ false
      → Step s (record s {
        found = true;
        on = block;
        sig_coord = 1;
        sud = true;
        calls = enabling ∷ s.calls;
      })
  disable_self :
      s.main ≡ running
      → in_handler s.delivery ≡ false
      → s.caller ≡ idle
      → s.found ≡ true
      → Step s (record s { found = false; on = allow; sud = false; calls = disabling ∷ s.calls })
  -- A syscall of the thread traps; most are handled with no look at the table.
  trap :
      s.main ≡ running
      → in_handler s.delivery ≡ false
      → s.sud ≡ true
      → s.on ≡ block
      → Step s (record s { main = trapped })
  serve : s.main ≡ trapped → in_handler s.delivery ≡ false → Step s (record s { main = running })
  -- `disarm` waits for the accessor.
  disarm :
      s.main ≡ trapped
      → in_handler s.delivery ≡ false
      → s.caller ≡ idle
      → s.found ≡ true
      → Step s (record s { on = allow; main = quiesced })
  disarm_fails :
      s.main ≡ trapped
      → in_handler s.delivery ≡ false
      → s.caller ≡ idle
      → s.found ≡ false
      → Step s (record s { main = aborted })
  -- `rearm`, when the signal of SIG_REARM is delivered
  rearm :
      s.main ≡ quiesced
      → in_handler s.delivery ≡ false
      → s.caller ≡ idle
      → Step s (record s { on = if s.found then block else s.on; main = running })
  -- The kernel drops what is queued for the thread, and its dispatch.
  exit :
      is_alive s.main ≡ true
      → in_handler s.delivery ≡ false
      → Step s (record s { sud = false; delivery = at_exit s.delivery; main = exited })

-- Before the first call, in a thread that the selector picks.
abbrev pub uncalled : Handshake
uncalled = record {
  found = false;
  on = allow;
  sig_coord = 0;
  sud = false;
  caller = idle;
  delivery = no_signal;
  main = running;
  calls = [];
}

-- A failed assertion ends the process: no step follows it.
pub data Reach (s : Handshake) : Handshake → Type 0 where
  here : Reach s s
  after : {t u : Handshake} → Reach s t → t.main ≢ aborted → Step t u → Reach s u
