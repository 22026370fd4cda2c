-- ===== src/Session/Handshake/Invariant.antt =====
-- What holds of a call, the handler that it signals and the thread's own code, however they interleave.
use sysfail.Prelude.{
  ◌≤◌, ◌≡◌, ◌≢◌, refl, Bool, true, false, not, List, [], ◌∷◌, arith, ◌⊎◌, inl, inr,
}
use sysfail.Session.{block}
use sysfail.Session.Handshake.{
  Kind, enabling, disabling, Caller, idle, erasing, acquiring, sending, waiting, finishing,
  Delivery, no_signal, switched, lost, pending, entered, quiesced, aborted, exited, Handshake,
  is_alive, in_handler, Step, insert_new, insert_again, find, find_none, acquire, send, send_fails,
  deliver, switch_on, switch_off, notify, acquire_again, release_enabled, release_disabled, erase,
  enable_self, disable_self, trap, serve, disarm, disarm_fails, rearm, exit, uncalled, Reach, here,
  after,
}

-- Whether the last call enables.
abbrev pub last_enabled : List Kind → Bool
last_enabled [] = false
last_enabled (enabling ∷ ks) = true
last_enabled (disabling ∷ ks) = false

abbrev is_enabling : Kind → Bool
is_enabling enabling = true
is_enabling disabling = false

-- Whether the signal of a call is on its way, up to its `prctl`.
abbrev is_early : Delivery → Bool
is_early no_signal = false
is_early switched = false
is_early lost = false
is_early (pending k) = true
is_early (entered k) = true

-- Whether the kernel dispatches the syscalls of a thread that has not exited.
abbrev pub dispatched : Caller → Delivery → Bool → Bool
dispatched idle d found = found
dispatched erasing d found = false
dispatched (acquiring k) d found = not (is_enabling k)
dispatched (sending k) d found = not (is_enabling k)
dispatched (waiting enabling) d found = not (is_early d)
dispatched (waiting disabling) d found = is_early d
dispatched (finishing k) d found = is_enabling k

-- The handler has still to release.
abbrev pub is_coming : Delivery → Bool
is_coming no_signal = false
is_coming lost = false
is_coming (pending k) = true
is_coming (entered k) = true
is_coming switched = true

-- The signal is one of this call.
abbrev IsFor : Kind → Delivery → Type 0
IsFor k no_signal = Unit
IsFor k switched = Unit
IsFor k lost = Unit
IsFor k (pending j) = j ≡ k
IsFor k (entered j) = j ≡ k

-- The entry, its semaphore and the signal, by where the caller stands.
abbrev pub Stage : Caller → Handshake → Type 0
Stage idle s =
    (s.delivery ≡ no_signal)
    × ((s.found ≡ false) ⊎ (s.sig_coord ≡ 1))
    × (s.found ≡ last_enabled s.calls)
Stage erasing s = (s.delivery ≡ no_signal) × (s.found ≡ true) × (s.sig_coord ≡ 1)
Stage (acquiring k) s = (s.delivery ≡ no_signal) × (s.found ≡ true) × (s.sig_coord ≡ 1)
Stage (sending k) s = (s.delivery ≡ no_signal) × (s.found ≡ true) × (s.sig_coord ≡ 0)
Stage (waiting k) s =
    IsFor k s.delivery
    × (s.found ≡ true)
    × (((is_coming s.delivery ≡ true) × (s.sig_coord ≡ 0))
        ⊎ ((s.delivery ≡ no_signal) × (s.sig_coord ≡ 1))
        ⊎ ((s.delivery ≡ lost) × (s.sig_coord ≡ 0) × (s.main ≡ exited)))
Stage (finishing k) s = (s.delivery ≡ no_signal) × (s.found ≡ true) × (s.sig_coord ≡ 0)

pub record Inv (s : Handshake) : Type 0 where
  pub stage : Stage s.caller s
  pub switched_if_alive : is_alive s.main ≡ true → s.sud ≡ dispatched s.caller s.delivery s.found
  pub off_if_exited : s.main ≡ exited → s.sud ≡ false
  pub in_life : (is_coming s.delivery ≡ false) ⊎ (is_alive s.main ≡ true)
  pub low : s.sig_coord ≤ 1
  pub armed : s.sud ≡ true → (s.on ≡ block) ⊎ (s.main ≡ quiesced)

pub uncalled-Inv : Inv uncalled
uncalled-Inv = ground arith

pub Step-Inv : {s t : Handshake} → Step s t → s.main ≢ aborted → Inv s → Inv t
Step-Inv (insert_new e f) up i = ground arith
Step-Inv (insert_again e f) up i = ground arith
Step-Inv (find e f) up i = ground arith
Step-Inv (find_none e f) up i = ground arith
Step-Inv (acquire k n e f) up i = ground arith
Step-Inv (send k e f) up i = ground arith
Step-Inv (send_fails k e f) up i = ground arith
Step-Inv (deliver k e f) up i = ground arith
Step-Inv (switch_on e) up i = ground arith
Step-Inv (switch_off e) up i = ground arith
Step-Inv (notify e) up i = ground arith
Step-Inv (acquire_again k n e f) up i = ground arith
Step-Inv (release_enabled e) up i = ground arith
Step-Inv (release_disabled e) up i = ground arith
Step-Inv (erase e) up i = ground arith
Step-Inv (enable_self e f g h) up i = ground arith
Step-Inv (disable_self e f g h) up i = ground arith
Step-Inv (trap e f g h) up i = ground arith
Step-Inv (serve e f) up i = ground arith
Step-Inv (disarm e f g h) up i = ground arith
Step-Inv (disarm_fails e f g h) up i = ground arith
Step-Inv (rearm e f g) up i = ground arith
Step-Inv (exit e f) up i = ground arith

pub Reach-Inv : {s t : Handshake} → Inv s → Reach s t → Inv t
Reach-Inv i here = i
Reach-Inv i (after r up st) = Step-Inv st up (Reach-Inv i r)

-- However calls, handlers, the thread's own code and its exit interleave: a handler runs only while
-- the entry that its pointer reaches is in the table, and its caller waits; and the count of the
-- semaphore, released by the handler, the callback and the caller, never exceeds 1, as a
-- `std::binary_semaphore` asks.
pub handlers_safe :
    {s : Handshake}
    → Reach uncalled s
    → ((in_handler s.delivery ≡ false) ⊎ ((s.found ≡ true) × ((k : Kind) × (s.caller ≡ waiting k))))
      × (s.sig_coord ≤ 1)
handlers_safe {s} r = let i = Reach-Inv uncalled-Inv r in (by_caller s.caller refl i.stage, i.low)
  where
    by_caller :
        (c : Caller)
        → s.caller ≡ c
        → Stage c s
        → (in_handler s.delivery ≡ false)
          ⊎ ((s.found ≡ true) × ((k : Kind) × (s.caller ≡ waiting k)))
    by_caller idle e h = inl (ground arith)
    by_caller erasing e h = inl (ground arith)
    by_caller (acquiring k) e h = inl (ground arith)
    by_caller (sending k) e h = inl (ground arith)
    by_caller (waiting k) e h = inr (h.1, (k, e))
    by_caller (finishing k) e h = inl (ground arith)
