-- ===== src/Session.antt =====
-- The thread table of ActiveSession and the operations on it, from src/session.cc and
-- src/session.hh. The process is the table, the kernel's dispatch switch of each thread, and
-- whether the global `session` is set.
--
-- A caller of `thd_enable(tid)` or `thd_disable(tid)` holds the accessor of the entry, which locks
-- it, and waits on the semaphore of the entry until the handler in the other thread has run, so
-- each of these calls is one step on its entry here; Handshake has the steps of the call. What stands
-- between the first `acquire` and the second is the handler, if the signal is queued, or the callback,
-- if the thread is gone.
pub mod Protocol
pub mod Handshake
pub mod Effects
pub mod Threads
pub mod Invariant
pub mod Teardown
pub mod Steady
pub mod Self
pub mod Own
pub mod Frame
use sysfail.Prelude.{
  ℕ, suc, zero, Bool, true, false, not, Option, none, some, List, [], ◌∷◌, if◌then◌else◌, eqb,
}
use sysfail.Prelude.Int.{ℤ}
use sysfail.Prelude.Dict.{Dict, lookup, insert, modify, erase, keys, nat_eq}
use sysfail.Prelude.Lists.{is_some}
use sysfail.Signal.{Sent, send_signal, queued, called_back, ignored, assert_failed}

-- SYSCALL_DISPATCH_FILTER_ALLOW and SYSCALL_DISPATCH_FILTER_BLOCK
pub data Filter : Type 0 where
  allow block : Filter

pub record ThdState : Type 0 where
  pub on : Filter
  pub sig_coord : ℕ  -- the count of the binary semaphore

abbrev pub fresh_state : ThdState
fresh_state = record { on = allow; sig_coord = 1 }

pub data Error : Type 0 where
  blocked : Error  -- an `acquire` that nothing will release
  aborted : Error  -- a failed assertion
  thrown : Error  -- a `std::runtime_error`, which ends the process if a handler throws it

pub data Result (A : Type 0) : Type 0 where
  ok : A → Result A
  err : Error → Result A

pub record Process : Type 0 where
  pub thd_st : Dict ℕ ThdState
  pub sud : ℕ → Bool  -- PR_SET_SYSCALL_USER_DISPATCH is on, with the selector in the thread's entry
  pub session : Bool

-- What the operations ask of the plan and of the kernel: the selector, the kernel's answer to
-- `rt_tgsigqueueinfo` for a thread, and whether `prctl` succeeds in it.
pub record Outside : Type 0 where
  pub selector : ℕ → Bool
  pub answer : ℕ → ℤ
  pub prctl_ok : ℕ → Bool

-- The process comes back after an error too: what was written stays written.
abbrev pub Action : Type 0 → Type 0
Action A = Process → Result A × Process

-- The rest of a `do` block, after the result of what stands before it.
abbrev pub next : {A B : Type 0} → Result A × Process → (A → Action B) → Result B × Process
next (ok a, s) f = f a s
next (err e, s) f = (err e, s)

infixl 5 ◌>>=◌ ◌>>◌
abbrev pub ◌>>=◌ : {A B : Type 0} → Action A → (A → Action B) → Action B
◌>>=◌ m f s = next (m s) f

abbrev pub ◌>>◌ : {A B : Type 0} → Action A → Action B → Action B
m >> k = m >>= λ _. k

abbrev pub pure : Action (Unit {0})
pure s = (ok tt, s)

abbrev pub raise : Error → Action (Unit {0})
raise e s = (err e, s)

abbrev pub on_table : (Dict ℕ ThdState → Dict ℕ ThdState) → Action (Unit {0})
on_table f s = (ok tt, record s { thd_st = f s.thd_st })

abbrev pub set_filter : ℕ → Filter → Action (Unit {0})
set_filter tid on = on_table (modify tid (λ st. record st { on = on }))

abbrev pub switch : (ℕ → Bool) → ℕ → Bool → ℕ → Bool
switch sud tid v t = if eqb tid t then v else sud t

-- `sig_coord.release()`
unfoldable pub release : ℕ → Action (Unit {0})
release tid = on_table (modify tid (λ st. record st { sig_coord = suc st.sig_coord }))

-- `sig_coord.acquire()`: with the count at 0 it waits.
acquire_count : ℕ → ℕ → Action (Unit {0})
acquire_count zero tid = raise blocked
acquire_count (suc n) tid = on_table (modify tid (λ st. record st { sig_coord = n }))

count_of : Option ThdState → ℕ
count_of none = 0
count_of (some st) = st.sig_coord

unfoldable pub acquire : ℕ → Action (Unit {0})
unfolding acquire_count count_of
acquire tid s = acquire_count (count_of (lookup tid s.thd_st)) tid s

module _ (o : Outside) where
  -- `enable`, in the thread `tid`
  unfoldable pub enable : ℕ → Action (Unit {0})
  enable tid s =
      if o.prctl_ok tid
      then set_filter tid block (record s { sud = switch s.sud tid true })
      else raise thrown s

  -- `disable`, in the thread `tid`
  unfoldable pub disable : ℕ → Action (Unit {0})
  disable tid s =
      if o.prctl_ok tid then pure (record s { sud = switch s.sud tid false }) else raise thrown s

  -- The handler of SIG_ENABLE. The destructor of NotifySigHdlrCompletion releases on every way out.
  unfoldable pub enable_sysfail : ℕ → Action (Unit {0})
  unfolding enable release
  enable_sysfail tid s =
      let (r, s') = if s.session then enable tid s else pure s in
      let (_, s'') = release tid s' in (r, s'')

  -- The handler of SIG_DISABLE.
  unfoldable pub disable_sysfail : ℕ → Action (Unit {0})
  unfolding disable release
  disable_sysfail tid s =
      let (r, s') = if s.session then disable tid s else pure s in
      let (_, s'') = release tid s' in (r, s'')

  -- `send_signal` with the callback that releases: the handler runs if the signal was queued.
  signal_outcome : Sent → ℕ → Action (Unit {0}) → Action (Unit {0})
  unfolding release
  signal_outcome queued tid handler = handler
  signal_outcome called_back tid handler = release tid
  signal_outcome ignored tid handler = pure
  signal_outcome assert_failed tid handler = raise aborted

  unfoldable pub signal : ℕ → Action (Unit {0}) → Action (Unit {0})
  unfolding signal_outcome send_signal
  signal tid handler = signal_outcome (send_signal (o.answer tid) true) tid handler

  -- The protocol that `thd_enable(tid)` and `thd_disable(tid)` share.
  unfoldable pub coordinate : ℕ → Action (Unit {0}) → Action (Unit {0})
  coordinate tid handler = do acquire tid; signal tid handler; acquire tid; release tid

  -- `ActiveSession::thd_enable(pid_t)`
  unfoldable pub thd_enable : ℕ → Action (Unit {0})
  thd_enable tid s =
      if not (o.selector tid)
      then pure s
      else if is_some (lookup tid s.thd_st)
      then pure s
      else (on_table (insert tid fresh_state) >> coordinate tid (enable_sysfail tid)) s

  -- `ActiveSession::thd_disable(pid_t)`
  unfoldable pub thd_disable : ℕ → Action (Unit {0})
  thd_disable tid s =
      if is_some (lookup tid s.thd_st)
      then (coordinate tid (disable_sysfail tid) >> on_table (erase tid)) s
      else pure s

  -- `ActiveSession::thd_enable()`, called by the thread `tid`
  unfoldable pub thd_enable_self : ℕ → Action (Unit {0})
  unfolding enable
  thd_enable_self tid s =
      if not (o.selector tid)
      then pure s
      else if is_some (lookup tid s.thd_st)
      then pure s
      else (on_table (insert tid fresh_state) >> set_filter tid allow >> enable tid) s

  -- `ActiveSession::thd_disable()`, called by the thread `tid`
  unfoldable pub thd_disable_self : ℕ → Action (Unit {0})
  unfolding disable
  thd_disable_self tid s =
      if is_some (lookup tid s.thd_st)
      then (set_filter tid allow >> disable tid >> on_table (erase tid)) s
      else pure s

  -- The loop of `~Session` over the collected thread ids.
  unfoldable pub disable_all : List ℕ → Action (Unit {0})
  disable_all [] = pure
  disable_all (tid ∷ tids) = let rest = disable_all tids in thd_disable tid >> rest

  assert_empty : Dict ℕ ThdState → Action (Unit {0})
  assert_empty [] = pure
  assert_empty (x ∷ m) = raise aborted

  -- `~Session`
  unfoldable pub close : Action (Unit {0})
  unfolding assert_empty
  close s =
      if s.session
      then (disable_all (keys s.thd_st)
            >> (λ s'. assert_empty s'.thd_st s')
            >> (λ s'. (ok tt, record s' { session = false })))
          s
      else pure s
