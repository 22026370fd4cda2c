-- ===== src/Signal/Table.antt =====
-- The signal table: `enable_handler` of src/signal.cc, and `unmask_sigsys` and the constructor of
-- ActiveSession in src/session.cc. The kernel's sigaction(2) reads or replaces the action of a
-- signal; for which signals it does so is a parameter. The messages of a failure are left out.
use sysfail.Prelude.{ℕ, zero, suc, ◌+◌, Bool, true, false, not, ◌&&◌, ◌||◌, if◌then◌else◌, eqb}

-- SIGSYS, SIGKILL, SIGSTOP and NSIG of Linux on x86-64
abbrev pub sigsys : ℕ
sigsys = 31

abbrev pub sigkill : ℕ
sigkill = 9

abbrev pub sigstop : ℕ
sigstop = 19

abbrev pub nsig : ℕ
nsig = 65

-- `handle_sigsys`, `reenable_sysfail`, `enable_sysfail` and `disable_sysfail` of src/session.cc, and
-- any other handler.
pub data Handler : Type 0 where
  on_sigsys on_rearm on_enable on_disable : Handler
  other : ℕ → Handler

pub record Flags : Type 0 where
  pub siginfo : Bool
  pub nodefer : Bool
  pub onstack : Bool
  pub restart : Bool

-- `struct sigaction`; the mask tells which signals are blocked while the handler runs.
pub record SigAction : Type 0 where
  pub sa_sigaction : Handler
  pub sa_mask : ℕ → Bool
  pub sa_flags : Flags

abbrev pub Table : Type 0
Table = ℕ → SigAction

-- `sigdelset`
abbrev pub delete : ℕ → (ℕ → Bool) → ℕ → Bool
delete s mask i = not (eqb s i) && mask i

abbrev pub replace : ℕ → SigAction → Table → Table
replace s a t i = if eqb s i then a else t i

pub data Installed : Type 0 where
  installed : Table → Installed
  thrown : Table → Installed  -- the table that the exception leaves

infixl 5 ◌>>=◌
abbrev pub ◌>>=◌ : Installed → (Table → Installed) → Installed
installed t >>= f = f t
thrown t >>= f = thrown t

-- `sigaction(2)` takes the signals of `accepts`.
module _ (accepts : ℕ → Bool) where
  -- Where the first call fails, the second one fails too, and the table is as it was.
  unfoldable pub unmask_sigsys : ℕ → Table → Table
  unmask_sigsys signum t =
      if accepts signum
      then replace signum (record (t signum) { sa_mask = delete sigsys (t signum).sa_mask }) t
      else t

  -- The loop of the constructor, over `n` signals from `i` on.
  unfoldable pub unmask_from : ℕ → ℕ → Table → Table
  unmask_from zero i t = t
  unmask_from (suc n) i t =
      unmask_from n (i + 1) (if eqb i sigkill || eqb i sigstop then t else unmask_sigsys i t)

  unfoldable pub enable_handler : ℕ → Handler → Table → Installed
  enable_handler signal hdlr t =
      if accepts signal
      then installed (
          replace signal
            (record {
              sa_sigaction = hdlr;
              sa_mask = λ i. false;
              sa_flags = record { siginfo = true; nodefer = true; onstack = true; restart = false };
            })
            t)
      else thrown t

  -- The constructor of ActiveSession, as far as the signals go.
  unfoldable pub install : (sigrtmin : ℕ) → Table → Installed
  unfolding unmask_from
  install sigrtmin t =
      enable_handler sigsys on_sigsys (unmask_from 64 1 t)
      >>= enable_handler (sigrtmin + 6) on_rearm
      >>= enable_handler (sigrtmin + 4) on_enable
      >>= enable_handler (sigrtmin + 5) on_disable
