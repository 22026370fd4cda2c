-- ===== src/Dispatch/Kernel.antt =====
-- The kernel's syscall user dispatch, as its documentation describes it: a parameter. With it, what
-- becomes of a syscall of a thread.
use sysfail.Prelude.{
  ℕ, ◌+◌, ◌<◌, ◌≤◌, ◌≡◌, refl, Bool, true, false, ◌≢◌, ◌⊎◌, inl, inr, Option, none, some, ◌∷◌,
  if◌then◌else◌, arith,
}
use sysfail.Prelude.Int.{ℤ, eqb_ℤ, eqb_ℤ_iff}
use sysfail.Prelude.Dict.{lookup, nat_eq}
use sysfail.Doubles.{Doubles}
use sysfail.Host.{Host, World, executed}
use sysfail.Regs.{Gregs, set_reg, reg_rax}
use sysfail.Syscall.{requested}
use sysfail.Plan.{ActivePlan}
use sysfail.Map.{AddrRange}
use sysfail.Session.{Process, ThdState, Filter, allow, block}
use sysfail.Inject.{fail_maybe}
use sysfail.Dispatch.{
  Outcome, handle_sigsys, with_process, sys_rt_sigprocmask, sys_rt_sigreturn, sys_exit,
}
use sysfail.Dispatch.Routes.{IsExempt}

abbrev pub IsOutside : AddrRange → ℕ → Type 0
IsOutside r ip = (ip < r.start) ⊎ (r.start + r.length ≤ ip)

-- Whether a syscall becomes a SIGSYS, by PR_SET_SYSCALL_USER_DISPATCH in its thread, the selector
-- byte, the range whose syscalls pass, and the address of the instruction.
pub record UserDispatch : Type 0 where
  pub traps : Bool → Filter → AddrRange → ℕ → Bool
  pub off : (on : Filter) (r : AddrRange) (ip : ℕ) → traps false on r ip ≡ false
  pub allowed : (r : AddrRange) (ip : ℕ) → traps true allow r ip ≡ false
  pub inside :
      (r : AddrRange) (ip : ℕ)
      → r.start ≤ ip
      → ip < r.start + r.length
      → traps true block r ip ≡ false
  pub caught : (r : AddrRange) (ip : ℕ) → IsOutside r ip → traps true block r ip ≡ true

-- The byte that `on` of the entry is.
filter_of : Option ThdState → Filter
filter_of none = allow
filter_of (some st) = st.on

module _ {d : Doubles} (h : Host d) (u : UserDispatch) (text : AddrRange) (sigsys_in : ℤ → ℤ)
    (plan : ActivePlan d) where
  -- A syscall without sysfail: the kernel gets it, and its answer goes to %rax.
  abbrev pub untouched : Gregs → World h → Gregs × World h
  untouched regs w = (
    set_reg reg_rax (h.exec (requested regs) w.kernel).0 regs,
    record w {
      kernel = (h.exec (requested regs) w.kernel).1;
      trace = executed (requested regs) ∷ w.trace;
    },
  )

  active : Bool → Option (ActivePlan d)
  active true = some plan
  active false = none

  -- A syscall that the thread `tid` makes at `ip`, up to where the thread goes on.
  unfoldable pub syscall_of : ℕ → ℕ → Gregs → World h → Process → Outcome h
  unfolding filter_of active
  syscall_of tid ip regs w s =
      if u.traps (s.sud tid) (filter_of (lookup tid s.thd_st)) text ip
      then handle_sigsys h sigsys_in (active s.session) tid regs w s
      else with_process h s (some (untouched regs w))

  pub syscall_of_off :
      (tid ip : ℕ) (regs : Gregs) (w : World h) (s : Process)
      → s.sud tid ≡ false
      → syscall_of tid ip regs w s ≡ with_process h s (some (untouched regs w))
  unfolding syscall_of
  syscall_of_off tid ip regs w s e = rw (e, u.off (filter_of (lookup tid s.thd_st)) text ip) refl

  differs : (x y : ℤ) → x ≢ y → eqb_ℤ x y ≡ false
  differs x y ne = ground (arith, eqb_ℤ_iff x y)

  handle_ordinary :
      (tid : ℕ) (regs : Gregs) (w : World h) (s : Process)
      → ¬ IsExempt (regs reg_rax)
      → handle_sigsys h sigsys_in (some plan) tid regs w s
        ≡ with_process h s (fail_maybe h plan regs w)
  unfolding handle_sigsys
  handle_ordinary tid regs w s ordinary =
      rw
        (
          differs (regs reg_rax) sys_rt_sigprocmask (λ e. ordinary (inl e)),
          differs (regs reg_rax) sys_rt_sigreturn (λ e. ordinary (inr (inl e))),
          differs (regs reg_rax) sys_exit (λ e. ordinary (inr (inr e))),
        )
        refl

  pub syscall_of_on :
      (tid ip : ℕ) (regs : Gregs) (w : World h) (s : Process) (st : ThdState)
      → s.sud tid ≡ true
      → lookup tid s.thd_st ≡ some st
      → st.on ≡ block
      → s.session ≡ true
      → IsOutside text ip
      → ¬ IsExempt (regs reg_rax)
      → syscall_of tid ip regs w s ≡ with_process h s (fail_maybe h plan regs w)
  unfolding syscall_of
  syscall_of_on tid ip regs w s st e found armed open_session out ordinary =
      rw (e, found, armed, u.caught text ip out, open_session)
        (handle_ordinary tid regs w (record s { session = true }) ordinary)
