-- ===== src/Syscall.antt =====
-- src/syscall.cc and `continue_syscall` of src/session.cc.
use sysfail.Prelude.{◌≡◌, ◌∷◌, arith, ◌^◌, ◌<◌, ℕ}
use sysfail.Prelude.Int.{ℤ, to_int, through_u64, Fits, to_int_of_Fits, through_u64_of_Fits}
use sysfail.Doubles.{Doubles}
use sysfail.Host.{Call, Host, World, executed}
use sysfail.Regs.{
  Gregs, ngreg, set_reg, reg_r8, reg_r9, reg_r10, reg_rdi, reg_rsi, reg_rdx, reg_rax,
}

-- The arguments are `uint64_t` and the number is an `int`; all are loaded into `long` registers.
unfoldable pub as_loaded : ℤ → ℤ → ℤ → ℤ → ℤ → ℤ → ℤ → Call
as_loaded arg1 arg2 arg3 arg4 arg5 arg6 nr = record {
  nr = to_int nr;
  arg1 = through_u64 arg1;
  arg2 = through_u64 arg2;
  arg3 = through_u64 arg3;
  arg4 = through_u64 arg4;
  arg5 = through_u64 arg5;
  arg6 = through_u64 arg6;
}

-- The call that the trapped thread was about to make, as its registers have it.
abbrev pub requested : Gregs → Call
requested regs = record {
  nr = regs reg_rax;
  arg1 = regs reg_rdi;
  arg2 = regs reg_rsi;
  arg3 = regs reg_rdx;
  arg4 = regs reg_r10;
  arg5 = regs reg_r8;
  arg6 = regs reg_r9;
}

-- The registers hold 64-bit values, and the number is in the range of `int`.
pub record IsRegular (regs : Gregs) : Type 0 where
  pub nr_fits : Fits (2 ^ 31) (regs reg_rax)
  pub words : (i : ℕ) → i < ngreg → Fits (2 ^ 63) (regs i)

module _ {d : Doubles} (h : Host d) where
  -- `sysfail::syscall`: the call, as loaded, goes to the kernel.
  unfoldable pub syscall : Call → World h → ℤ × World h
  syscall c w =
      let (rax, k) = h.exec c w.kernel in
      (rax, record w { kernel = k; trace = executed c ∷ w.trace })

  -- `sysfail::set_rsp_and_exec_syscall`: the stack pointer is loaded first, from the parameter.
  -- The operand list calls that one an output; the compiler is taken to have stored it all the same.
  unfoldable pub set_rsp_and_exec_syscall : Call → ℤ → World h → ℤ × World h
  unfolding syscall
  set_rsp_and_exec_syscall c rsp w =
      syscall c (record w { kernel = h.load_rsp (through_u64 rsp) w.kernel })

  unfoldable pub continue_syscall : Gregs → World h → Gregs × World h
  unfolding as_loaded
  continue_syscall regs w =
      let (rax, w') =
        syscall
          (as_loaded (regs reg_rdi) (regs reg_rsi) (regs reg_rdx) (regs reg_r10) (regs reg_r8)
            (regs reg_r9) (regs reg_rax))
          w in
      (set_reg reg_rax rax regs, w')

  -- A syscall without sysfail: the kernel gets the call of the registers, once, and its answer goes to
  -- %rax.
  abbrev pub direct : Gregs → World h → Gregs × World h
  direct regs w = (
    set_reg reg_rax (h.exec (requested regs) w.kernel).0 regs,
    record w {
      kernel = (h.exec (requested regs) w.kernel).1;
      trace = executed (requested regs) ∷ w.trace;
    },
  )

  -- The narrowing conversions on the way lose nothing: the kernel gets the call that the trapped
  -- thread requested, once, and its answer goes to %rax.
  pub continue_syscall-direct :
      (regs : Gregs) (w : World h) → IsRegular regs → continue_syscall regs w ≡ direct regs w
  unfolding continue_syscall syscall
  continue_syscall-direct regs w r = rw (
    to_int_of_Fits (regs reg_rax) r.nr_fits,
    through_u64_of_Fits (regs reg_rdi) (r.words reg_rdi (omega arith)),
    through_u64_of_Fits (regs reg_rsi) (r.words reg_rsi (omega arith)),
    through_u64_of_Fits (regs reg_rdx) (r.words reg_rdx (omega arith)),
    through_u64_of_Fits (regs reg_r10) (r.words reg_r10 (omega arith)),
    through_u64_of_Fits (regs reg_r8) (r.words reg_r8 (omega arith)),
    through_u64_of_Fits (regs reg_r9) (r.words reg_r9 (omega arith)),
  )
