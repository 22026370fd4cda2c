-- ===== src/InvPred.antt =====
-- src/inv_pred.cc: predicates on a syscall by the number of its arguments.
use sysfail.Prelude.{Bool}
use sysfail.Prelude.Int.{ℤ, to_int}
use sysfail.Regs.{Gregs, reg_r8, reg_r9, reg_r10, reg_rdi, reg_rsi, reg_rdx, reg_rax}

-- The std::variant `P`, with a constructor for each arity.
pub data P : Type 0 where
  zero_args : (ℤ → Bool) → P
  one_arg : (ℤ → ℤ → Bool) → P
  two_args : (ℤ → ℤ → ℤ → Bool) → P
  three_args : (ℤ → ℤ → ℤ → ℤ → Bool) → P
  four_args : (ℤ → ℤ → ℤ → ℤ → ℤ → Bool) → P
  five_args : (ℤ → ℤ → ℤ → ℤ → ℤ → ℤ → Bool) → P
  six_args : (ℤ → ℤ → ℤ → ℤ → ℤ → ℤ → ℤ → Bool) → P

-- `s` returns a `Syscall`, which is an `int`.
abbrev pub s : Gregs → ℤ
s regs = to_int (regs reg_rax)

abbrev pub a1 : Gregs → ℤ
a1 regs = regs reg_rdi

abbrev pub a2 : Gregs → ℤ
a2 regs = regs reg_rsi

abbrev pub a3 : Gregs → ℤ
a3 regs = regs reg_rdx

abbrev pub a4 : Gregs → ℤ
a4 regs = regs reg_r10

abbrev pub a5 : Gregs → ℤ
a5 regs = regs reg_r8

abbrev pub a6 : Gregs → ℤ
a6 regs = regs reg_r9

unfoldable pub p : P → Gregs → Bool
p (zero_args f) r = f (s r)
p (one_arg f) r = f (s r) (a1 r)
p (two_args f) r = f (s r) (a1 r) (a2 r)
p (three_args f) r = f (s r) (a1 r) (a2 r) (a3 r)
p (four_args f) r = f (s r) (a1 r) (a2 r) (a3 r) (a4 r)
p (five_args f) r = f (s r) (a1 r) (a2 r) (a3 r) (a4 r) (a5 r)
p (six_args f) r = f (s r) (a1 r) (a2 r) (a3 r) (a4 r) (a5 r) (a6 r)
