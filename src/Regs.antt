-- ===== src/Regs.antt =====
-- The general registers of a signal context (`gregset_t` of ucontext.h), as an array that the
-- REG_* constants index.
use sysfail.Prelude.{ℕ, ◌≡◌, ◌≢◌, eqb, if◌then◌else◌, arith}
use sysfail.Prelude.Int.{ℤ}

abbrev pub Gregs : Type 0
Gregs = ℕ → ℤ

-- NGREG
abbrev pub ngreg : ℕ
ngreg = 23

abbrev pub reg_r8 : ℕ
reg_r8 = 0

abbrev pub reg_r9 : ℕ
reg_r9 = 1

abbrev pub reg_r10 : ℕ
reg_r10 = 2

abbrev pub reg_rdi : ℕ
reg_rdi = 8

abbrev pub reg_rsi : ℕ
reg_rsi = 9

abbrev pub reg_rdx : ℕ
reg_rdx = 12

abbrev pub reg_rax : ℕ
reg_rax = 13

abbrev pub reg_rsp : ℕ
reg_rsp = 15

-- `regs[i] = v`
unfoldable pub set_reg : ℕ → ℤ → Gregs → Gregs
set_reg i v regs j = if eqb i j then v else regs j

pub set_reg_self : (i : ℕ) (v : ℤ) (regs : Gregs) → set_reg i v regs i ≡ v
unfolding set_reg
set_reg_self i v regs = ground arith

pub set_reg_ne : (i j : ℕ) (v : ℤ) (regs : Gregs) → i ≢ j → set_reg i v regs j ≡ regs j
unfolding set_reg
set_reg_ne i j v regs h = ground arith
