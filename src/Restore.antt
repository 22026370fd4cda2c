-- ===== src/Restore.antt =====
-- src/restore.S: `sysfail_restore` loads the registers of a signal context and goes on where it was
-- taken. Registers have the indices of the context, as in <sys/ucontext.h>. Memory holds 64-bit
-- words at addresses that are multiples of 8, and addresses do not wrap around. `popfq` sets the
-- flags to the word that it pops: it is one that the kernel has saved.
use sysfail.Prelude.{
  ℕ, ◌+◌, ◌-◌, ◌*◌, ◌≤◌, ◌≡◌, ◌≢◌, refl, List, [], ◌∷◌, map, if◌then◌else◌, eqb, arith,
}

pub record Machine : Type 0 where
  pub regs : ℕ → ℕ
  pub memory : ℕ → ℕ

abbrev pub set : (ℕ → ℕ) → ℕ → ℕ → ℕ → ℕ
set f i v j = if eqb i j then v else f j

abbrev pub rdi : ℕ
rdi = 8

abbrev pub rax : ℕ
rax = 13

abbrev pub rsp : ℕ
rsp = 15

abbrev pub rip : ℕ
rip = 16

abbrev pub efl : ℕ
efl = 17

pub data Instr : Type 0 where
  mov : ℕ → ℕ → Instr  -- movq offset(%rdi), register
  push_rax popfq ret : Instr

unfoldable pub exec : Instr → Machine → Machine
exec (mov offset r) m = record m { regs = set m.regs r (m.memory (m.regs rdi + offset)) }
exec push_rax m = record {
  regs = set m.regs rsp (m.regs rsp - 8);
  memory = set m.memory (m.regs rsp - 8) (m.regs rax);
}
exec popfq m = record m { regs = set (set m.regs efl (m.memory (m.regs rsp))) rsp (m.regs rsp + 8) }
exec ret m = record m { regs = set (set m.regs rip (m.memory (m.regs rsp))) rsp (m.regs rsp + 8) }

unfoldable pub run : List Instr → Machine → Machine
unfolding exec
run [] m = m
run (i ∷ is) m = run is (exec i m)

-- From the first instruction to `ret`.
abbrev pub sysfail_restore : List Instr
sysfail_restore =
    mov 0 0
    ∷ mov 8 1
    ∷ mov 16 2
    ∷ mov 24 3
    ∷ mov 32 4
    ∷ mov 40 5
    ∷ mov 48 6
    ∷ mov 56 7
    ∷ mov 72 9
    ∷ mov 80 10
    ∷ mov 88 11
    ∷ mov 96 12
    ∷ mov 112 14
    ∷ mov 120 rsp
    ∷ mov 128 rax
    ∷ push_rax
    ∷ mov 136 rax
    ∷ push_rax
    ∷ mov 104 rax
    ∷ mov 64 rdi
    ∷ popfq
    ∷ ret
    ∷ []

-- The indices of the registers that a context holds, from %r8 to the flags.
abbrev pub indices : List ℕ
indices = 0 ∷ 1 ∷ 2 ∷ 3 ∷ 4 ∷ 5 ∷ 6 ∷ 7 ∷ 8 ∷ 9 ∷ 10 ∷ 11 ∷ 12 ∷ 13 ∷ 14 ∷ 15 ∷ 16 ∷ 17 ∷ []

-- The context at the address in %rdi, by its indices.
abbrev pub saved : Machine → ℕ → ℕ
saved m i = m.memory (m.regs rdi + 8 * i)

-- The two words below the saved stack pointer, which the code writes on its way.
abbrev pub below : ℕ → Machine → ℕ
below n m = saved m rsp - n

set_ne : (f : ℕ → ℕ) (i v j : ℕ) → i ≢ j → set f i v j ≡ f j
set_ne f i v j h = ground arith

set_self : (f : ℕ → ℕ) (i v j : ℕ) → i ≡ j → set f i v j ≡ v
set_self f i v j h = ground arith

-- Memory after both pushes, with the stack pointer at `sp` before them.
abbrev pushed : (ℕ → ℕ) → ℕ → ℕ → ℕ → ℕ → ℕ
pushed mem sp v w = set (set mem (sp - 8) v) (sp - 8 - 8) w

pushed_ne : (mem : ℕ → ℕ) (sp v w a : ℕ) → sp - 8 ≢ a → sp - 16 ≢ a → pushed mem sp v w a ≡ mem a
pushed_ne mem sp v w a h k = ground arith

pushed_first : (mem : ℕ → ℕ) (sp v w : ℕ) → 16 ≤ sp → pushed mem sp v w (sp - 8 - 8 + 8) ≡ v
pushed_first mem sp v w h = ground arith

pushed_second : (mem : ℕ → ℕ) (sp v w : ℕ) → pushed mem sp v w (sp - 8 - 8) ≡ w
pushed_second mem sp v w = ground arith

popped : (sp : ℕ) → 16 ≤ sp → sp - 8 - 8 + 8 + 8 ≡ sp
popped sp h = omega arith

pushed_lem :
    (mem : ℕ → ℕ) (sp v w a : ℕ)
    → 16 ≤ sp
    → pushed mem sp v w a ≡ (if eqb (sp - 16) a then w else if eqb (sp - 8) a then v else mem a)
pushed_lem mem sp v w a h = ground arith

-- If the stack has room for two words, and these are not the context's words of the flags, of %rax or
-- of %rdi, then every register, the program counter and the flags have the saved values at the end;
-- and memory is as before, except that the two words right below the saved stack pointer hold the
-- saved program counter and the saved flags.
pub sysfail_restore_lem :
    (m : Machine)
    → 16 ≤ saved m rsp
    → below 8 m ≢ m.regs rdi + 136
    → below 8 m ≢ m.regs rdi + 104
    → below 8 m ≢ m.regs rdi + 64
    → below 16 m ≢ m.regs rdi + 104
    → below 16 m ≢ m.regs rdi + 64
    → let m' = run sysfail_restore m in
      (map m'.regs indices ≡ map (saved m) indices)
      × ((a : ℕ)
          → m'.memory a ≡ (
              if eqb (below 16 m) a
              then saved m efl
              else if eqb (below 8 m) a
              then saved m rip
              else m.memory a))
unfolding run
sysfail_restore_lem m room e8 a8 d8 a16 d16 = (
  rw
      (
        set_ne m.memory (saved m rsp - 8) (saved m rip) (m.regs rdi + 136) e8,
        pushed_ne m.memory (saved m rsp) (saved m rip) (saved m efl) (m.regs rdi + 104) a8 a16,
        pushed_ne m.memory (saved m rsp) (saved m rip) (saved m efl) (m.regs rdi + 64) d8 d16,
        pushed_first m.memory (saved m rsp) (saved m rip) (saved m efl) room,
        pushed_second m.memory (saved m rsp) (saved m rip) (saved m efl),
        popped (saved m rsp) room,
      )
      refl,
  λ a.
      rw (set_ne m.memory (saved m rsp - 8) (saved m rip) (m.regs rdi + 136) e8)
        (pushed_lem m.memory (saved m rsp) (saved m rip) (saved m efl) a room),
)
