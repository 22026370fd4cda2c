-- ===== src/Tests/Restoring.antt =====
-- A context that lies above the stack that it restores.
use sysfail.Prelude.{ℕ, ◌+◌, ◌≡◌, map, if◌then◌else◌, eqb, arith}
use sysfail.Restore.{
  Machine, rip, efl, run, sysfail_restore, indices, saved, below, sysfail_restore_lem,
}

-- The context stands at 8000; the saved stack pointer is 4000.
abbrev trapped : Machine
trapped = record {
  regs = λ i. if eqb i 8 then 8000 else 0;
  memory = λ a. if eqb a 8120 then 4000 else a + 1;
}

sysfail_restore_lem_example :
    (map (run sysfail_restore trapped).regs indices ≡ map (saved trapped) indices)
    × ((a : ℕ)
        → (run sysfail_restore trapped).memory a ≡ (
            if eqb (below 16 trapped) a
            then saved trapped efl
            else if eqb (below 8 trapped) a
            then saved trapped rip
            else trapped.memory a))
sysfail_restore_lem_example =
    sysfail_restore_lem trapped (omega arith) (ground arith) (ground arith) (ground arith)
      (ground arith) (ground arith)
