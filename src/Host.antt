-- ===== src/Host.antt =====
-- What the code takes from outside: the random engine of a thread with its two distributions, and
-- the kernel behind the `syscall` instruction. The laws are the ranges that the distributions
-- document.
use sysfail.Prelude.{ℕ, ◌%◌, ◌≤◌, ◌≡◌, refl, true, false, List, [], ◌∷◌, arith, suc, ltb}
use sysfail.Prelude.Int.{ℤ, pos, negsuc}
use sysfail.Doubles.{Doubles, milli}

-- The registers that the `syscall` instruction reads.
pub record Call : Type 0 where
  pub nr : ℤ  -- %rax
  pub arg1 : ℤ  -- %rdi
  pub arg2 : ℤ  -- %rsi
  pub arg3 : ℤ  -- %rdx
  pub arg4 : ℤ  -- %r10
  pub arg5 : ℤ  -- %r8
  pub arg6 : ℤ  -- %r9

-- The fields of a `siginfo_t` that the code sets.
pub record SigInfo : Type 0 where
  pub si_code : ℤ
  pub si_pid : ℤ
  pub si_uid : ℤ
  pub si_value : ℤ

pub record Host (d : Doubles) : Type 1 where
  pub Rng : Type 0
  pub Kernel : Type 0
  -- `p_dist(rnd_eng)`, from [0, 1)
  pub draw : Rng → d.Num × Rng
  -- `delay_dist(rnd_eng)`, from [0, hi] for the bound `hi`
  pub draw_int : ℤ → Rng → ℤ × Rng
  -- the kernel's answer in %rax
  pub exec : Call → Kernel → ℤ × Kernel
  -- the kernel's view of the thread once %rsp has this value
  pub load_rsp : ℤ → Kernel → Kernel
  -- `getpid()`, `getuid()`, and the address of a local `siginfo_t`
  pub pid : ℤ
  pub uid : ℤ
  pub info_addr : ℤ
  pub draw_below : (r : Rng) → d.less (draw r).0 d.unity ≡ true
  pub draw_nonneg : (r : Rng) → d.less (draw r).0 d.nought ≡ false
  pub draw_int_range : (n : ℕ) (r : Rng) → (k : ℕ) × (k ≤ n) × ((draw_int (pos n) r).0 ≡ pos k)

-- What a run does to the outside.
pub data Event : Type 0 where
  executed : Call → Event
  slept : (microseconds : ℤ) → Event
  queued : (tid sig : ℤ) (info : SigInfo) → Event  -- an accepted `rt_tgsigqueueinfo`
  silenced : (tid : ℕ) → Event  -- the filter of the thread goes to ALLOW

module _ {d : Doubles} (h : Host d) where
  open h use {Rng, Kernel}

  -- One thread's view: the engine, the kernel, and the events so far, the last one first.
  pub record World : Type 0 where
    pub rng : Rng
    pub kernel : Kernel
    pub trace : List Event

-- The calls that the kernel got, the last one first.
abbrev pub executions : List Event → List Call
executions [] = []
executions (executed c ∷ t) = c ∷ executions t
executions (silenced tid ∷ t) = executions t
executions (slept x ∷ t) = executions t
executions (queued tid sig v ∷ t) = executions t

-- A host for tests: it answers from lists of numbers, a draw modulo 1000, a kernel's answer as it
-- stands. An empty list answers 0.
abbrev pub script_draw : List ℕ → ℕ × List ℕ
script_draw [] = (0, [])
script_draw (n ∷ ns) = (n % 1000, ns)

abbrev pub script_int : ℤ → List ℕ → ℤ × List ℕ
script_int (pos hi) [] = (pos 0, [])
script_int (pos hi) (n ∷ ns) = (pos (n % suc hi), ns)
script_int (negsuc hi) ns = (pos 0, ns)

abbrev pub script_exec : Call → List ℤ → ℤ × List ℤ
script_exec c [] = (pos 0, [])
script_exec c (z ∷ zs) = (z, zs)

pub script_below : (r : List ℕ) → ltb (script_draw r).0 1000 ≡ true
script_below [] = refl
script_below (n ∷ ns) = ground arith

pub script_nonneg : (r : List ℕ) → ltb (script_draw r).0 0 ≡ false
script_nonneg [] = refl
script_nonneg (n ∷ ns) = ground arith

pub script_range : (n : ℕ) (r : List ℕ) → (k : ℕ) × (k ≤ n) × ((script_int (pos n) r).0 ≡ pos k)
script_range n [] = (0, omega arith, refl)
script_range n (m ∷ ms) = (m % suc n, grind arith, refl)

abbrev pub script : Host milli
script = record {
  Rng = List ℕ;
  Kernel = List ℤ;
  draw = script_draw;
  draw_int = script_int;
  exec = script_exec;
  load_rsp = λ rsp k. k;
  pid = pos 100;
  uid = pos 1000;
  info_addr = pos 4096;
  draw_below = script_below;
  draw_nonneg = script_nonneg;
  draw_int_range = script_range;
}
