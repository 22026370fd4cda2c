-- ===== src/Tests/Data.antt =====
-- Inputs of the tests.
use sysfail.Syscall.{IsRegular}
use sysfail.Prelude.{
  ◌<◌, ◌^◌, Bool-cases, inl, inr, arith, ℕ, true, false, none, List, [], ◌∷◌, if◌then◌else◌, eqb,
}
use sysfail.Prelude.Int.{ℤ, pos, neg}
use sysfail.Doubles.{milli}
use sysfail.Host.{World, script}
use sysfail.Regs.{Gregs}
use sysfail.Plan.{Outcome, Plan, Probability, no_discovery}
use sysfail.Session.{Process, Outside}

-- `SYS_write` is 1 and EINTR is 4.
abbrev pub regs_of : ℕ → Gregs
regs_of call i = if eqb i 13 then pos call else pos i

pub regs_of-IsRegular : (call : ℕ) → call < 2 ^ 31 → IsRegular (regs_of call)
regs_of-IsRegular call lt = record {
  nr_fits = lt;
  words = λ i small. elim (Bool-cases (eqb i 13)) [
    | inl e ↦ rw e (omega arith)
    | inr e ↦ rw e (omega arith)
  ];
}

abbrev pub chance : ℕ → ℕ → Probability milli
chance p bias = record { p = p; after_bias = bias }

abbrev pub outcome : ℕ → ℕ → List (ℤ × ℕ) → Outcome milli
outcome p bias ws = record {
  fail = chance p bias;
  delay = chance 500 0;
  max_delay = pos 20;
  error_weights = ws;
  eligible = none;
}

-- EINTR with weight 0.3 and EIO with weight 0.7
abbrev pub mix : List (ℤ × ℕ)
mix = (pos 4, 300) ∷ (pos 5, 700) ∷ []

abbrev pub plan_of : Outcome milli → Plan milli
plan_of o = record {
  outcomes = (pos 1, o) ∷ [];
  selector = λ tid. eqb tid 7;
  thd_disc = no_discovery;
}

abbrev pub world : World script
world = record {
  rng = 100 ∷ 200 ∷ 300 ∷ 400 ∷ 500 ∷ 600 ∷ [];
  kernel = pos 11 ∷ pos 0 ∷ [];
  trace = [];
}

abbrev pub live_outside : Outside
live_outside = record { selector = λ t. eqb t 7; answer = λ t. pos 0; prctl_ok = λ t. true }

abbrev pub gone_outside : Outside
gone_outside = record { selector = λ t. eqb t 7; answer = λ t. neg (pos 3); prctl_ok = λ t. true }

abbrev pub empty_process : Process
empty_process = record { thd_st = []; sud = λ t. false; session = true }
