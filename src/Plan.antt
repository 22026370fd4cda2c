-- ===== src/Plan.antt =====
-- include/sysfail.hh (Probability, Outcome, Plan) and the constructors of ActiveOutcome and
-- ActivePlan in src/session.cc.
pub mod Table
pub mod Choice
pub mod Lookup
use sysfail.Prelude.{ℕ, Bool, true, false, ◌||◌, Option, none, some, List, [], ◌∷◌, if◌then◌else◌}
use sysfail.Prelude.Int.{ℤ}
use sysfail.Prelude.Dict.{Dict, insert, int_eq}
use sysfail.Doubles.{Doubles}
use sysfail.Regs.{Gregs}

-- `std::invalid_argument`, by its message.
pub data Invalid : Type 0 where
  invalid_probability invalid_bias : Invalid

-- A `std::variant<ProcPoll, None>`.
pub data Strategy : Type 0 where
  proc_poll : (itvl : ℤ) → Strategy
  no_discovery : Strategy

-- What a constructor returns or throws.
pub data Result {ℓ} (A : Type ℓ) : Type ℓ where
  throws : Invalid → Result A
  ok : A → Result A

infixl 5 ◌>>=◌
abbrev pub ◌>>=◌ {ℓ ℓ'} : {X : Type ℓ} {Y : Type ℓ'} (r : Result X) (k : X → Result Y) → Result Y
throws why >>= k = throws why
ok x >>= k = k x

module _ (d : Doubles) where
  open d use {Num, less, plus, nought, unity}

  pub record Probability : Type 0 where
    pub p : Num
    pub after_bias : Num

  -- The constructor of `Probability`.
  unfoldable pub probability : Num → Num → Result Probability
  probability p after_bias =
      if less p nought || less unity p
      then throws invalid_probability
      else if less after_bias nought || less unity after_bias
      then throws invalid_bias
      else ok (record { p = p; after_bias = after_bias })

  -- `error_weights` in the order of the std::map, ascending in the error number; a std::function
  -- may be empty.
  pub record Outcome : Type 0 where
    pub fail : Probability
    pub delay : Probability
    pub max_delay : ℤ
    pub error_weights : List (ℤ × Num)
    pub eligible : Option (Gregs → Bool)

  -- The std::map `error_by_cumulative_p`, ascending in its keys.
  abbrev pub Cumulative : Type 0
  Cumulative = List (Num × ℤ)

  -- `operator[]` and `=`: an equivalent key stays as it is, with the new value.
  unfoldable pub assign : Num → ℤ → Cumulative → Cumulative
  assign k v [] = (k, v) ∷ []
  assign k v ((j, w) ∷ m) =
      let rest = assign k v m in
      if less k j then (k, v) ∷ (j, w) ∷ m else if less j k then (j, w) ∷ rest else (j, v) ∷ m

  -- `lower_bound`, `none` for `end()`: the first entry whose key is not below `k`.
  unfoldable pub lower_bound : Num → Cumulative → Option (Num × ℤ)
  lower_bound k [] = none
  lower_bound k ((j, w) ∷ m) = if less j k then lower_bound k m else some (j, w)

  -- The loop of the constructor of ActiveOutcome.
  unfoldable pub cumulate : Num → List (ℤ × Num) → Cumulative → Cumulative
  cumulate cumulative [] m = m
  cumulate cumulative ((err_no, weight) ∷ ws) m =
      cumulate (plus cumulative weight) ws (assign (plus cumulative weight) err_no m)

  pub record ActiveOutcome : Type 0 where
    pub fail : Probability
    pub delay : Probability
    pub max_delay : ℤ
    pub error_by_cumulative_p : Cumulative
    pub eligibility_check : Option (Gregs → Bool)

  unfoldable pub active_outcome : Outcome → ActiveOutcome
  active_outcome o = record {
    fail = o.fail;
    delay = o.delay;
    max_delay = o.max_delay;
    error_by_cumulative_p = cumulate nought o.error_weights [];
    eligibility_check = o.eligible;
  }

  -- `ActiveOutcome::eligible`
  check_eligible : Option (Gregs → Bool) → Gregs → Bool
  check_eligible none regs = true
  check_eligible (some f) regs = f regs

  unfoldable pub is_eligible : ActiveOutcome → Gregs → Bool
  unfolding check_eligible
  is_eligible o regs = check_eligible o.eligibility_check regs

  pub record Plan : Type 0 where
    pub outcomes : Dict ℤ Outcome
    pub selector : ℕ → Bool
    pub thd_disc : Strategy

  -- `Plan()`
  unfoldable pub default_plan : Plan
  default_plan = record { outcomes = []; selector = λ _. false; thd_disc = no_discovery }

  -- The loop of the constructor of ActivePlan.
  unfoldable pub activate : Dict ℤ Outcome → Dict ℤ ActiveOutcome → Dict ℤ ActiveOutcome
  unfolding active_outcome
  activate [] acc = acc
  activate ((call, o) ∷ os) acc = activate os (insert call (active_outcome o) acc)

  pub record ActivePlan : Type 0 where
    pub plan : Plan
    pub active : Dict ℤ ActiveOutcome

  unfoldable pub active_plan : Plan → ActivePlan
  active_plan plan = record { plan = plan; active = activate plan.outcomes [] }
