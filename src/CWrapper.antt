-- ===== src/CWrapper.antt =====
-- src/cwrapper.cc and include/sysfail.h: the C interface, as far as it converts a plan and reads
-- the registers of a call.
pub mod Convert
pub mod Start
pub mod Fails
use sysfail.Prelude.{ℕ, Bool, true, not, Option, none, some, List, [], ◌∷◌, if◌then◌else◌}
use sysfail.Prelude.Int.{ℤ, pos, eqb_ℤ, to_int, less}
use sysfail.Prelude.Dict.{Dict, insert, int_eq}
use sysfail.Doubles.{Doubles}
use sysfail.Regs.{Gregs, reg_r8, reg_r9, reg_r10, reg_rdi, reg_rsi, reg_rdx, reg_rax}
use sysfail.Plan.{Result, ok, ◌>>=◌, probability, Outcome, Plan, Strategy, proc_poll, no_discovery}

unfoldable pub sysfail_syscall : Gregs → ℤ
sysfail_syscall regs = to_int (regs reg_rax)

-- `none` is `std::abort()`.
unfoldable pub sysfail_syscall_arg : Gregs → ℤ → Option ℤ
sysfail_syscall_arg regs arg =
    if eqb_ℤ arg (pos 0)
    then some (regs reg_rdi)
    else if eqb_ℤ arg (pos 1)
    then some (regs reg_rsi)
    else if eqb_ℤ arg (pos 2)
    then some (regs reg_rdx)
    else if eqb_ℤ arg (pos 3)
    then some (regs reg_r10)
    else if eqb_ℤ arg (pos 4)
    then some (regs reg_r8)
    else if eqb_ℤ arg (pos 5)
    then some (regs reg_r9)
    else none

-- A callback that returns an `int`, called with its user data; the C pointer may be null.
abbrev pub Callback : Type 0 → Type 0
Callback A = Option (A → ℤ)

-- A null predicate accepts, and another one by a value other than 0.
unfoldable pub accepts : {A : Type 0} → Callback A → A → Bool
accepts none x = true
accepts (some f) x = not (eqb_ℤ (f x) (pos 0))

module _ (d : Doubles) where
  open d use {Num}

  -- `sysfail_syscall_outcome_t`, with the array `error_wts` as the list of its `num_errors` entries.
  pub record CNode : Type 0 where
    pub call : ℤ
    pub fail_p : Num
    pub fail_bias : Num
    pub delay_p : Num
    pub delay_bias : Num
    pub max_delay_usec : ℕ
    pub eligible : Callback Gregs
    pub error_wts : List (ℤ × Num)

  -- `sysfail_plan_t`; the chain of outcomes as a list.
  pub record CPlan : Type 0 where
    pub strategy : ℤ
    pub poll_itvl_usec : ℕ
    pub selector : Callback ℕ
    pub syscall_outcomes : List CNode

  -- `insert` of a std::map<Errno, double>: sorted, and a key that is present stays.
  unfoldable pub insert_weight : ℤ → Num → List (ℤ × Num) → List (ℤ × Num)
  insert_weight e w [] = (e, w) ∷ []
  insert_weight e w ((f, v) ∷ m) =
      let rest = insert_weight e w m in
      if less e f then (e, w) ∷ (f, v) ∷ m else if less f e then (f, v) ∷ rest else (f, v) ∷ m

  unfoldable pub weights : List (ℤ × Num) → List (ℤ × Num) → List (ℤ × Num)
  unfolding insert_weight
  weights [] m = m
  weights ((e, w) ∷ ws) m = weights ws (insert_weight e w m)

  -- The body of the loop, up to the insertion.
  unfoldable pub convert_outcome : CNode → Result (Outcome d)
  unfolding weights accepts
  convert_outcome o = do
    fail ← probability d o.fail_p o.fail_bias
    delay ← probability d o.delay_p o.delay_bias
    ok (record {
      fail = fail;
      delay = delay;
      max_delay = pos o.max_delay_usec;
      error_weights = weights o.error_wts [];
      eligible = some (accepts o.eligible);
    })

  -- The loop over the chain of outcomes.
  unfoldable pub convert : List CNode → Dict ℤ (Outcome d) → Result (Dict ℤ (Outcome d))
  convert [] acc = ok acc
  convert (o ∷ os) acc = convert_outcome o >>= λ outcome. convert os (insert o.call outcome acc)

  unfoldable pub convert_strategy : CPlan → Strategy
  convert_strategy c =
      if eqb_ℤ c.strategy (pos 0)
      then no_discovery
      else if eqb_ℤ c.strategy (pos 1)
      then proc_poll (pos c.poll_itvl_usec)
      else no_discovery

  -- `sysfail_start` up to the construction of the session: `none` for a null plan.
  unfoldable pub start_plan : Option CPlan → Option (Result (Plan d))
  unfolding convert_strategy
  start_plan none = none
  start_plan (some c) = some do
    outcomes ← convert c.syscall_outcomes []
    ok (record {
      outcomes = outcomes;
      selector = accepts c.selector;
      thd_disc = convert_strategy c;
    })
