-- ===== src/Budget/Types.antt =====
-- What `usage` and `govern` of domain/runtime_budget.py read from events. A number in a payload is an
-- `Amount`: `count` for a natural number, `unfit` for any other JSON value, by its text; the source
-- writes no other. Costs are numbers of a common unit. A budget's JSON null is a missing key where
-- the source asks for `None`.
use aura_claw.Prelude.{ℕ, String, Bool, Option, Eq, string_eq, option_eq}
use native.Mathlib.Decide.{ℕ_discrete}

pub data Amount : Type 0 where
  count : ℕ → Amount
  unfit : (text : String) → Amount

pub record Budget : Type 0 where
  pub policy_version : Option String
  pub scope_id : Option String
  pub max_steps : Option Amount
  pub max_output_tokens : Option Amount
  pub max_cost : Option Amount
  pub tree_max_steps : Option Amount
  pub tree_max_output_tokens : Option Amount
  pub tree_max_cost : Option Amount

pub record Reservation : Type 0 where
  pub reservation_id : String
  pub kind : String
  pub output_tokens : Option Amount
  -- the other keys of the payload and their values, as one text
  pub further : String

-- An event's type with its payload; `other` is any type that is passed over.
pub data BudgetEvent : Type 0 where
  budget_reserved : Reservation → BudgetEvent
  model_turn_completed : (model_call_id : String) (output_tokens cost : Option ℕ) → BudgetEvent
  tool_call_completed :
      (tool_invocation_id : String) (dispatch_started : Bool) (error_code : Option String)
      → BudgetEvent
  run_requested : (run_id : String) (budget : Option Budget) → BudgetEvent
  child_created : (parent_session_id : Option String) (runtime_budget : Option Budget) → BudgetEvent
  other : BudgetEvent

Amount-discrete : Discrete Amount
Amount-discrete = hlevel (ℕ_discrete, string_eq.dec)

instance unfoldable amount_eq : Eq Amount
amount_eq = record { dec = Amount-discrete }

Reservation-discrete : Discrete Reservation
Reservation-discrete =
    let optional : Discrete (Option Amount) = option_eq.dec in hlevel (optional, string_eq.dec)

instance unfoldable pub reservation_eq : Eq Reservation
unfolding Reservation-discrete Amount-discrete
reservation_eq = record { dec = Reservation-discrete }
