-- ===== src/Budget/Govern.antt =====
-- `govern` of domain/runtime_budget.py: its second half admits the reservations of a run.
use aura_claw.Prelude.{
  ℕ, ◌+◌, String, ◌||◌, Option, none, some, List, [], ◌∷◌, leb, if◌then◌else◌, ◌==◌, option_eq,
  pair_eq, triple_eq, string_eq, nat_eq, Error, Result, ok, err, ◌>>=◌, ◌>>◌,
}
use aura_claw.Prelude.Dict
use aura_claw.Prelude.Dict.{
  Dict, get-put, get-remove, get-put_self, get-remove_self, put-put_self, dict_laws,
}
use aura_claw.Prelude.{guard}
use aura_claw.Contracts.{NewEvent}
use aura_claw.Budget.Types.{Budget, Reservation, BudgetEvent, count, unfit, reservation_eq}
use aura_claw.Budget.Usage.{Event, read_int, reservations, usage, run_budgets}
use aura_claw.Budget.Allocation.{allocate, or_else, no_budget, text_of}

-- what the loop has used so far
pub record Tally : Type 0 where
  pub steps : ℕ
  pub reserved : ℕ
  pub prior : Dict String Reservation

-- `payload.get("output_tokens", 0)`, a natural number
abbrev pub tokens_of : Reservation → Result ℕ
tokens_of r = elim r.output_tokens [
  | none ↦ ok 0
  | some (count n) ↦ ok n
  | some (unfit _) ↦ err Error.collaboration_validation
]

-- a reservation whose id is new
unfoldable pub admit : Budget → (output : ℕ) → Tally → Reservation → Result Tally
admit budget output tally r = do
  guard (r.kind == "model" || r.kind == "tool") Error.collaboration_validation
  tokens ← tokens_of r
  limit ← read_int 48 budget.max_steps
  guard (leb (tally.steps + 1) limit) Error.step_budget
  limit ← read_int 8192 budget.max_output_tokens
  guard (leb (output + tally.reserved + tokens) limit) Error.output_token_budget
  ok (record {
    steps = tally.steps + 1;
    reserved = tally.reserved + tokens;
    prior = Dict.put r.reservation_id r tally.prior;
  })

-- the round of the loop for one reservation
unfoldable pub reserve : Budget → (output : ℕ) → Tally → Reservation → Result Tally
unfolding admit
reserve budget output tally r = elim (Dict.get r.reservation_id tally.prior) [
  | some earlier ↦ if earlier == r then ok tally else err Error.version_conflict
  | none ↦ admit budget output tally r
]

unfoldable pub reserve_all :
    Budget → (output : ℕ) → Tally → List (NewEvent BudgetEvent) → Result Tally
unfolding reserve
reserve_all budget output tally [] = ok tally
reserve_all budget output tally (event ∷ events) = do
  tally' ← elim event.payload [
    | BudgetEvent.budget_reserved r ↦ reserve budget output tally r
    | _ ↦ ok tally
  ]
  reserve_all budget output tally' events

-- the budget of the run
abbrev pub budget_of : List Event → Option String → Budget
budget_of existing run_id = or_else (Dict.get (text_of run_id) (run_budgets existing [])) no_budget

-- the tally before the loop
abbrev pub tally_of : ℕ → ℕ → Dict String Reservation → Tally
tally_of steps reserved prior = record { steps = steps; reserved = reserved; prior = prior }

unfoldable pub govern_run :
    List Event
    → Option String
    → Budget
    → List (NewEvent BudgetEvent)
    → Result (List (NewEvent BudgetEvent))
unfolding reserve_all usage reservations
govern_run existing run_id budget result = do
  used ← usage existing (text_of run_id)
  tally ←
      reserve_all budget used.output_tokens
        (tally_of used.steps_used used.output_tokens_reserved (reservations run_id existing []))
        result
  ok result

-- the budget rules of the run, where its budget has them
unfoldable pub govern_budget :
    List Event
    → Option String
    → Budget
    → List (NewEvent BudgetEvent)
    → Result (List (NewEvent BudgetEvent))
unfolding govern_run
govern_budget existing run_id budget result =
    if budget.policy_version == some "2"
    then govern_run existing run_id budget result
    else ok result

unfoldable pub govern :
    List Event
    → List (NewEvent BudgetEvent)
    → (session_id root_session_id : String) (run_id : Option String)
    → Result (List (NewEvent BudgetEvent))
unfolding allocate govern_budget run_budgets
govern existing proposed session_id root_session_id run_id = do
  result ← allocate existing proposed session_id root_session_id
  govern_budget existing run_id (budget_of existing run_id) result
