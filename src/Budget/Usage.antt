-- ===== src/Budget/Usage.antt =====
-- `usage` and `run_budgets` of domain/runtime_budget.py.
use aura_claw.Prelude.{
  ℕ, ◌+◌, String, Bool, true, false, not, ◌&&◌, Option, none, some, List, [], ◌∷◌, if◌then◌else◌,
  ◌==◌, contains, option_eq, pair_eq, triple_eq, string_eq, nat_eq, length, count_where, Error,
  Result, ok, err, ◌>>=◌,
}
use aura_claw.Prelude.Dict
use aura_claw.Prelude.Dict.{
  Dict, get-put, get-remove, get-put_self, get-remove_self, put-put_self, dict_laws,
}
use aura_claw.Contracts.{CanonicalEvent}
use aura_claw.Budget.Types.{Amount, Budget, Reservation, BudgetEvent, count, unfit}

abbrev pub Event : Type 0
Event = CanonicalEvent BudgetEvent

-- `int(value)`, and the default for a missing key
abbrev pub read_int : ℕ → Option Amount → Result ℕ
read_int default none = ok default
read_int default (some (count n)) = ok n
read_int default (some (unfit _)) = err Error.value_error

-- one event, of the run or of another
unfoldable pub note_reservation :
    Bool → BudgetEvent → Dict String Reservation → Dict String Reservation
note_reservation own (BudgetEvent.budget_reserved r) found =
    if own then Dict.put r.reservation_id r found else found
note_reservation own _ found = found

-- the reservations of a run by their ids; a later one replaces an earlier
unfoldable pub reservations :
    Option String → List Event → Dict String Reservation → Dict String Reservation
unfolding note_reservation
reservations run [] found = found
reservations run (event ∷ events) found =
    reservations run events (note_reservation (event.run_id == run) event.payload found)

-- a completed turn: its output tokens and its cost
abbrev pub Turn : Type 0
Turn = Option ℕ × Option ℕ

unfoldable pub note_turn : Bool → BudgetEvent → Dict String Turn → Dict String Turn
note_turn own (BudgetEvent.model_turn_completed id tokens cost) found =
    if own then Dict.put id (tokens, cost) found else found
note_turn own _ found = found

unfoldable pub models : Option String → List Event → Dict String Turn → Dict String Turn
unfolding note_turn
models run [] found = found
models run (event ∷ events) found =
    models run events (note_turn (event.run_id == run) event.payload found)

-- a completed call: whether it was dispatched, and its error
abbrev pub Call : Type 0
Call = Bool × Option String

unfoldable pub note_call : Bool → BudgetEvent → Dict String Call → Dict String Call
note_call own (BudgetEvent.tool_call_completed id started error) found =
    if own then Dict.put id (started, error) found else found
note_call own _ found = found

unfoldable pub tools : Option String → List Event → Dict String Call → Dict String Call
unfolding note_call
tools run [] found = found
tools run (event ∷ events) found =
    tools run events (note_call (event.run_id == run) event.payload found)

-- the ids that are reserved for a kind
unfoldable pub ids_of : String → Dict String Reservation → List String
ids_of kind [] = []
ids_of kind ((id, r) ∷ rest) =
    let more = ids_of kind rest in if r.kind == kind then id ∷ more else more

-- `len(model_ids)`: the reserved ids, and the completed ones that are not among them
unfoldable pub model_turns : Dict String Reservation → Dict String Turn → ℕ
unfolding ids_of Dict.keys
model_turns reserved turns =
    length (ids_of "model" reserved)
    + count_where (λ id. not (contains (ids_of "model" reserved) id)) (Dict.keys turns)

-- `int(m.get("usage", {}).get("output_tokens", 0))`, summed
unfoldable pub output_tokens : Dict String Turn → ℕ
output_tokens [] = 0
output_tokens ((_, (tokens, _)) ∷ rest) = elim tokens [ none ↦ 0 | some n ↦ n ] + output_tokens rest

-- whether a reservation is settled by a turn that names its output tokens
abbrev pub is_settled : Dict String Turn → String → Bool
is_settled turns id = elim (Dict.get id turns) [ some (some _, _) ↦ true | _ ↦ false ]

unfoldable pub outstanding : Dict String Turn → Dict String Reservation → Result ℕ
outstanding turns [] = ok 0
outstanding turns ((id, r) ∷ rest) = do
  more ← outstanding turns rest
  tokens ←
      if r.kind == "model" && not (is_settled turns id) then read_int 0 r.output_tokens else ok 0
  ok (tokens + more)

-- `sum(...) if costs and all(c is not None for c in costs) else None`
unfoldable pub total_cost : Dict String Turn → Option ℕ
total_cost [] = none
total_cost ((_, (_, none)) ∷ rest) = none
total_cost ((_, (_, some c)) ∷ []) = some c
total_cost ((_, (_, some c)) ∷ turn ∷ rest) = elim (total_cost (turn ∷ rest)) [
  | none ↦ none
  | some total ↦ some (c + total)
]

pub record Usage : Type 0 where
  pub steps_used : ℕ
  pub model_turns : ℕ
  pub tool_attempts : ℕ
  pub output_tokens : ℕ
  pub output_tokens_reserved : ℕ
  pub tool_dispatches : ℕ
  pub cost : Option ℕ
  pub suppressed_attempts : ℕ

unfoldable pub counted :
    (outstanding : ℕ) → Dict String Reservation → Dict String Turn → Dict String Call → Usage
unfolding model_turns ids_of output_tokens total_cost Dict.values
counted waiting reserved turns calls = record {
  steps_used = model_turns reserved turns + length (ids_of "tool" reserved);
  model_turns = model_turns reserved turns;
  tool_attempts = length (ids_of "tool" reserved);
  output_tokens = output_tokens turns;
  output_tokens_reserved = waiting;
  tool_dispatches = count_where (λ (started, _). started) (Dict.values calls);
  cost = total_cost turns;
  suppressed_attempts =
      count_where (λ (_, error). error == some "tool_repeat_suppressed") (Dict.values calls);
}

unfoldable pub usage_of :
    Dict String Reservation → Dict String Turn → Dict String Call → Result Usage
unfolding counted outstanding
usage_of reserved turns calls = do
  waiting ← outstanding turns reserved
  ok (counted waiting reserved turns calls)

unfoldable pub usage : List Event → (run_id : String) → Result Usage
unfolding usage_of reservations models tools
usage events run_id =
    usage_of (reservations (some run_id) events []) (models (some run_id) events [])
      (tools (some run_id) events [])

unfoldable pub note_budget : BudgetEvent → Dict String Budget → Dict String Budget
note_budget (BudgetEvent.run_requested run_id (some budget)) found = Dict.put run_id budget found
note_budget _ found = found

-- The budget of a run is that of its last request that has one.
unfoldable pub run_budgets : List Event → Dict String Budget → Dict String Budget
unfolding note_budget
run_budgets [] found = found
run_budgets (event ∷ events) found = run_budgets events (note_budget event.payload found)
