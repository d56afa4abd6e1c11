-- ===== src/Budget/Allocation.antt =====
-- The first half of `govern` of domain/runtime_budget.py: the budget of a new Child, out of that of
-- its task tree.
use aura_claw.Prelude.{
  ℕ, ◌+◌, String, Bool, Option, none, some, List, [], ◌∷◌, map, ltb, leb, if◌then◌else◌, is_some,
  ◌==◌, option_eq, pair_eq, triple_eq, string_eq, nat_eq, all, select, Error, Result, ok, err,
  ◌>>=◌, ◌>>◌,
}
use aura_claw.Prelude.Dict
use aura_claw.Prelude.Dict.{
  Dict, get-put, get-remove, get-put_self, get-remove_self, put-put_self, dict_laws,
}
use aura_claw.Prelude.{guard}
use aura_claw.Contracts.{NewEvent}
use aura_claw.Budget.Types.{Amount, Budget, BudgetEvent, count}
use aura_claw.Budget.Usage.{Event, read_int, run_budgets}

-- what `govern` reads of the payload of a Child's creation
pub record Child : Type 0 where
  pub parent_session_id : Option String
  pub runtime_budget : Budget

-- `{}`
abbrev pub no_budget : Budget
no_budget = record {
  policy_version = none;
  scope_id = none;
  max_steps = none;
  max_output_tokens = none;
  max_cost = none;
  tree_max_steps = none;
  tree_max_output_tokens = none;
  tree_max_cost = none;
}

-- `payload.get("runtime_budget", {})`
abbrev pub or_empty : Option Budget → Budget
or_empty none = no_budget
or_empty (some budget) = budget

-- `next((e for e in result if e.type == "child.created"), None)`
unfoldable pub created : List (NewEvent BudgetEvent) → Option Child
created [] = none
created (event ∷ events) =
    let rest = created events in
    elim event.payload [
      | BudgetEvent.child_created parent budget ↦
          some (record { parent_session_id = parent; runtime_budget = or_empty budget })
      | _ ↦ rest
    ]

-- the budget of the first run that is requested, if there is one
unfoldable pub requested : List (NewEvent BudgetEvent) → Option Budget
requested [] = none
requested (event ∷ events) =
    let rest = requested events in
    elim event.payload [ BudgetEvent.run_requested _ budget ↦ some (or_empty budget) | _ ↦ rest ]

-- the parent of the Session, if it was created as a Child
unfoldable pub created_before : (session_id : String) → List Event → Option (Option String)
created_before session_id [] = none
created_before session_id (event ∷ events) =
    let rest = created_before session_id events in
    elim event.payload [
      | BudgetEvent.child_created parent _ ↦
          if event.session_id == session_id then some parent else rest
      | _ ↦ rest
    ]

-- a later run of a Child is governed as its creation
abbrev again : Option (Option String) → Option Budget → Option Child
again (some parent) (some budget) =
    some (record { parent_session_id = parent; runtime_budget = budget })
again _ _ = none

-- `child`
unfoldable pub child_of :
    List Event → List (NewEvent BudgetEvent) → (session_id root_session_id : String) → Option Child
unfolding created requested created_before
child_of existing proposed session_id root_session_id = elim (created proposed) [
  | some child ↦ some child
  | none ↦
      if session_id == root_session_id
      then none
      else again (created_before session_id existing) (requested proposed)
]

-- the run that the Session requested last
unfoldable pub last_run : (session_id : String) → List Event → Option String → Option String
last_run session_id [] last = last
last_run session_id (event ∷ events) last = last_run session_id events (elim event.payload [
  | BudgetEvent.run_requested run_id _ ↦
      if event.session_id == session_id then some run_id else last
  | _ ↦ last
])

-- `str(parent_run)`
abbrev pub text_of : Option String → String
text_of none = "None"
text_of (some run_id) = run_id

abbrev pub or_else {ℓ} : {A : Type ℓ} → Option A → A → A
or_else none default = default
or_else (some x) default = x

-- `b.get("scope_id", k) == scope`
abbrev pub in_scope : String → String × Budget → Bool
in_scope scope (run_id, budget) = or_else budget.scope_id run_id == scope

-- `allocations`
unfoldable pub allocations : String → Dict String Budget → List Budget
unfolding Dict.values
allocations scope budgets = Dict.values (select (in_scope scope) budgets)

-- `sum(int(b.get(key, default)) for b in allocations)`
unfoldable pub allocated : (Budget → Option Amount) → (default : ℕ) → List Budget → Result ℕ
allocated key default [] = ok 0
allocated key default (budget ∷ rest) = do
  amount ← read_int default (key budget)
  more ← allocated key default rest
  ok (amount + more)

-- `isinstance(value, int)`, positive and no `bool`
abbrev pub positive : Option Amount → Result ℕ
positive (some (count n)) = if ltb 0 n then ok n else err Error.collaboration_validation
positive _ = err Error.collaboration_validation

-- the round of the loop for one key
unfoldable pub check_key :
    (key tree_key : Budget → Option Amount) (default tree_default : ℕ)
    → List Budget
    → (root configured : Budget) → Result (Unit {0})
unfolding allocated
check_key key tree_key default tree_default siblings root configured = do
  value ← positive (key configured)
  total ← allocated key default siblings
  limit ← read_int tree_default (tree_key root)
  guard (leb (total + value) limit) Error.collaboration_validation

-- `float(amount)`; a cost that is missing is refused
abbrev pub cost_of : Option Amount → Result ℕ
cost_of none = err Error.collaboration_validation
cost_of (some amount) = read_int 0 (some amount)

-- the checks of a cost, where the tree has a limit
unfoldable pub check_limit : List Budget → (tree : Amount) → Option Amount → Result (Unit {0})
unfolding allocated
check_limit siblings tree cost = do
  amount ← cost_of cost
  guard (ltb 0 amount) Error.collaboration_validation
  guard (all (λ b. is_some b.max_cost) siblings) Error.collaboration_validation
  total ← allocated (λ b. b.max_cost) 0 siblings
  limit ← read_int 0 (some tree)
  guard (leb (total + amount) limit) Error.collaboration_validation

unfoldable pub check_cost : List Budget → (root configured : Budget) → Result (Unit {0})
unfolding check_limit
check_cost siblings root configured = elim root.tree_max_cost [
  | none ↦ ok tt
  | some tree ↦ check_limit siblings tree configured.max_cost
]

-- the Child's budget with its defaults, in the scope, without limits of a tree of its own
abbrev pub configure : String → Budget → Budget
configure scope budget = record budget {
  policy_version = some "2";
  scope_id = some scope;
  max_steps = some (or_else budget.max_steps (count 48));
  max_output_tokens = some (or_else budget.max_output_tokens (count 8192));
  tree_max_steps = none;
  tree_max_output_tokens = none;
  tree_max_cost = none;
}

-- the event with the Child's budget
abbrev pub with_budget : Budget → NewEvent BudgetEvent → NewEvent BudgetEvent
with_budget budget event = record event {
  payload = elim event.payload [
    | BudgetEvent.child_created parent _ ↦ BudgetEvent.child_created parent (some budget)
    | BudgetEvent.run_requested run_id _ ↦ BudgetEvent.run_requested run_id (some budget)
    | payload ↦ payload
  ];
}

-- the checks of a Child's budget `configured` in the tree of `scope`
unfoldable pub check_child :
    Dict String Budget → (scope : String) (root configured : Budget) → Result (Unit {0})
unfolding check_key check_cost allocations
check_child budgets scope root configured = do
  check_key (λ b. b.max_steps) (λ b. b.tree_max_steps) 48 480 (allocations scope budgets) root
      configured
  check_key (λ b. b.max_output_tokens) (λ b. b.tree_max_output_tokens) 8192 81920
      (allocations scope budgets) root configured
  check_cost (allocations scope budgets) root configured

-- the parent's run, its budget, and the scope and the budget of its task tree
abbrev pub parent_key : List Event → (root_session_id : String) → Child → String
parent_key existing root_session_id child =
    text_of (last_run (or_else child.parent_session_id root_session_id) existing none)

abbrev pub inherited : List Event → (root_session_id : String) → Child → Budget
inherited existing root_session_id child =
    or_else (Dict.get (parent_key existing root_session_id child) (run_budgets existing []))
      no_budget

abbrev pub tree_scope : List Event → (root_session_id : String) → Child → String
tree_scope existing root_session_id child =
    or_else (inherited existing root_session_id child).scope_id
      (parent_key existing root_session_id child)

abbrev pub root_budget : List Event → (root_session_id : String) → Child → Budget
root_budget existing root_session_id child =
    or_else (Dict.get (tree_scope existing root_session_id child) (run_budgets existing []))
      (inherited existing root_session_id child)

unfoldable pub admit_child :
    List Event
    → List (NewEvent BudgetEvent)
    → (root_session_id : String) → Child
    → Result (List (NewEvent BudgetEvent))
unfolding check_child last_run run_budgets
admit_child existing proposed root_session_id child =
    let scope = tree_scope existing root_session_id child in
    let configured = configure scope child.runtime_budget in
    if (inherited existing root_session_id child).policy_version == some "2"
    then (check_child (run_budgets existing []) scope (root_budget existing root_session_id child)
          configured
        >> ok (map (with_budget configured) proposed))
    else ok proposed

-- `result` before the reservations are looked at
unfoldable pub allocate :
    List Event
    → List (NewEvent BudgetEvent)
    → (session_id root_session_id : String) → Result (List (NewEvent BudgetEvent))
unfolding child_of admit_child
allocate existing proposed session_id root_session_id =
    elim (child_of existing proposed session_id root_session_id) [
      | none ↦ ok proposed
      | some child ↦ admit_child existing proposed root_session_id child
    ]
