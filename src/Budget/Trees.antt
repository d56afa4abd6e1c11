-- ===== src/Budget/Trees.antt =====
-- `govern` of domain/runtime_budget.py keeps the budgets of a task tree within those of its root.
use aura_claw.Prelude.{
  String, ◌≡◌, refl, sym, ap, ◌∙◌, subst, inl, inr, true, Option, none, some, List, [], ◌∷◌, ◌++◌,
  map, if◌then◌else◌, Bool-cases, ◌==◌, option_eq, pair_eq, triple_eq, string_eq, nat_eq, ==_refl,
  Result, ok, ◌>>◌, ok-injective, >>=-eq-ok,
}
use aura_claw.Prelude.Dict
use aura_claw.Prelude.Dict.{
  Dict, get-put, get-remove, get-put_self, get-remove_self, put-put_self, dict_laws,
}
use aura_claw.Contracts.{NewEvent}
use aura_claw.Budget.Types.{Budget, BudgetEvent}
use aura_claw.Budget.Usage.{Event, note_budget, run_budgets}
use aura_claw.Budget.Allocation.{
  Child, allocations, configure, with_budget, check_child, inherited, tree_scope, root_budget,
  admit_child, child_of, allocate,
}
use aura_claw.Budget.Govern.{govern, budget_of, govern_budget}
use aura_claw.Budget.Appends.{govern_run_same}
use aura_claw.Budget.Sums.{TreeWithin, check_child-TreeWithin, allocations-append}

-- the ids of the runs that are requested
abbrev pub requested_run : BudgetEvent → List String
requested_run (BudgetEvent.run_requested run_id _) = run_id ∷ []
requested_run _ = []

abbrev pub runs_of : List (NewEvent BudgetEvent) → List String
runs_of [] = []
runs_of (event ∷ events) = requested_run event.payload ++ runs_of events

-- the stored events have the payloads of the proposed ones
abbrev pub Carries : List (NewEvent BudgetEvent) → List Event → Type 0
Carries [] [] = Unit
Carries (e ∷ es) (s ∷ ss) = (s.payload ≡ e.payload) × Carries es ss
Carries _ _ = ⊥

puts : Budget → List String → Dict String Budget → Dict String Budget
puts budget [] d = d
puts budget (run ∷ runs) d = puts budget runs (Dict.put run budget d)

puts-append :
    (budget : Budget) (xs ys : List String) (d : Dict String Budget)
    → puts budget (xs ++ ys) d ≡ puts budget ys (puts budget xs d)
unfolding puts
puts-append budget [] ys d = refl
puts-append budget (x ∷ xs) ys d = puts-append budget xs ys (Dict.put x budget d)

budgeted : Budget → BudgetEvent → BudgetEvent
budgeted budget payload = elim payload [
  | BudgetEvent.child_created parent _ ↦ BudgetEvent.child_created parent (some budget)
  | BudgetEvent.run_requested run_id _ ↦ BudgetEvent.run_requested run_id (some budget)
  | payload ↦ payload
]

note_budget-budgeted :
    (budget : Budget) (payload : BudgetEvent) (d : Dict String Budget)
    → note_budget (budgeted budget payload) d ≡ puts budget (requested_run payload) d
unfolding note_budget budgeted puts
note_budget-budgeted budget (BudgetEvent.run_requested _ _) d = refl
note_budget-budgeted budget payload d = refl

run_budgets-Carries :
    (budget : Budget) (proposed : List (NewEvent BudgetEvent)) (stored : List Event)
    (d : Dict String Budget)
    → Carries (map (with_budget budget) proposed) stored
    → run_budgets stored d ≡ puts budget (runs_of proposed) d
unfolding run_budgets puts budgeted
run_budgets-Carries budget [] [] d c = refl
run_budgets-Carries budget [] (_ ∷ _) d c = absurd c
run_budgets-Carries budget (_ ∷ _) [] d c = absurd c
run_budgets-Carries budget (e ∷ proposed) (s ∷ stored) d c =
    ap (λ p. run_budgets stored (note_budget p d)) c.0
    ∙ ap (run_budgets stored) (note_budget-budgeted budget e.payload d)
    ∙ run_budgets-Carries budget proposed stored (puts budget (requested_run e.payload) d) c.1
    ∙ sym (puts-append budget (requested_run e.payload) (runs_of proposed) d)

run_budgets-append :
    (xs ys : List Event) (d : Dict String Budget)
    → run_budgets (xs ++ ys) d ≡ run_budgets ys (run_budgets xs d)
unfolding run_budgets
run_budgets-append [] ys d = refl
run_budgets-append (x ∷ xs) ys d = run_budgets-append xs ys (note_budget x.payload d)

admit_child-eq-ok :
    (existing : List Event) (proposed : List (NewEvent BudgetEvent)) (root_session_id : String)
    (child : Child) {result : List (NewEvent BudgetEvent)}
    → admit_child existing proposed root_session_id child ≡ ok result
    → (inherited existing root_session_id child).policy_version ≡ some "2"
    → let scope = tree_scope existing root_session_id child in
      (check_child
          (run_budgets existing [])
          scope
          (root_budget existing root_session_id child)
          (configure scope child.runtime_budget)
        ≡ ok tt)
      × (map (with_budget (configure scope child.runtime_budget)) proposed ≡ result)
unfolding admit_child
admit_child-eq-ok existing proposed root_session_id child {result} h policy =
    let scope = tree_scope existing root_session_id child in
    let configured = configure scope child.runtime_budget in
    let checks =
      check_child (run_budgets existing []) scope (root_budget existing root_session_id child)
        configured in
    let accepted : Result (List (NewEvent BudgetEvent)) =
      checks >> ok (map (with_budget configured) proposed) in
    let test : ((inherited existing root_session_id child).policy_version == some "2") ≡ true =
      ap (λ v. v == some "2") policy ∙ ==_refl {A = Option String} (some "2") in
    let (u, checked, made) =
      >>=-eq-ok checks (λ _. ok (map (with_budget configured) proposed))
        (sym (ap (λ b. if b then accepted else ok proposed) test) ∙ h) in
    (checked, ok-injective made)

put_once :
    (budget : Budget) (run : String) (d : Dict String Budget)
    → puts budget (run ∷ []) d ≡ Dict.put run budget d
unfolding puts
put_once budget run d = refl

allocate-eq :
    (existing : List Event) (proposed : List (NewEvent BudgetEvent))
    (session_id root_session_id : String) {child : Child}
    → child_of existing proposed session_id root_session_id ≡ some child
    → allocate existing proposed session_id root_session_id
      ≡ admit_child existing proposed root_session_id child
unfolding allocate
allocate-eq existing proposed session_id root_session_id created = rw (created, allocate) refl

govern_budget_same :
    (existing : List Event) (run_id : Option String) (budget : Budget)
    (proposed result : List (NewEvent BudgetEvent))
    → govern_budget existing run_id budget proposed ≡ ok result
    → result ≡ proposed
unfolding govern_budget
govern_budget_same existing run_id budget proposed result h =
    elim (Bool-cases (budget.policy_version == some "2")) [
      | inl e ↦ govern_run_same existing run_id budget proposed result (rw (e, govern_budget) at h)
      | inr e ↦ sym (ok-injective (rw (e, govern_budget) at h))
    ]

-- Where govern admits events that create a Child, or that request a run of one, and its parent's run
-- has a budget of policy version 2, the task tree stays within the limits of its root's budget: if
-- the events request one run, which is new, then after they are stored the steps, the output tokens
-- and, where the root's cost is limited, the costs that are allocated to the runs of the tree are
-- together at most those that the root's budget has for the tree.
pub govern-TreeWithin :
    (existing : List Event) (proposed : List (NewEvent BudgetEvent))
    (session_id root_session_id : String) (run_id : Option String) (child : Child) (run : String)
    (stored : List Event) {result : List (NewEvent BudgetEvent)}
    → govern existing proposed session_id root_session_id run_id ≡ ok result
    → child_of existing proposed session_id root_session_id ≡ some child
    → (inherited existing root_session_id child).policy_version ≡ some "2"
    → runs_of proposed ≡ run ∷ []
    → Dict.get run (run_budgets existing []) ≡ none
    → Carries result stored
    → TreeWithin
        (allocations
          (tree_scope existing root_session_id child)
          (run_budgets (existing ++ stored) []))
        (root_budget existing root_session_id child)
unfolding govern
govern-TreeWithin existing proposed session_id root_session_id run_id child run stored {result} h
      created policy one fresh carried =
    let scope = tree_scope existing root_session_id child in
    let configured = configure scope child.runtime_budget in
    let budgets = run_budgets existing [] in
    let (allotted, first, h') =
      >>=-eq-ok (allocate existing proposed session_id root_session_id) _ h in
    let same = govern_budget_same existing run_id (budget_of existing run_id) allotted result h' in
    let (checked, made) =
      admit_child-eq-ok existing proposed root_session_id child
        (sym (allocate-eq existing proposed session_id root_session_id created) ∙ first) policy in
    let carried' : Carries (map (with_budget configured) proposed) stored =
      subst (λ es. Carries es stored) (same ∙ sym made) carried in
    let after : run_budgets (existing ++ stored) [] ≡ budgets ++ (run, configured) ∷ [] =
      run_budgets-append existing stored []
      ∙ run_budgets-Carries configured proposed stored budgets carried'
      ∙ ap (λ runs. puts configured runs budgets) one
      ∙ put_once configured run budgets
      ∙ Dict.put-eq-append run configured budgets fresh in
    subst (λ bs. TreeWithin bs (root_budget existing root_session_id child))
      (sym (ap (allocations scope) after ∙ allocations-append scope run budgets configured refl))
      (check_child-TreeWithin budgets scope (root_budget existing root_session_id child) configured
        checked)
