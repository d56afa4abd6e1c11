-- ===== src/Budget/Tests.antt =====
-- A root run with a budget, a reservation for it, and a Child that takes a part of the tree's.
use aura_claw.Prelude.{
  String, ◌≡◌, refl, ap, ◌∙◌, false, Option, none, some, List, [], ◌∷◌, ◌++◌, option_eq, pair_eq,
  triple_eq, string_eq, nat_eq, All, Error, ok, err,
}
use aura_claw.Prelude.Dict
use aura_claw.Prelude.Dict.{
  Dict, get-put, get-remove, get-put_self, get-remove_self, put-put_self, dict_laws,
}
use aura_claw.Contracts.{NewEvent, Visibility}
use aura_claw.Budget.Types.{Budget, BudgetEvent, Reservation, count, reservation_eq}
use aura_claw.Budget.Usage.{Event, Usage, usage, counted, run_budgets}
use aura_claw.Budget.Allocation.{
  Child, no_budget, child_of, inherited, tree_scope, root_budget, allocations, configure, last_run,
}
use aura_claw.Budget.Govern.{budget_of, govern}
use aura_claw.Budget.Charges.{is_turn}
use aura_claw.Budget.Reservations.{KeepsLimits}
use aura_claw.Budget.Appends.{governs, append-KeepsLimits}
use aura_claw.Budget.Sums.{TreeWithin}
use aura_claw.Budget.Trees.{govern-TreeWithin}
use aura_claw.Events.Store.{
  CommandContext, CommandResult, AppendResult, EventStore, root_events, append, canonical,
}

abbrev event : String → Option String → BudgetEvent → Event
event session_id run_id payload = record {
  event_id = "evt_1";
  tenant_id = "t";
  root_session_id = "s";
  session_id = session_id;
  run_id = run_id;
  aggregate_version = 1;
  type = "event";
  occurred_at = 1;
  actor = record { kind = "user"; id = "ann" };
  correlation_id = "c";
  causation_id = "cmd_1";
  visibility = Visibility.internal;
  schema_version = 1;
  payload = payload;
}

abbrev proposed : BudgetEvent → NewEvent BudgetEvent
proposed payload = record { type = "event"; payload = payload; visibility = Visibility.internal }

abbrev ruled : Budget
ruled = record no_budget {
  policy_version = some "2";
  max_steps = some (count 10);
  max_output_tokens = some (count 100);
}

abbrev past : List Event
past = event "s" none (BudgetEvent.run_requested "run_1" (some ruled)) ∷ []

abbrev reservation : Reservation
reservation = record {
  reservation_id = "m1";
  kind = "model";
  output_tokens = some (count 60);
  further = "";
}

abbrev reserving : List (NewEvent BudgetEvent)
reserving = proposed (BudgetEvent.budget_reserved reservation) ∷ []

abbrev reserved : List Event
reserved = event "s" (some "run_1") (BudgetEvent.budget_reserved reservation) ∷ []

accepts : govern past reserving "s" "s" (some "run_1") ≡ ok reserving
unfolding govern Dict.get Dict.put string_eq option_eq nat_eq counted
accepts = refl

-- A second reservation of as many tokens is too much.
refuses :
    govern
      (past ++ reserved)
      (proposed (BudgetEvent.budget_reserved (record reservation { reservation_id = "m2" })) ∷ [])
      "s"
      "s"
      (some "run_1")
    ≡ err Error.output_token_budget
unfolding govern Dict.get Dict.put string_eq option_eq nat_eq counted
refuses = refl

abbrev nothing_used : Usage
nothing_used = record {
  steps_used = 0;
  model_turns = 0;
  tool_attempts = 0;
  output_tokens = 0;
  output_tokens_reserved = 0;
  tool_dispatches = 0;
  cost = none;
  suppressed_attempts = 0;
}

unused : usage past "run_1" ≡ ok nothing_used
unfolding usage Dict.get counted string_eq option_eq
unused = refl

has_rules : (budget_of past (some "run_1")).policy_version ≡ some "2"
unfolding run_budgets Dict.get Dict.put string_eq
has_rules = refl

abbrev context : CommandContext
context = record {
  command_id = "cmd_1";
  tenant_id = "t";
  actor = record { kind = "user"; id = "ann" };
  correlation_id = "c";
  expected_version = 1;
  operation = "append";
  causation_id = none;
  dept_id = none;
}

abbrev kept : EventStore BudgetEvent
kept = record { streams = (("t", "s"), past) ∷ []; commands = []; outbox = [] }

abbrev command : CommandResult
command = record { request_fingerprint = some "f"; body = [] }

abbrev answer : AppendResult BudgetEvent
answer = record {
  events =
      canonical (governs "s" "s" (some "run_1")) (λ i. "1") (λ i. i) "s" "s" (some "run_1") context
        1 reserving;
  command_result = command;
  deduplicated = false;
}

answers :
    (append
      (governs "s" "s" (some "run_1"))
      (λ i. "1")
      (λ i. i)
      "s"
      "s"
      (some "run_1")
      context
      reserving
      command
      kept).1
    ≡ ok answer
unfolding append govern Dict.get Dict.put string_eq option_eq nat_eq pair_eq triple_eq counted
answers = refl

its_past : root_events "t" "s" kept.streams ≡ past
unfolding root_events string_eq
its_past = refl

quiet : All (λ (e : Event). is_turn e.payload ≡ false) answer.events
unfolding canonical
quiet = (refl, tt)

append-KeepsLimits_example :
    (after : Usage) × (usage (root_events "t" "s" kept.streams ++ answer.events) "run_1" ≡ ok after)
    × KeepsLimits (budget_of (root_events "t" "s" kept.streams) (some "run_1")) nothing_used after
append-KeepsLimits_example =
    append-KeepsLimits (λ i. "1") (λ i. i) "s" "s" "run_1" context reserving command kept answers
      refl (ap (λ es. (budget_of es (some "run_1")).policy_version) its_past ∙ has_rules) quiet
      (ap (λ es. usage es "run_1") its_past ∙ unused)

abbrev asked : Budget
asked = record no_budget { max_steps = some (count 5) }

abbrev creating : List (NewEvent BudgetEvent)
creating =
    proposed (BudgetEvent.child_created (some "s") (some asked))
    ∷ proposed (BudgetEvent.run_requested "run_2" none)
    ∷ []

abbrev child : Child
child = record { parent_session_id = some "s"; runtime_budget = asked }

abbrev its_budget : Budget
its_budget = configure "run_1" asked

abbrev result : List (NewEvent BudgetEvent)
result =
    proposed (BudgetEvent.child_created (some "s") (some its_budget))
    ∷ proposed (BudgetEvent.run_requested "run_2" (some its_budget))
    ∷ []

admits : govern past creating "b" "s" none ≡ ok result
unfolding govern Dict.get Dict.put string_eq option_eq nat_eq
admits = refl

its_child : child_of past creating "b" "s" ≡ some child
unfolding child_of
its_child = refl

its_parent : (inherited past "s" child).policy_version ≡ some "2"
unfolding last_run run_budgets Dict.get Dict.put string_eq
its_parent = refl

is_new : Dict.get "run_2" (run_budgets past []) ≡ none
unfolding run_budgets Dict.get Dict.put string_eq
is_new = refl

abbrev created : List Event
created =
    event "b" none (BudgetEvent.child_created (some "s") (some its_budget))
    ∷ event "b" none (BudgetEvent.run_requested "run_2" (some its_budget))
    ∷ []

govern-TreeWithin_example :
    TreeWithin
      (allocations (tree_scope past "s" child) (run_budgets (past ++ created) []))
      (root_budget past "s" child)
govern-TreeWithin_example =
    govern-TreeWithin past creating "b" "s" none child "run_2" created admits its_child its_parent
      refl is_new (refl, (refl, tt))
