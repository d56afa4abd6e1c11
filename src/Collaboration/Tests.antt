-- ===== src/Collaboration/Tests.antt =====
-- A root Session with two Children, of which one waits for the other.
use aura_claw.Prelude.{
  String, ◌≡◌, refl, sym, ap, ◌∙◌, ◌↔◌, ◌⊎◌, true, false, none, some, List, [], ◌∷◌, ◌++◌, arith,
  contains, option_eq, pair_eq, triple_eq, string_eq, nat_eq, ==→eq, all, Error, ok, err,
}
use aura_claw.Prelude.Dict
use aura_claw.Prelude.Dict.{
  Dict, get-put, get-remove, get-put_self, get-remove_self, put-put_self, dict_laws,
}
use aura_claw.Contracts.{CanonicalEvent, Visibility}
use aura_claw.Collaboration.Types.{
  CollaborationLimits, CollaborationRole, ChildSpec, CollaborationNode, CollaborationEvent,
  NodeStatus, default_contract, check_contract,
}
use aura_claw.Collaboration.Graph.{search, dependencies}
use aura_claw.Collaboration.Graph.Cycles.{Acyclic}
use aura_claw.Collaboration.Graph.Search.{search-iff-Acyclic}
use aura_claw.Collaboration.Nodes.{
  Nodes, has, graph_of, depth, children, width, total_budget, refresh_runnable,
}
use aura_claw.Collaboration.Refresh.{Ready, refresh_runnable-iff-Ready}
use aura_claw.Collaboration.Aggregate.{
  CollaborationAggregate, empty_aggregate, validate_dependencies, validate_new_child,
  stage_new_child, staged,
}
use aura_claw.Collaboration.Events.{root_node, apply, child_created_payload}
use aura_claw.Collaboration.Dependencies.{Returns, validate_dependencies_iff}
use aura_claw.Collaboration.Admitted.{WithinLimits}
use aura_claw.Collaboration.Admission.{stage_new_child-WithinLimits}
use aura_claw.Collaboration.Replay.{apply-stage_new_child}

abbrev event : String → CollaborationEvent → CanonicalEvent CollaborationEvent
event session_id payload = record {
  event_id = "evt_1";
  tenant_id = "t";
  root_session_id = "r";
  session_id = session_id;
  run_id = none;
  aggregate_version = 1;
  type = "child.created";
  occurred_at = 1;
  actor = record { kind = "coordinator"; id = "c" };
  correlation_id = "c";
  causation_id = "c";
  visibility = Visibility.internal;
  schema_version = 1;
  payload = payload;
}

abbrev limits : CollaborationLimits
limits = record { max_depth = 4; max_children_per_parent = 8; max_children = 32; max_budget = 100 }

abbrev spec : String → List String → ChildSpec
spec key ids = record {
  task_key = key;
  role = CollaborationRole.worker;
  goal = "work";
  output_contract = default_contract;
  dependency_ids = ids;
  input_refs = [];
  tool_permissions = [];
  budget = 1;
  runtime_budget = [];
  metadata = [];
}

abbrev planned : CollaborationAggregate
planned = record (empty_aggregate "t" "r") {
  nodes = ("r", root_node (event "r" CollaborationEvent.other) "goal") ∷ [];
}

abbrev one : CollaborationAggregate
one = record planned {
  nodes =
      ("r", root_node (event "r" CollaborationEvent.other) "goal")
      ∷ ("a", record (staged planned "r" "a" (spec "first" [])) { status = NodeStatus.runnable })
      ∷ [];
}

stages : stage_new_child planned "r" "a" (spec "first" []) limits ≡ ok one
unfolding stage_new_child Dict.get Dict.put Dict.values Dict.keys string_eq children width
    total_budget depth graph_of validate_dependencies search dependencies nat_eq
stages = refl

admits : validate_new_child one "r" "b" (spec "second" ("a" ∷ [])) limits ≡ ok tt
unfolding validate_new_child Dict.get Dict.put Dict.values Dict.keys string_eq option_eq nat_eq
    children width total_budget depth graph_of validate_dependencies search dependencies
admits = refl

refuses : validate_dependencies one "a" ("r" ∷ "x" ∷ []) ≡ err Error.collaboration_validation
unfolding validate_dependencies Dict.get string_eq
refuses = refl

validate_dependencies_iff_example :
    Returns (validate_dependencies one "b" ("a" ∷ []))
    × ((validate_dependencies one "b" ("a" ∷ []) ≡ ok tt) ↔ (
        (contains {A = String} ("a" ∷ []) "b" ≡ false)
        × (all (has one.nodes) ("a" ∷ []) ≡ true)
        × Acyclic (Dict.put "b" ("a" ∷ []) (graph_of one.nodes))))
validate_dependencies_iff_example = validate_dependencies_iff one "b" ("a" ∷ [])

abbrev waiting : CollaborationNode
waiting = staged one "r" "b" (spec "second" ("a" ∷ []))

abbrev two : Nodes
two = one.nodes ++ ("b", waiting) ∷ []

b_waits : Dict.get "b" two ≡ some waiting
unfolding Dict.get string_eq
b_waits = refl

refresh_runnable-iff-Ready_example :
    (status : NodeStatus) × (Dict.get "b" (refresh_runnable two)
      ≡ some (record waiting { status = status }))
    × ((status ≡ NodeStatus.runnable) ↔ Ready two ("a" ∷ []))
    × ((status ≡ NodeStatus.blocked) ↔ (¬ Ready two ("a" ∷ [])))
refresh_runnable-iff-Ready_example = refresh_runnable-iff-Ready two "b" waiting b_waits refl refl

planned_acyclic : Acyclic (graph_of planned.nodes)
unfolding search Dict.get Dict.keys string_eq dependencies graph_of
planned_acyclic = (search-iff-Acyclic (graph_of planned.nodes)).2.0 ("r" ∷ [], refl)

only_root : (id : String) → has planned.nodes id ≡ true → id ≡ "r"
unfolding Dict.get
only_root id h = ==→eq id "r" (ground arith)

planned_depth : (id : String) → id ≡ "r" → depth planned.nodes id ≡ ok 0
unfolding depth Dict.get string_eq
planned_depth id e = ap (depth planned.nodes) e

planned-WithinLimits : WithinLimits limits planned
unfolding children width total_budget Dict.values
planned-WithinLimits = record {
  few = omega arith;
  narrow = λ parent. omega arith;
  affordable = omega arith;
  shallow = λ id h. (0, planned_depth id (only_root id h), omega arith);
  apart = λ i j p q same. only_root i (ground arith) ∙ sym (only_root j (ground arith));
  acyclic = planned_acyclic;
}

stage_new_child-WithinLimits_example :
    ((b : CollaborationAggregate) × (stage_new_child planned "r" "a" (spec "first" []) limits
        ≡ ok b)
      × WithinLimits limits b)
    ⊎ (stage_new_child planned "r" "a" (spec "first" []) limits
        ≡ err Error.collaboration_validation)
stage_new_child-WithinLimits_example =
    stage_new_child-WithinLimits limits planned "r" "a" (spec "first" []) planned-WithinLimits

abbrev created : CanonicalEvent CollaborationEvent
created =
    event "b"
      (CollaborationEvent.child_created (child_created_payload "r" (spec "second" ("a" ∷ []))))

supported : check_contract default_contract ≡ ok default_contract
unfolding check_contract string_eq
supported = refl

apply-stage_new_child_example :
    apply one created ≡ stage_new_child one "r" "b" (spec "second" ("a" ∷ [])) limits
apply-stage_new_child_example =
    apply-stage_new_child one "r" (spec "second" ("a" ∷ [])) limits created (refl, refl) refl
      supported admits
