-- ===== src/Collaboration/Events.antt =====
-- `apply` and `from_events` of CollaborationAggregate in domain/collaboration.py, and the payload of
-- `child.created` that session/collaboration_service.py writes.
use aura_claw.Prelude.{
  ℕ, Option, String, Bool, ◌&&◌, ◌||◌, none, some, List, [], ◌∷◌, ltb, if◌then◌else◌, ◌==◌,
  option_eq, pair_eq, triple_eq, string_eq, nat_eq, select, Error, Result, ok, err, ◌>>=◌,
}
use aura_claw.Prelude.Dict
use aura_claw.Prelude.Dict.{
  Dict, get-put, get-remove, get-put_self, get-remove_self, put-put_self, dict_laws,
}
use aura_claw.Prelude.Sort.{sort}
use aura_claw.Prelude.Text.{text_lt}
use aura_claw.Contracts.{CanonicalEvent, Value}
use aura_claw.Collaboration.Types.{
  CollaborationRole, ChildSpec, CollaborationNode, NodeStatus, ChildCreated, CollaborationEvent,
  default_contract, parse_role, check_contract, role_value,
}
use aura_claw.Collaboration.Nodes.{dependencies_satisfied}
use aura_claw.Collaboration.Aggregate.{CollaborationAggregate, empty_aggregate, set_node}

-- the node of the root Session
abbrev pub root_node : CanonicalEvent CollaborationEvent → (goal : String) → CollaborationNode
root_node event goal = record {
  tenant_id = event.tenant_id;
  session_id = event.session_id;
  root_session_id = event.root_session_id;
  parent_session_id = none;
  role = CollaborationRole.root;
  goal = goal;
  task_key = "root";
  output_contract = default_contract;
  dependency_ids = [];
  input_refs = [];
  tool_permissions = [];
  metadata = [];
  owner = none;
  budget = 0;
  runtime_budget = [];
  status = NodeStatus.pending;
  result = none;
  target_session_id = none;
  run_id = none;
}

-- `payload.get(key, default)`
abbrev pub or_absent : {A : Type 0} → Option A → (default : A) → A
or_absent none default = default
or_absent (some value) default = value

-- 1.0
abbrev pub default_budget : ℕ
default_budget = 1000000

-- the node of a Child
unfoldable pub child_node :
    CanonicalEvent CollaborationEvent → ChildCreated → Result CollaborationNode
child_node event payload = do
  role ← parse_role payload.role
  contract ← check_contract payload.output_contract
  ok (record {
    tenant_id = event.tenant_id;
    session_id = event.session_id;
    root_session_id = event.root_session_id;
    parent_session_id = some payload.parent_session_id;
    role = role;
    goal = payload.goal;
    task_key = payload.task_key;
    output_contract = contract;
    dependency_ids = or_absent payload.dependency_ids [];
    input_refs = or_absent payload.input_refs [];
    tool_permissions = or_absent payload.tool_permissions [];
    metadata = or_absent payload.metadata [];
    owner = none;
    budget = or_absent payload.budget default_budget;
    runtime_budget = or_absent payload.runtime_budget [];
    status = NodeStatus.blocked;
    result = none;
    target_session_id = payload.target_session_id;
    run_id = none;
  })

-- `_node`
unfoldable pub require_node : CollaborationAggregate → String → Result CollaborationNode
require_node a id = elim (Dict.get id a.nodes) [
  | none ↦ err Error.collaboration_validation
  | some node ↦ ok node
]

-- a change of the Session's node, with no refresh
unfoldable pub write_node :
    CollaborationAggregate → String → CollaborationNode → CollaborationAggregate
write_node a id node = record a { nodes = Dict.put id node a.nodes }

-- a change of the node of a Session that is in the nodes
unfoldable pub change_known :
    CollaborationAggregate
    → String
    → (CollaborationNode → CollaborationAggregate)
    → CollaborationAggregate
change_known a id change = elim (Dict.get id a.nodes) [ none ↦ a | some node ↦ change node ]

-- the status of a node that has been given an owner
abbrev pub owned : CollaborationAggregate → CollaborationNode → NodeStatus
owned a node = elim node.status [
  | NodeStatus.blocked ↦
      if dependencies_satisfied a.nodes node then NodeStatus.runnable else NodeStatus.blocked
  | status ↦ status
]

-- the review is written twice: to `reviews`, and as the node's result
unfoldable pub reviewed :
    CollaborationAggregate
    → String
    → CollaborationNode
    → (review : Dict String Value) → CollaborationAggregate
unfolding set_node
reviewed a id node review =
    set_node (record a { reviews = Dict.put id review a.reviews }) id
      (record node { status = NodeStatus.completed; result = some review })

unfoldable pub apply :
    CollaborationAggregate → CanonicalEvent CollaborationEvent → Result CollaborationAggregate
unfolding child_node require_node write_node change_known set_node reviewed
apply a event = elim event.payload [
  | CollaborationEvent.session_created goal ↦ ok (
      if event.session_id == a.root_session_id
      then write_node a event.session_id (root_node event goal)
      else a)
  | CollaborationEvent.child_created payload ↦ (do
    node ← child_node event payload
    ok (set_node a event.session_id node))
  | CollaborationEvent.dependency_changed ids ↦ (do
    node ← require_node a event.session_id
    ok (set_node a event.session_id (record node { dependency_ids = ids })))
  | CollaborationEvent.run_requested run_id ↦ ok (
      change_known a event.session_id
        (λ node. write_node a event.session_id (record node { run_id = some run_id })))
  | CollaborationEvent.child_delegated owner ↦ (do
    node ← require_node a event.session_id
    ok (write_node a event.session_id (record node { owner = some owner; status = owned a node })))
  | CollaborationEvent.session_handed_off owner ↦ (do
    node ← require_node a event.session_id
    ok (write_node a event.session_id (record node { owner = some owner; status = owned a node })))
  | CollaborationEvent.run_started ↦ ok (
      change_known a event.session_id
        (λ node. write_node a event.session_id (record node { status = NodeStatus.running })))
  | CollaborationEvent.child_result_published result ↦ (do
    node ← require_node a event.session_id
    ok (
        set_node a event.session_id
          (record node { result = some result; status = NodeStatus.completed })))
  | CollaborationEvent.review_completed review ↦ (do
    node ← require_node a event.session_id
    ok (
        reviewed a event.session_id node
          (Dict.put "review_session_id" (Value.str event.session_id) review)))
  | CollaborationEvent.join_completed ids ↦ ok (record a { joined_children = ids })
  | CollaborationEvent.run_cancelled ↦ ok (
      change_known a event.session_id
        (λ node. set_node a event.session_id (record node { status = NodeStatus.cancelled })))
  | CollaborationEvent.run_failed ↦ ok (
      change_known a event.session_id
        (λ node. set_node a event.session_id (record node { status = NodeStatus.failed })))
  | CollaborationEvent.other ↦ ok a
]

-- the key of the order in which events are applied
abbrev pub is_before : CanonicalEvent CollaborationEvent → CanonicalEvent CollaborationEvent → Bool
is_before x y =
    ltb x.occurred_at y.occurred_at
    || (x.occurred_at == y.occurred_at
        && (text_lt x.session_id y.session_id
            || (x.session_id == y.session_id && ltb x.aggregate_version y.aggregate_version)))

unfoldable pub apply_all :
    CollaborationAggregate
    → List (CanonicalEvent CollaborationEvent)
    → Result CollaborationAggregate
unfolding apply
apply_all a [] = ok a
apply_all a (event ∷ events) = do a' ← apply a event; apply_all a' events

unfoldable pub from_events :
    (tenant_id root_session_id : String)
    → List (CanonicalEvent CollaborationEvent)
    → Result CollaborationAggregate
unfolding apply_all
from_events tenant_id root_session_id events =
    apply_all (empty_aggregate tenant_id root_session_id) (
      sort is_before (
        select (λ event. event.tenant_id == tenant_id && event.root_session_id == root_session_id)
          events))

-- `_child_created_payload`, as far as the aggregate reads it
unfoldable pub child_created_payload : (parent_session_id : String) → ChildSpec → ChildCreated
child_created_payload parent spec = record {
  task_key = spec.task_key;
  parent_session_id = parent;
  role = role_value spec.role;
  goal = spec.goal;
  input_refs = some spec.input_refs;
  output_contract = spec.output_contract;
  dependency_ids = some spec.dependency_ids;
  tool_permissions = some spec.tool_permissions;
  budget = some spec.budget;
  runtime_budget = some spec.runtime_budget;
  target_session_id = Dict.get "target_session_id" spec.metadata;
  metadata = some spec.metadata;
}
