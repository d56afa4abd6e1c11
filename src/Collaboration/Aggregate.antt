-- ===== src/Collaboration/Aggregate.antt =====
-- CollaborationAggregate of domain/collaboration.py: its state, the validation and staging of a new
-- Child, `require_joinable`, and the rebuilding from events.
use aura_claw.Prelude.{
  ◌+◌, String, Bool, false, not, ◌&&◌, ◌||◌, Option, none, some, List, [], ◌∷◌, ltb, leb, is_some,
  ◌==◌, contains, option_eq, pair_eq, triple_eq, string_eq, nat_eq, length, any, all, Error, Result,
  ok, err, ◌>>=◌, ◌>>◌,
}
use aura_claw.Prelude.Dict
use aura_claw.Prelude.Dict.{
  Dict, get-put, get-remove, get-put_self, get-remove_self, put-put_self, dict_laws,
}
use aura_claw.Prelude.{guard}
use aura_claw.Contracts.{Value}
use aura_claw.Collaboration.Types.{
  CollaborationLimits, ChildSpec, CollaborationNode, NodeStatus, is_reviewer,
}
use aura_claw.Collaboration.Graph.{Visit, search}
use aura_claw.Collaboration.Nodes.{
  Nodes, has, is_completed, refresh_runnable, children, width, total_budget, depth, graph_of,
}

pub record CollaborationAggregate : Type 0 where
  pub tenant_id : String
  pub root_session_id : String
  pub nodes : Nodes
  pub reviews : Dict String (Dict String Value)
  pub joined_children : List String

abbrev pub empty_aggregate : String → String → CollaborationAggregate
empty_aggregate tenant_id root_session_id = record {
  tenant_id = tenant_id;
  root_session_id = root_session_id;
  nodes = [];
  reviews = [];
  joined_children = [];
}

-- the call of the search
abbrev pub acyclic : Visit → Result (Unit {0})
acyclic Visit.exhausted = err Error.endless
acyclic Visit.cyclic = err Error.collaboration_validation
acyclic (Visit.visited _) = ok tt

unfoldable pub validate_dependencies :
    CollaborationAggregate → (child_session_id : String) → List String → Result (Unit {0})
unfolding search
validate_dependencies a id ids = do
  guard (not (contains ids id)) Error.collaboration_validation
  guard (all (has a.nodes) ids) Error.collaboration_validation
  acyclic (search (Dict.put id ids (graph_of a.nodes)))

unfoldable pub validate_new_child :
    CollaborationAggregate
    → (parent_session_id child_session_id : String) → ChildSpec
    → CollaborationLimits
    → Result (Unit {0})
unfolding validate_dependencies
validate_new_child a parent child spec limits = do
  guard (has a.nodes a.root_session_id) Error.collaboration_validation
  guard (has a.nodes parent) Error.collaboration_validation
  guard (not (has a.nodes child)) Error.collaboration_validation
  guard (not (any (λ node. node.task_key == spec.task_key) (Dict.values a.nodes)))
      Error.collaboration_validation
  guard (ltb (length (children a.nodes)) limits.max_children) Error.collaboration_validation
  guard (ltb (width parent (children a.nodes)) limits.max_children_per_parent)
      Error.collaboration_validation
  level ← depth a.nodes parent
  guard (leb (level + 1) limits.max_depth) Error.collaboration_validation
  guard (leb (total_budget (children a.nodes) + spec.budget) limits.max_budget)
      Error.collaboration_validation
  validate_dependencies a child spec.dependency_ids

-- the node that `stage_new_child` makes
abbrev pub staged :
    CollaborationAggregate
    → (parent_session_id child_session_id : String) → ChildSpec
    → CollaborationNode
staged a parent child spec = record {
  tenant_id = a.tenant_id;
  session_id = child;
  root_session_id = a.root_session_id;
  parent_session_id = some parent;
  role = spec.role;
  goal = spec.goal;
  task_key = spec.task_key;
  output_contract = spec.output_contract;
  dependency_ids = spec.dependency_ids;
  input_refs = spec.input_refs;
  tool_permissions = spec.tool_permissions;
  metadata = spec.metadata;
  owner = none;
  budget = spec.budget;
  runtime_budget = spec.runtime_budget;
  status = NodeStatus.blocked;
  result = none;
  target_session_id = Dict.get "target_session_id" spec.metadata;
  run_id = none;
}

-- `self.nodes[session_id] = node; self._refresh_runnable()`
unfoldable pub set_node :
    CollaborationAggregate → String → CollaborationNode → CollaborationAggregate
unfolding refresh_runnable
set_node a id node = record a { nodes = refresh_runnable (Dict.put id node a.nodes) }

-- The staged node is the one that the answer holds under the Child's id.
unfoldable pub stage_new_child :
    CollaborationAggregate
    → (parent_session_id child_session_id : String) → ChildSpec
    → CollaborationLimits
    → Result CollaborationAggregate
unfolding validate_new_child set_node
stage_new_child a parent child spec limits = do
  validate_new_child a parent child spec limits
  ok (set_node a child (staged a parent child spec))

-- `decision == ReviewDecision.ACCEPTED.value`
abbrev pub is_accepted : Option Value → Bool
is_accepted (some (Value.str decision)) = decision == "accepted"
is_accepted _ = false

-- the checks of one Session of a join
unfoldable pub check_joinable :
    CollaborationAggregate → Option CollaborationNode → Result (Unit {0})
check_joinable a none = err Error.collaboration_validation
check_joinable a (some node) = do
  guard (node.root_session_id == a.root_session_id) Error.collaboration_validation
  guard (is_completed node.status && is_some node.result) Error.collaboration_validation
  guard
      (not (is_reviewer node.role)
        || is_accepted (elim node.result [ none ↦ none | some r ↦ Dict.get "decision" r ]))
      Error.collaboration_validation

joinable_each : CollaborationAggregate → List String → Result (Unit {0})
unfolding check_joinable
joinable_each a [] = ok tt
joinable_each a (id ∷ ids) = check_joinable a (Dict.get id a.nodes) >> joinable_each a ids

unfoldable pub require_joinable : CollaborationAggregate → List String → Result (Unit {0})
unfolding joinable_each
require_joinable a [] = err Error.collaboration_validation
require_joinable a (id ∷ ids) = joinable_each a (id ∷ ids)
