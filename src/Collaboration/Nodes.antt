-- ===== src/Collaboration/Nodes.antt =====
-- What CollaborationAggregate of domain/collaboration.py reads from its nodes: `depth`,
-- `_dependencies_satisfied`, `runnable` and the measures that a new Child is admitted by; and
-- `_refresh_runnable`, which writes them.
use aura_claw.Prelude.{
  ℕ, zero, suc, ◌+◌, String, Bool, true, false, ◌&&◌, ◌||◌, Option, none, some, List, [], ◌∷◌, ◌++◌,
  if◌then◌else◌, is_some, ◌==◌, option_eq, pair_eq, triple_eq, string_eq, nat_eq, length, all,
  select, count_where, Error, Result, ok, err,
}
use aura_claw.Prelude.Dict
use aura_claw.Prelude.Dict.{
  Dict, get-put, get-remove, get-put_self, get-remove_self, put-put_self, dict_laws,
}
use aura_claw.Collaboration.Types.{
  CollaborationNode, NodeStatus, is_root, blocked, runnable, running, completed, failed, cancelled,
}
use aura_claw.Collaboration.Graph.{Graph}

abbrev pub Nodes : Type 0
Nodes = Dict String CollaborationNode

-- `id in self.nodes`
abbrev pub has : Nodes → String → Bool
has nodes id = is_some (Dict.get id nodes)

abbrev pub is_completed : NodeStatus → Bool
is_completed completed = true
is_completed _ = false

abbrev pub is_runnable : NodeStatus → Bool
is_runnable runnable = true
is_runnable _ = false

-- the statuses that `_refresh_runnable` leaves alone
abbrev pub is_fixed : NodeStatus → Bool
is_fixed running = true
is_fixed completed = true
is_fixed failed = true
is_fixed cancelled = true
is_fixed _ = false

-- the test of one dependency, where it is in the nodes
unfoldable pub completed_if_known : Nodes → String → Bool
completed_if_known nodes id = elim (Dict.get id nodes) [
  | none ↦ true
  | some node ↦ is_completed node.status
]

unfoldable pub dependencies_satisfied : Nodes → CollaborationNode → Bool
unfolding completed_if_known
dependencies_satisfied nodes node =
    all (completed_if_known nodes) node.dependency_ids
    && length node.dependency_ids == count_where (has nodes) node.dependency_ids

-- the node with the status that `_refresh_runnable` gives it
unfoldable pub refreshed : Nodes → CollaborationNode → CollaborationNode
unfolding dependencies_satisfied
refreshed nodes node =
    if is_root node.role || is_fixed node.status
    then node
    else record node { status = if dependencies_satisfied nodes node then runnable else blocked }

-- the loop, with the nodes that it has passed; it reads the dict as it is at that time
unfoldable pub refresh_from : Nodes → Nodes → Nodes
unfolding refreshed
refresh_from passed [] = passed
refresh_from passed ((id, node) ∷ rest) =
    refresh_from (passed ++ (id, refreshed (passed ++ (id, node) ∷ rest) node) ∷ []) rest

unfoldable pub refresh_runnable : Nodes → Nodes
unfolding refresh_from
refresh_runnable nodes = refresh_from [] nodes

-- `runnable()`
unfoldable pub runnable_nodes : Nodes → List CollaborationNode
unfolding Dict.values
runnable_nodes nodes = select (λ node. is_runnable node.status) (Dict.values nodes)

-- `[node for node in self.nodes.values() if node.parent_session_id is not None]`
unfoldable pub children : Nodes → List CollaborationNode
unfolding Dict.values
children nodes = select (λ node. is_some node.parent_session_id) (Dict.values nodes)

-- `Counter(...)[parent_session_id]`
unfoldable pub width : String → List CollaborationNode → ℕ
width parent nodes = count_where (λ node. node.parent_session_id == some parent) nodes

-- `sum(node.budget for node in children)`
unfoldable pub total_budget : List CollaborationNode → ℕ
total_budget [] = 0
total_budget (node ∷ nodes) = node.budget + total_budget nodes

-- The loop of `depth`, on fuel: `endless` means that it ran out.
unfoldable pub depth_from : ℕ → Nodes → (depth : ℕ) → Option String → Result ℕ
depth_from fuel nodes depth none = ok depth
depth_from zero nodes depth (some parent) = err Error.endless
depth_from (suc fuel) nodes depth (some parent) = elim (Dict.get parent nodes) [
  | none ↦ err Error.key_error
  | some node ↦ depth_from fuel nodes (depth + 1) node.parent_session_id
]

-- A chain of parents without a repetition is at most as long as the dict.
unfoldable pub depth : Nodes → String → Result ℕ
unfolding depth_from
depth nodes id = elim (Dict.get id nodes) [
  | none ↦ err Error.key_error
  | some node ↦ depth_from (length nodes) nodes 0 node.parent_session_id
]

-- `{session_id: tuple(node.dependency_ids) for session_id, node in self.nodes.items()}`
unfoldable pub graph_of : Nodes → Graph
graph_of [] = []
graph_of ((id, node) ∷ nodes) = (id, node.dependency_ids) ∷ graph_of nodes
