-- ===== src/Collaboration/Replay.antt =====
-- The plan that has been checked and the one that its events rebuild: `stage_new_child` and
-- `validate_dependencies` against `apply` of CollaborationAggregate.
use aura_claw.Prelude.{
  String, ◌≡◌, refl, sym, subst, inl, inr, true, List, arith, Option-cases, option_eq, pair_eq,
  triple_eq, string_eq, nat_eq, ok,
}
use aura_claw.Prelude.Dict
use aura_claw.Prelude.Dict.{
  Dict, get-put, get-remove, get-put_self, get-remove_self, put-put_self, dict_laws,
}
use aura_claw.Contracts.{CanonicalEvent}
use aura_claw.Collaboration.Types.{
  CollaborationLimits, CollaborationRole, ChildSpec, CollaborationNode, CollaborationEvent,
  parse_role, role_value, check_contract,
}
use aura_claw.Collaboration.Graph.Cycles.{Acyclic}
use aura_claw.Collaboration.Nodes.{has, graph_of}
use aura_claw.Collaboration.Dependencies.{validate_dependencies_iff, graph_of-set_node}
use aura_claw.Collaboration.Aggregate.{
  CollaborationAggregate, validate_dependencies, validate_new_child, set_node, stage_new_child,
}
use aura_claw.Collaboration.Events.{apply, require_node, child_created_payload}

parse_role-role_value : (role : CollaborationRole) → parse_role (role_value role) ≡ ok role
unfolding parse_role string_eq
parse_role-role_value CollaborationRole.root = refl
parse_role-role_value CollaborationRole.coordinator = refl
parse_role-role_value CollaborationRole.worker = refl
parse_role-role_value CollaborationRole.reviewer = refl
parse_role-role_value CollaborationRole.repair = refl

-- an event of the aggregate's tenant and root Session
abbrev pub IsOf : CollaborationAggregate → CanonicalEvent CollaborationEvent → Type 0
IsOf a event = (event.tenant_id ≡ a.tenant_id) × (event.root_session_id ≡ a.root_session_id)

-- Where a Child is admitted and its spec's output contract has supported fields only, applying the
-- event child.created that the service writes for the spec gives the aggregate that
-- stage_new_child gives.
pub apply-stage_new_child :
    (a : CollaborationAggregate) (parent : String) (spec : ChildSpec) (limits : CollaborationLimits)
    (event : CanonicalEvent CollaborationEvent)
    → IsOf a event
    → event.payload ≡ CollaborationEvent.child_created (child_created_payload parent spec)
    → check_contract spec.output_contract ≡ ok spec.output_contract
    → validate_new_child a parent event.session_id spec limits ≡ ok tt
    → apply a event ≡ stage_new_child a parent event.session_id spec limits
unfolding apply stage_new_child child_created_payload
apply-stage_new_child a parent spec limits event own written supported admitted =
    rw (written, admitted, parse_role-role_value spec.role, supported, own.0, own.1) refl

-- Where validate_dependencies accepts new dependencies of a known Session, applying their event
-- dependency.changed gives an aggregate in which the Session has these dependencies and no Session
-- waits for itself.
pub apply-validate_dependencies :
    (a : CollaborationAggregate) (ids : List String) (event : CanonicalEvent CollaborationEvent)
    → event.payload ≡ CollaborationEvent.dependency_changed ids
    → has a.nodes event.session_id ≡ true
    → validate_dependencies a event.session_id ids ≡ ok tt
    → (b : CollaborationAggregate) × (apply a event ≡ ok b)
      × (graph_of b.nodes ≡ Dict.put event.session_id ids (graph_of a.nodes))
      × Acyclic (graph_of b.nodes)
unfolding apply
apply-validate_dependencies a ids event written known accepted =
    let (_, _, acyclic) = (validate_dependencies_iff a event.session_id ids).1.0 accepted in
    elim (Option-cases (Dict.get event.session_id a.nodes)) [
      | inl absent ↦ ground arith
      | inr (node, present) ↦
          let node' : CollaborationNode = record node { dependency_ids = ids } in
          let same = graph_of-set_node a event.session_id node' in
          (
            set_node a event.session_id node',
            rw (written, apply, require_node, present) refl,
            same,
            subst Acyclic (sym same) acyclic,
          )
    ]
