-- ===== src/Collaboration/Dependencies.antt =====
-- `validate_dependencies` of CollaborationAggregate decides whether the dependencies stay acyclic.
use aura_claw.Prelude.{
  String, ◌≡◌, refl, sym, ap, ◌∙◌, subst, ◌≢◌, ◌↔◌, ◌⊎◌, inl, inr, Bool, true, false, not, List, [],
  ◌∷◌, arith, contains, option_eq, pair_eq, triple_eq, string_eq, nat_eq, all, Error, Result, ok,
  err, ◌>>=◌, ◌>>◌,
}
use aura_claw.Prelude.Dict
use aura_claw.Prelude.Dict.{
  Dict, get-put, get-remove, get-put_self, get-remove_self, put-put_self, dict_laws,
}
use aura_claw.Prelude.{guard, guard-eq-ok, guard-eq}
use aura_claw.Collaboration.Types.{CollaborationNode}
use aura_claw.Collaboration.Graph.{Graph, Visit, exhausted, cyclic, visited, search}
use aura_claw.Collaboration.Graph.Cycles.{Acyclic}
use aura_claw.Collaboration.Graph.Search.{search-iff-Acyclic}
use aura_claw.Collaboration.Nodes.{Nodes, has, refreshed, graph_of}
use aura_claw.Collaboration.Refresh.{refreshed_all, refresh_runnable-eq}
use aura_claw.Collaboration.Aggregate.{
  CollaborationAggregate, acyclic, validate_dependencies, set_node,
}

-- the call answers, or it raises a CollaborationValidationError: it neither raises another exception
-- nor runs for ever
abbrev pub Returns : Result (Unit {0}) → Type 0
Returns call = (call ≡ ok tt) ⊎ (call ≡ err Error.collaboration_validation)

pub guard-Returns :
    (test : Bool) (next : Result (Unit {0}))
    → (test ≡ true → Returns next)
    → Returns (guard test Error.collaboration_validation >> next)
guard-Returns true next h = h refl
guard-Returns false next h = inr refl

pub >>=-Returns :
    {A : Type 0} (call : Result A) (next : A → Result (Unit {0})) {value : A}
    → call ≡ ok value
    → Returns (next value)
    → Returns (call >>= next)
>>=-Returns call next same h = subst (λ c. Returns (c >>= next)) (sym same) h

acyclic_lem :
    (graph : Graph) (answer : Visit)
    → (answer ≢ exhausted)
    → (((ids : List String) × (answer ≡ visited ids)) ↔ Acyclic graph)
    → Returns (acyclic answer) × ((acyclic answer ≡ ok tt) ↔ Acyclic graph)
acyclic_lem graph exhausted ends iff = absurd (ends refl)
acyclic_lem graph cyclic ends iff = (inr refl, (λ e. cc, λ h. let (ids, e) = iff.1 h in cc))
acyclic_lem graph (visited ids) ends iff = (inl refl, (λ e. iff.0 (ids, refl), λ h. refl))

-- validate_dependencies returns, whatever the dependencies are, and raises nothing but a
-- CollaborationValidationError. It accepts the new dependencies of a Session exactly if the Session
-- is not among them, all of them are known, and with them no Session waits for itself, directly or
-- through others.
pub validate_dependencies_iff :
    (a : CollaborationAggregate) (id : String) (ids : List String)
    → Returns (validate_dependencies a id ids)
      × ((validate_dependencies a id ids ≡ ok tt) ↔ (
          (contains ids id ≡ false)
          × (all (has a.nodes) ids ≡ true)
          × Acyclic (Dict.put id ids (graph_of a.nodes))))
unfolding validate_dependencies
validate_dependencies_iff a id ids =
    let graph : Graph = Dict.put id ids (graph_of a.nodes) in
    let (ends, _, found) = search-iff-Acyclic graph in
    let (returns, iff) = acyclic_lem graph (search graph) ends found in
    (
      guard-Returns (not (contains ids id)) _
          (λ _. guard-Returns (all (has a.nodes) ids) _ (λ _. returns)),
      (
        λ h.
            let (own, h') =
              guard-eq-ok (not (contains ids id)) Error.collaboration_validation _ h in
            let (known, h'') =
              guard-eq-ok (all (has a.nodes) ids) Error.collaboration_validation _ h' in
            (ground arith, known, iff.0 h''),
        λ (own, known, h).
            guard-eq (not (contains ids id)) Error.collaboration_validation _ (ground arith)
            ∙ guard-eq (all (has a.nodes) ids) Error.collaboration_validation _ known
            ∙ iff.1 h,
      ),
    )

graph_of-refreshed_all : (old nodes : Nodes) → graph_of (refreshed_all old nodes) ≡ graph_of nodes
unfolding graph_of refreshed_all refreshed
graph_of-refreshed_all old [] = refl
graph_of-refreshed_all old ((id, node) ∷ nodes) = ground (arith, graph_of-refreshed_all old nodes)

graph_of-put :
    (id : String) (node : CollaborationNode) (nodes : Nodes)
    → graph_of (Dict.put id node nodes) ≡ Dict.put id node.dependency_ids (graph_of nodes)
unfolding graph_of Dict.put
graph_of-put id node [] = refl
graph_of-put id node ((j, other) ∷ nodes) = ground (arith, graph_of-put id node nodes)

pub graph_of-set_node :
    (a : CollaborationAggregate) (id : String) (node : CollaborationNode)
    → graph_of (set_node a id node).nodes ≡ Dict.put id node.dependency_ids (graph_of a.nodes)
unfolding set_node
graph_of-set_node a id node =
    ap graph_of (refresh_runnable-eq (Dict.put id node a.nodes))
    ∙ graph_of-refreshed_all _ (Dict.put id node a.nodes)
    ∙ graph_of-put id node a.nodes
