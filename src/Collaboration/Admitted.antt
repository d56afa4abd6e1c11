-- ===== src/Collaboration/Admitted.antt =====
-- What the checks of `validate_new_child` find, and that they end.
use aura_claw.Prelude.{
  ℕ, ◌+◌, ◌≤◌, ◌<◌, String, ◌≡◌, refl, true, false, not, Option, none, some, [], ◌∷◌, arith, ltb,
  leb, leb→le, ltb→lt, is_some, ◌==◌, option_eq, pair_eq, triple_eq, string_eq, nat_eq, length, any,
  Error, ok, >>=-eq-ok,
}
use aura_claw.Prelude.Dict
use aura_claw.Prelude.Dict.{
  Dict, get-put, get-remove, get-put_self, get-remove_self, put-put_self, dict_laws,
}
use aura_claw.Prelude.{guard-eq-ok}
use aura_claw.Collaboration.Types.{CollaborationLimits, ChildSpec, CollaborationNode}
use aura_claw.Collaboration.Graph.Cycles.{Acyclic}
use aura_claw.Collaboration.Nodes.{Nodes, has, children, width, total_budget, depth, graph_of}
use aura_claw.Collaboration.Dependencies.{
  Returns, guard-Returns, >>=-Returns, validate_dependencies_iff,
}
use aura_claw.Collaboration.Aggregate.{CollaborationAggregate, validate_new_child}

-- The task tree is within its limits: `depth` returns at every node.
pub record WithinLimits (limits : CollaborationLimits) (a : CollaborationAggregate) : Type 0 where
  pub few : length (children a.nodes) ≤ limits.max_children
  pub narrow : (parent : String) → width parent (children a.nodes) ≤ limits.max_children_per_parent
  pub affordable : total_budget (children a.nodes) ≤ limits.max_budget
  pub shallow :
      (id : String)
      → has a.nodes id ≡ true
      → (d : ℕ) × (depth a.nodes id ≡ ok d) × (d ≤ limits.max_depth)
  pub apart :
      (i j : String) {x y : CollaborationNode}
      → Dict.get i a.nodes ≡ some x
      → Dict.get j a.nodes ≡ some y
      → x.task_key ≡ y.task_key
      → i ≡ j
  pub acyclic : Acyclic (graph_of a.nodes)

pub is_some-false : {A : Type 0} (o : Option A) → is_some o ≡ false → o ≡ none
is_some-false none h = refl
is_some-false (some x) h = cc

pub is_some-true : {A : Type 0} (o : Option A) → is_some o ≡ true → (x : A) × (o ≡ some x)
is_some-true none h = cc
is_some-true (some x) h = (x, refl)

pub any-false :
    (nodes : Nodes) (key id : String) {y : CollaborationNode}
    → any (λ node. node.task_key == key) (Dict.values nodes) ≡ false
    → Dict.get id nodes ≡ some y
    → (y.task_key == key) ≡ false
unfolding Dict.values Dict.get
any-false [] key id h present = cc
any-false ((j, other) ∷ nodes) key id {y} h present = ground (arith, any-false nodes key id {y = y})

pub width_one : (parent p : String) (node : CollaborationNode) → width p (node ∷ []) ≤ 1
unfolding width
width_one parent p node = ground arith

pub width_other :
    (parent p : String) (node : CollaborationNode)
    → node.parent_session_id ≡ some parent
    → (parent == p) ≡ false
    → width p (node ∷ []) ≡ 0
unfolding width option_eq
width_other parent p node same e = ground arith

-- what the checks of `validate_new_child` have found
pub record Admitted (limits : CollaborationLimits) (a : CollaborationAggregate)
    (parent child : String) (spec : ChildSpec) : Type 0 where
  pub known : has a.nodes parent ≡ true
  pub new : has a.nodes child ≡ false
  pub fresh : any (λ node. node.task_key == spec.task_key) (Dict.values a.nodes) ≡ false
  pub few : length (children a.nodes) < limits.max_children
  pub narrow : width parent (children a.nodes) < limits.max_children_per_parent
  pub level : ℕ
  pub at : depth a.nodes parent ≡ ok level
  pub shallow : level + 1 ≤ limits.max_depth
  pub affordable : total_budget (children a.nodes) + spec.budget ≤ limits.max_budget
  pub acyclic : Acyclic (Dict.put child spec.dependency_ids (graph_of a.nodes))

module _ (limits : CollaborationLimits) (a : CollaborationAggregate) (parent child : String)
    (spec : ChildSpec) where
  pub Admitted-of :
      validate_new_child a parent child spec limits ≡ ok tt → Admitted limits a parent child spec
  unfolding validate_new_child
  Admitted-of h0 =
      let (_, h1) =
        guard-eq-ok (has a.nodes a.root_session_id) Error.collaboration_validation _ h0 in
      let (known, h2) = guard-eq-ok (has a.nodes parent) Error.collaboration_validation _ h1 in
      let (new, h3) = guard-eq-ok (not (has a.nodes child)) Error.collaboration_validation _ h2 in
      let (fresh, h4) =
        guard-eq-ok (not (any (λ node. node.task_key == spec.task_key) (Dict.values a.nodes)))
          Error.collaboration_validation _ h3 in
      let (few, h5) =
        guard-eq-ok (ltb (length (children a.nodes)) limits.max_children)
          Error.collaboration_validation _ h4 in
      let (narrow, h6) =
        guard-eq-ok (ltb (width parent (children a.nodes)) limits.max_children_per_parent)
          Error.collaboration_validation _ h5 in
      let (level, at, h7) = >>=-eq-ok (depth a.nodes parent) _ h6 in
      let (shallow, h8) =
        guard-eq-ok (leb (level + 1) limits.max_depth) Error.collaboration_validation _ h7 in
      let (affordable, h9) =
        guard-eq-ok (leb (total_budget (children a.nodes) + spec.budget) limits.max_budget)
          Error.collaboration_validation _ h8 in
      let (_, _, acyclic) = (validate_dependencies_iff a child spec.dependency_ids).1.0 h9 in
      record {
        known = known;
        new = ground arith;
        fresh = ground arith;
        few = ltb→lt _ _ few;
        narrow = ltb→lt _ _ narrow;
        level = level;
        at = at;
        shallow = leb→le _ _ shallow;
        affordable = leb→le _ _ affordable;
        acyclic = acyclic;
      }

  -- In a task tree that is within its limits, stage_new_child returns for every Child, and raises
  -- nothing but a CollaborationValidationError.
  pub validate_new_child-Returns :
      WithinLimits limits a → Returns (validate_new_child a parent child spec limits)
  unfolding validate_new_child
  validate_new_child-Returns h = guard-Returns (has a.nodes a.root_session_id) _ (λ _.
      guard-Returns (has a.nodes parent) _ (λ known.
        let (level, at, _) = h.shallow parent known in
        guard-Returns (not (has a.nodes child)) _ (λ _.
          guard-Returns (not (any (λ node. node.task_key == spec.task_key) (Dict.values a.nodes))) _
            (λ _. guard-Returns (ltb (length (children a.nodes)) limits.max_children) _ (λ _.
              guard-Returns (ltb (width parent (children a.nodes)) limits.max_children_per_parent) _
                (λ _. >>=-Returns (depth a.nodes parent) _ at (
                  guard-Returns (leb (level + 1) limits.max_depth) _ (λ _.
                    guard-Returns
                      (leb (total_budget (children a.nodes) + spec.budget) limits.max_budget) _
                      (λ _. (validate_dependencies_iff a child spec.dependency_ids).0)))))))))
