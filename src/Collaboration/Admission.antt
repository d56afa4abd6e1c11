-- ===== src/Collaboration/Admission.antt =====
-- `stage_new_child` of CollaborationAggregate keeps the limits of the task tree.
use aura_claw.Prelude.{
  ℕ, ◌+◌, ◌≤◌, String, ◌≡◌, refl, sym, ap, ◌∙◌, subst, ◌≢◌, ◌⊎◌, inl, inr, none, some, arith,
  Bool-cases, ◌==◌, option_eq, pair_eq, triple_eq, string_eq, nat_eq, ==_refl, ==→eq, length, Error,
  ok, err, ◌>>◌,
}
use aura_claw.Prelude.Dict
use aura_claw.Prelude.Dict.{
  Dict, get-put, get-remove, get-put_self, get-remove_self, put-put_self, dict_laws,
}
use aura_claw.Collaboration.Types.{CollaborationLimits, ChildSpec, CollaborationNode}
use aura_claw.Collaboration.Graph.Cycles.{Acyclic}
use aura_claw.Collaboration.Nodes.{children, width, depth}
use aura_claw.Collaboration.Measures.{children-put, Keeps, Keeps-put, length-put, after_cases}
use aura_claw.Collaboration.Depth.{depth-Keeps, depth_child}
use aura_claw.Collaboration.Dependencies.{graph_of-set_node}
use aura_claw.Collaboration.Aggregate.{CollaborationAggregate, staged, set_node, stage_new_child}
use aura_claw.Collaboration.Admitted.{
  WithinLimits, Admitted, Admitted-of, validate_new_child-Returns, is_some-false, is_some-true,
  any-false, width_one, width_other,
}

module _ (limits : CollaborationLimits) (a : CollaborationAggregate) (parent child : String)
    (spec : ChildSpec) where
  -- a Child's node is new, and its task key too
  module _ (admitted : Admitted limits a parent child spec) where
    node : CollaborationNode
    node = staged a parent child spec

    after : CollaborationAggregate
    after = set_node a child node

    absent : Dict.get child a.nodes ≡ none
    absent = is_some-false (Dict.get child a.nodes) admitted.new

    kept : Keeps a.nodes after.nodes
    unfolding after set_node
    kept = Keeps-put child node a.nodes absent

    size : length after.nodes ≡ length a.nodes + 1
    unfolding after set_node
    size = length-put child node a.nodes absent

    from_old :
        (i : String) {x : CollaborationNode}
        → Dict.get i after.nodes ≡ some x
        → (y : CollaborationNode) × (((i ≡ child) × (y ≡ node)) ⊎ (Dict.get i a.nodes ≡ some y))
          × (x.parent_session_id ≡ y.parent_session_id)
          × (x.task_key ≡ y.task_key)
    unfolding after set_node
    from_old i found = after_cases child node a.nodes i found

    after-shallow :
        WithinLimits limits a
        → (id : String) {x : CollaborationNode} → Dict.get id after.nodes ≡ some x
        → (d : ℕ) × (depth after.nodes id ≡ ok d) × (d ≤ limits.max_depth)
    unfolding node
    after-shallow h id {x} found =
        let (y, origin, same, _) = from_old id found in
        elim origin [
          | inr present ↦
              let (d, at, le) = h.shallow id (ground arith) in
              (d, depth-Keeps a.nodes after.nodes kept id present (omega (arith, size)) at, le)
          | inl (own, new) ↦
              let (p, present) = is_some-true (Dict.get parent a.nodes) admitted.known in
              (
                admitted.level + 1,
                ap (depth after.nodes) own
                    ∙ depth_child a.nodes after.nodes kept parent child present
                        (sym (ap (λ i. Dict.get i after.nodes) own) ∙ found)
                        (same ∙ ap (λ n. n.parent_session_id) new) size admitted.at,
                admitted.shallow,
              )
        ]

    -- No node has the new Child's task key.
    other_key :
        (i : String) {y : CollaborationNode}
        → Dict.get i a.nodes ≡ some y
        → y.task_key ≢ spec.task_key
    other_key i {y} present same = cc (
      any-false a.nodes spec.task_key i admitted.fresh present,
      ap (λ k. k == spec.task_key) same,
      ==_refl spec.task_key,
    )

    after-apart :
        WithinLimits limits a
        → (i j : String) {x y : CollaborationNode} → Dict.get i after.nodes ≡ some x
        → Dict.get j after.nodes ≡ some y
        → x.task_key ≡ y.task_key
        → i ≡ j
    unfolding node
    after-apart h i j {x} {y} p q same =
        let (x', from_x, _, key_x) = from_old i p in
        let (y', from_y, _, key_y) = from_old j q in
        let same' : x'.task_key ≡ y'.task_key = sym key_x ∙ same ∙ key_y in
        elim from_x [
          | inl (own, new) ↦ elim from_y [
            | inl (own', _) ↦ own ∙ sym own'
            | inr old ↦ absurd (other_key j old (sym same' ∙ ap (λ n. n.task_key) new))
          ]
          | inr old ↦ elim from_y [
            | inl (_, new) ↦ absurd (other_key i old (same' ∙ ap (λ n. n.task_key) new))
            | inr old' ↦ h.apart i j old old' same'
          ]
        ]

    after-WithinLimits : WithinLimits limits a → WithinLimits limits after
    unfolding after set_node node
    after-WithinLimits h =
        let change = children-put child node a.nodes absent refl in
        record {
          few = omega (arith, change parent, admitted.few);
          narrow = λ p. elim (Bool-cases (parent == p)) [
            | inl e ↦
                subst (λ q. width q (children after.nodes) ≤ limits.max_children_per_parent)
                  (==→eq parent p e)
                  (omega (arith, change parent, admitted.narrow, width_one parent parent node))
            | inr e ↦ omega (arith, change p, h.narrow p, width_other parent p node refl e)
          ];
          affordable = omega (arith, change parent, admitted.affordable);
          shallow = λ id found. after-shallow h id (is_some-true (Dict.get id after.nodes) found).1;
          apart = after-apart h;
          acyclic = subst Acyclic (sym (graph_of-set_node a child node)) admitted.acyclic;
        }

  -- stage_new_child accepts a Child only where the task tree stays within its limits: the number of
  -- Children, those of each parent, the sum of their budgets and the depth of every Session are
  -- bounded, no two Sessions have the same task key, and no Session waits for itself, directly or
  -- through others. For a tree that is within its limits it returns, and raises nothing but a
  -- CollaborationValidationError.
  pub stage_new_child-WithinLimits :
      WithinLimits limits a
      → ((b : CollaborationAggregate) × (stage_new_child a parent child spec limits ≡ ok b)
          × WithinLimits limits b)
        ⊎ (stage_new_child a parent child spec limits ≡ err Error.collaboration_validation)
  unfolding stage_new_child after node
  stage_new_child-WithinLimits h = elim (validate_new_child-Returns limits a parent child spec h) [
    | inl accepted ↦ inl (
      _,
      ap (λ c. c >> ok (set_node a child (staged a parent child spec))) accepted,
      after-WithinLimits (Admitted-of limits a parent child spec accepted) h,
    )
    | inr refused ↦ inr (ap (λ c. c >> ok (set_node a child (staged a parent child spec))) refused)
  ]
