-- ===== src/Collaboration/Depth.antt =====
-- `depth` of CollaborationAggregate, after a node has been added.
use aura_claw.Prelude.{
  ℕ, zero, suc, ◌+◌, ◌≤◌, String, ◌≡◌, sym, ap, ◌∙◌, inl, inr, Option, none, some, arith,
  Option-cases, option_eq, pair_eq, triple_eq, string_eq, nat_eq, length, ok, ok-injective,
}
use aura_claw.Prelude.Dict
use aura_claw.Prelude.Dict.{
  Dict, get-put, get-remove, get-put_self, get-remove_self, put-put_self, dict_laws,
}
use aura_claw.Collaboration.Types.{CollaborationNode}
use aura_claw.Collaboration.Nodes.{Nodes, depth_from, depth}
use aura_claw.Collaboration.Measures.{Keeps}

depth_from-eq :
    (nodes : Nodes) (fuel n : ℕ) (parent : String) {node : CollaborationNode}
    → Dict.get parent nodes ≡ some node
    → depth_from (suc fuel) nodes n (some parent)
      ≡ depth_from fuel nodes (n + 1) node.parent_session_id
unfolding depth_from
depth_from-eq nodes fuel n parent present = ground arith

depth_from-Keeps :
    (old new : Nodes)
    → Keeps old new
    → (fuel more : ℕ) (n : ℕ) (parent : Option String) {d : ℕ} → depth_from fuel old n parent ≡ ok d
    → fuel ≤ more
    → depth_from more new n parent ≡ ok d
unfolding depth_from
depth_from-Keeps old new keeps fuel more n none h le = ground arith
depth_from-Keeps old new keeps zero more n (some parent) h le = ground arith
depth_from-Keeps old new keeps (suc fuel) zero n (some parent) h le = absurd (omega arith)
depth_from-Keeps old new keeps (suc fuel) (suc more) n (some parent) {d} h le =
    elim (Option-cases (Dict.get parent old)) [
      | inl absent ↦ ground arith
      | inr (node, present) ↦
          let (node', found, same, _) = keeps parent node present in
          let rest =
            depth_from-Keeps old new keeps fuel more (n + 1) node.parent_session_id {d = d}
              (sym (depth_from-eq old fuel n parent present) ∙ h) (omega arith) in
          depth_from-eq new more n parent found ∙ ap (depth_from more new (n + 1)) same ∙ rest
    ]

depth_from-suc :
    (nodes : Nodes) (fuel n : ℕ) (parent : Option String) {d : ℕ}
    → depth_from fuel nodes n parent ≡ ok d
    → depth_from fuel nodes (n + 1) parent ≡ ok (d + 1)
unfolding depth_from
depth_from-suc nodes fuel n none h = ap (λ v. ok (v + 1)) (ok-injective h)
depth_from-suc nodes zero n (some parent) h = cc
depth_from-suc nodes (suc fuel) n (some parent) {d} h =
    elim (Option-cases (Dict.get parent nodes)) [
      | inl absent ↦ ground arith
      | inr (node, present) ↦
          ground (arith, depth_from-suc nodes fuel (n + 1) node.parent_session_id {d = d})
    ]

depth-eq :
    (nodes : Nodes) (id : String) {node : CollaborationNode}
    → Dict.get id nodes ≡ some node
    → depth nodes id ≡ depth_from (length nodes) nodes 0 node.parent_session_id
unfolding depth
depth-eq nodes id present = ground arith

module _ (old new : Nodes) (keeps : Keeps old new) where
  -- An old node is as deep as it was.
  pub depth-Keeps :
      (id : String) {node : CollaborationNode}
      → Dict.get id old ≡ some node
      → length old ≤ length new
      → {d : ℕ} → depth old id ≡ ok d
      → depth new id ≡ ok d
  depth-Keeps id {node} present le {d} h =
      let (node', found, same, _) = keeps id node present in
      depth-eq new id found
      ∙ ap (depth_from (length new) new 0) same
      ∙ depth_from-Keeps old new keeps (length old) (length new) 0 node.parent_session_id {d = d}
          (sym (depth-eq old id present) ∙ h) le

  -- A new node is one deeper than its parent.
  pub depth_child :
      (parent child : String) {node x : CollaborationNode}
      → Dict.get parent old ≡ some node
      → Dict.get child new ≡ some x
      → x.parent_session_id ≡ some parent
      → length new ≡ length old + 1
      → {d : ℕ} → depth old parent ≡ ok d
      → depth new child ≡ ok (d + 1)
  depth_child parent child {node} {x} present found same size {d} h =
      let (node', found', same', _) = keeps parent node present in
      depth-eq new child found
      ∙ ap (depth_from (length new) new 0) same
      ∙ ap (λ n. depth_from n new 0 (some parent)) (omega (arith, size))
      ∙ depth_from-eq new (length old) 0 parent found'
      ∙ ap (depth_from (length old) new (0 + 1)) same'
      ∙ depth_from-suc new (length old) 0 node.parent_session_id (
          depth_from-Keeps old new keeps (length old) (length old) 0 node.parent_session_id {d = d}
            (sym (depth-eq old parent present) ∙ h) (omega arith))
