-- ===== src/Collaboration/Refresh.antt =====
-- `_refresh_runnable` writes the dict that it reads; proofs that this is as if it read the old one.
use aura_claw.Prelude.{
  ◌≤◌, String, ◌≡◌, refl, sym, ap, ◌∙◌, ◌↔◌, inl, inr, Bool, true, false, ◌&&◌, Option, none, some,
  List, [], ◌∷◌, ◌++◌, arith, if◌then◌else◌, Bool-cases, Option-cases, &&-eq-true, is_some, ◌==◌,
  option_eq, pair_eq, triple_eq, string_eq, nat_eq, ==_refl, ==→eq, length, all, count_where, All,
}
use aura_claw.Prelude.Dict
use aura_claw.Prelude.Dict.{
  Dict, get-put, get-remove, get-put_self, get-remove_self, put-put_self, dict_laws,
}
use mathlib.Core.List.{append-nil, append_assoc}
use mathlib.Core.Path.{fun_ext}
use aura_claw.Collaboration.Types.{
  CollaborationNode, NodeStatus, is_root, blocked, runnable, completed,
}
use aura_claw.Collaboration.Nodes.{
  Nodes, has, is_completed, is_fixed, completed_if_known, dependencies_satisfied, refreshed,
  refresh_from, refresh_runnable,
}

-- the nodes, each with the status that it has by the nodes `old`
unfoldable pub refreshed_all : Nodes → Nodes → Nodes
refreshed_all old [] = []
refreshed_all old ((id, node) ∷ nodes) = (id, refreshed old node) ∷ refreshed_all old nodes

-- whether the Session is known, and completed
completed_at : Nodes → String → Option Bool
completed_at nodes id = elim (Dict.get id nodes) [
  | none ↦ none
  | some node ↦ some (is_completed node.status)
]

or_true : Option Bool → Bool
or_true none = true
or_true (some b) = b

completed_if_known-eq :
    (nodes : Nodes) (id : String) → completed_if_known nodes id ≡ or_true (completed_at nodes id)
unfolding completed_if_known completed_at or_true
completed_if_known-eq nodes id = ground arith

has-eq : (nodes : Nodes) (id : String) → has nodes id ≡ is_some (completed_at nodes id)
unfolding completed_at
has-eq nodes id = ground arith

satisfied_same :
    (old new : Nodes)
    → ((id : String) → completed_at new id ≡ completed_at old id)
    → (node : CollaborationNode) → dependencies_satisfied new node ≡ dependencies_satisfied old node
unfolding dependencies_satisfied
satisfied_same old new same node =
    let f : completed_if_known new ≡ completed_if_known old = fun_ext (λ id.
      completed_if_known-eq new id ∙ ap or_true (same id) ∙ sym (completed_if_known-eq old id)) in
    let g : has new ≡ has old =
      fun_ext (λ id. has-eq new id ∙ ap is_some (same id) ∙ sym (has-eq old id)) in
    λ i.
      all (f i) node.dependency_ids
      && length node.dependency_ids == count_where (g i) node.dependency_ids

refreshed_same :
    (old new : Nodes)
    → ((id : String) → completed_at new id ≡ completed_at old id)
    → (node : CollaborationNode) → refreshed new node ≡ refreshed old node
unfolding refreshed
refreshed_same old new same node = rw (satisfied_same old new same node) refl

is_completed-refreshed :
    (old : Nodes) (node : CollaborationNode)
    → is_completed (refreshed old node).status ≡ is_completed node.status
unfolding refreshed
is_completed-refreshed old node = ground arith

completed_at-refreshed :
    (old passed : Nodes) (id : String) (node : CollaborationNode) (rest : Nodes) (k : String)
    → completed_at (passed ++ (id, refreshed old node) ∷ rest) k
      ≡ completed_at (passed ++ (id, node) ∷ rest) k
unfolding completed_at Dict.get
completed_at-refreshed old [] id node rest k = ground (arith, is_completed-refreshed old node)
completed_at-refreshed old ((j, other) ∷ passed) id node rest k =
    ground (arith, completed_at-refreshed old passed id node rest k)

refresh_from-eq :
    (old passed rest : Nodes)
    → ((id : String) → completed_at (passed ++ rest) id ≡ completed_at old id)
    → refresh_from passed rest ≡ passed ++ refreshed_all old rest
unfolding refresh_from refreshed_all
refresh_from-eq old passed [] same = sym (append-nil passed)
refresh_from-eq old passed ((id, node) ∷ rest) same =
    let new : CollaborationNode = refreshed old node in
    ap (λ n. refresh_from (passed ++ (id, n) ∷ []) rest)
      (refreshed_same old (passed ++ (id, node) ∷ rest) same node)
    ∙ refresh_from-eq old (passed ++ (id, new) ∷ []) rest (λ k.
      ap (λ ns. completed_at ns k) (append_assoc passed ((id, new) ∷ []) rest)
      ∙ completed_at-refreshed old passed id node rest k
      ∙ same k)
    ∙ append_assoc passed ((id, new) ∷ []) (refreshed_all old rest)

-- The loop changes no status that it reads.
pub refresh_runnable-eq : (nodes : Nodes) → refresh_runnable nodes ≡ refreshed_all nodes nodes
unfolding refresh_runnable
refresh_runnable-eq nodes = refresh_from-eq nodes [] nodes (λ id. refl)

pub get-refreshed_all :
    (old nodes : Nodes) (id : String) {node : CollaborationNode}
    → Dict.get id nodes ≡ some node
    → Dict.get id (refreshed_all old nodes) ≡ some (refreshed old node)
unfolding refreshed_all Dict.get
get-refreshed_all old [] id {node} h = cc
get-refreshed_all old ((j, other) ∷ nodes) id {node} h =
    ground (arith, get-refreshed_all old nodes id {node = node})

-- every dependency of the node is known and completed
abbrev pub Ready : Nodes → List String → Type 0
Ready nodes ids =
    All
      (λ id.
        (node : CollaborationNode) × (Dict.get id nodes ≡ some node) × (node.status ≡ completed))
      ids

count-le : (p : String → Bool) (ids : List String) → count_where p ids ≤ length ids
count-le p [] = omega arith
count-le p (id ∷ ids) = ground (arith, count-le p ids)

is_completed→eq : (status : NodeStatus) → is_completed status ≡ true → status ≡ completed
is_completed→eq completed h = refl
is_completed→eq status h = ground arith

Ready-of :
    (nodes : Nodes) (ids : List String)
    → all (completed_if_known nodes) ids ≡ true
    → count_where (has nodes) ids ≡ length ids
    → Ready nodes ids
unfolding completed_if_known
Ready-of nodes [] p q = tt
Ready-of nodes (id ∷ ids) p q = elim (Option-cases (Dict.get id nodes)) [
  | inl absent ↦ absurd (ground (arith, count-le (has nodes) ids))
  | inr (node, present) ↦ (
    (node, present, is_completed→eq node.status (ground arith)),
    Ready-of nodes ids (ground arith) (ground arith),
  )
]

of_Ready :
    (nodes : Nodes) (ids : List String)
    → Ready nodes ids
    → (all (completed_if_known nodes) ids ≡ true) × (count_where (has nodes) ids ≡ length ids)
unfolding completed_if_known
of_Ready nodes [] h = (refl, refl)
of_Ready nodes (id ∷ ids) ((node, present, done), h) =
    let rest = of_Ready nodes ids h in ground arith

pub satisfied-iff-Ready :
    (nodes : Nodes) (node : CollaborationNode)
    → (dependencies_satisfied nodes node ≡ true) ↔ Ready nodes node.dependency_ids
unfolding dependencies_satisfied
satisfied-iff-Ready nodes node = (
  λ h.
      let (p, q) = &&-eq-true (all (completed_if_known nodes) node.dependency_ids) _ h in
      Ready-of nodes node.dependency_ids p (sym (==→eq (length node.dependency_ids) _ q)),
  λ h.
      let (p, q) = of_Ready nodes node.dependency_ids h in
      ground (arith, ==_refl (length node.dependency_ids)),
)

refreshed-eq :
    (nodes : Nodes) (node : CollaborationNode) {ready : Bool}
    → is_root node.role ≡ false
    → is_fixed node.status ≡ false
    → dependencies_satisfied nodes node ≡ ready
    → some (refreshed nodes node)
      ≡ some (record node { status = if ready then runnable else blocked })
unfolding refreshed
refreshed-eq nodes node child waiting e = ground arith

-- After _refresh_runnable, which goes through the nodes one by one and changes them in place, a node
-- that is not the root's and neither running nor over is runnable exactly if every Session that it
-- depends on is known and completed, and blocked otherwise. Nothing else of the node changes.
pub refresh_runnable-iff-Ready :
    (nodes : Nodes) (id : String) (node : CollaborationNode)
    → Dict.get id nodes ≡ some node
    → is_root node.role ≡ false
    → is_fixed node.status ≡ false
    → (status : NodeStatus) × (Dict.get id (refresh_runnable nodes)
        ≡ some (record node { status = status }))
      × ((status ≡ runnable) ↔ Ready nodes node.dependency_ids)
      × ((status ≡ blocked) ↔ (¬ Ready nodes node.dependency_ids))
refresh_runnable-iff-Ready nodes id node present child waiting =
    let (ready, of_ready) = satisfied-iff-Ready nodes node in
    let found : Dict.get id (refresh_runnable nodes) ≡ some (refreshed nodes node) =
      ap (Dict.get id) (refresh_runnable-eq nodes) ∙ get-refreshed_all nodes nodes id present in
    elim (Bool-cases (dependencies_satisfied nodes node)) [
      | inl e ↦ (
        runnable,
        found ∙ refreshed-eq nodes node child waiting e,
        (λ s. ready e, λ r. refl),
        (λ s. cc, λ r. absurd (r (ready e))),
      )
      | inr e ↦ (
        blocked,
        found ∙ refreshed-eq nodes node child waiting e,
        (λ s. cc, λ r. cc (of_ready r)),
        (λ s r. cc (of_ready r), λ r. refl),
      )
    ]
