-- ===== src/Collaboration/Measures.antt =====
-- The measures that a new Child is admitted by, after a node has been added and all are refreshed.
use aura_claw.Prelude.{
  ℕ, suc, ◌+◌, String, ◌≡◌, refl, sym, ap, ◌∙◌, ◌⊎◌, inl, inr, Bool, true, Option, none, some, List,
  [], ◌∷◌, ◌++◌, arith, if◌then◌else◌, Bool-cases, Option-cases, is_some, ◌==◌, option_eq, pair_eq,
  triple_eq, string_eq, nat_eq, ==→eq, length, length-append, count_where-append,
}
use aura_claw.Prelude.Dict
use aura_claw.Prelude.Dict.{
  Dict, get-put, get-remove, get-put_self, get-remove_self, put-put_self, dict_laws,
}
use mathlib.Core.Option.{some-injective}
use aura_claw.Collaboration.Types.{CollaborationNode}
use aura_claw.Collaboration.Nodes.{
  Nodes, refreshed, refresh_runnable, children, width, total_budget,
}
use aura_claw.Collaboration.Refresh.{refreshed_all, get-refreshed_all, refresh_runnable-eq}

children-append :
    (nodes : Nodes) (id : String) (node : CollaborationNode)
    → is_some node.parent_session_id ≡ true
    → children (nodes ++ (id, node) ∷ []) ≡ children nodes ++ node ∷ []
unfolding children Dict.values
children-append [] id node h = ground arith
children-append (entry ∷ nodes) id node h = ground (arith, children-append nodes id node)

total_budget-append :
    (xs ys : List CollaborationNode) → total_budget (xs ++ ys) ≡ total_budget xs + total_budget ys
unfolding total_budget
total_budget-append [] ys = omega arith
total_budget-append (x ∷ xs) ys = omega (arith, total_budget-append xs ys)

module _ (old : Nodes) where
  children-refreshed_all :
      (nodes : Nodes) (parent : String)
      → (length (children (refreshed_all old nodes)) ≡ length (children nodes))
        × (width parent (children (refreshed_all old nodes)) ≡ width parent (children nodes))
        × (total_budget (children (refreshed_all old nodes)) ≡ total_budget (children nodes))
  unfolding children refreshed_all Dict.values width total_budget refreshed
  children-refreshed_all [] parent = (refl, refl, refl)
  children-refreshed_all ((id, node) ∷ nodes) parent =
      ground (arith, children-refreshed_all nodes parent)

width-append :
    (parent : String) (xs ys : List CollaborationNode)
    → width parent (xs ++ ys) ≡ width parent xs + width parent ys
unfolding width
width-append parent xs ys = count_where-append (λ node. node.parent_session_id == some parent) xs ys

one_budget : (n : ℕ) (node : CollaborationNode) → n + total_budget (node ∷ []) ≡ n + node.budget
unfolding total_budget
one_budget n node = omega arith

pub refreshed-keeps :
    (old : Nodes) (node : CollaborationNode)
    → ((refreshed old node).parent_session_id ≡ node.parent_session_id)
      × ((refreshed old node).task_key ≡ node.task_key)
unfolding refreshed
refreshed-keeps old node = ground arith

-- the nodes `new` have all that `old` have, with the same parents and task keys
abbrev pub Keeps : Nodes → Nodes → Type 0
Keeps old new =
    (id : String) (node : CollaborationNode)
    → Dict.get id old ≡ some node
    → (node' : CollaborationNode) × (Dict.get id new ≡ some node')
      × (node'.parent_session_id ≡ node.parent_session_id)
      × (node'.task_key ≡ node.task_key)

-- What adding a Child does to the measures.
pub children-put :
    (id : String) (node : CollaborationNode) (nodes : Nodes)
    → Dict.get id nodes ≡ none
    → is_some node.parent_session_id ≡ true
    → (parent : String)
    → let after = children (refresh_runnable (Dict.put id node nodes)) in
      (length after ≡ length (children nodes) + 1)
      × (width parent after ≡ width parent (children nodes) + width parent (node ∷ []))
      × (total_budget after ≡ total_budget (children nodes) + node.budget)
children-put id node nodes new child parent =
    let put : Nodes = Dict.put id node nodes in
    let same = children-refreshed_all put put parent in
    let added : children put ≡ children nodes ++ node ∷ [] =
      ap children (Dict.put-eq-append id node nodes new) ∙ children-append nodes id node child in
    let measure : (f : List CollaborationNode → ℕ)
        → f (children (refresh_runnable put)) ≡ f (children (refreshed_all put put)) =
      λ f. ap (λ ns. f (children ns)) (refresh_runnable-eq put) in
    (
      measure length ∙ same.0 ∙ ap length added ∙ length-append (children nodes) (node ∷ []),
      measure (width parent)
          ∙ same.1
          ∙ ap (width parent) added
          ∙ width-append parent (children nodes) (node ∷ []),
      measure total_budget
          ∙ same.2
          ∙ ap total_budget added
          ∙ total_budget-append (children nodes) (node ∷ [])
          ∙ one_budget (total_budget (children nodes)) node,
    )

-- A new node and a refresh leave the parents and the task keys of the others.
pub Keeps-put :
    (id : String) (node : CollaborationNode) (nodes : Nodes)
    → Dict.get id nodes ≡ none
    → Keeps nodes (refresh_runnable (Dict.put id node nodes))
Keeps-put id node nodes new k other present =
    let put : Nodes = Dict.put id node nodes in
    let kept : Dict.get k put ≡ some other = Dict.get-put k id node nodes ∙ ground arith in
    (
      refreshed put other,
      ap (Dict.get k) (refresh_runnable-eq put) ∙ get-refreshed_all put put k kept,
      (refreshed-keeps put other).0,
      (refreshed-keeps put other).1,
    )

length-refreshed_all : (old nodes : Nodes) → length (refreshed_all old nodes) ≡ length nodes
unfolding refreshed_all
length-refreshed_all old [] = refl
length-refreshed_all old (entry ∷ nodes) = ap suc (length-refreshed_all old nodes)

pub length-put :
    (id : String) (node : CollaborationNode) (nodes : Nodes)
    → Dict.get id nodes ≡ none
    → length (refresh_runnable (Dict.put id node nodes)) ≡ length nodes + 1
length-put id node nodes new =
    ap length (refresh_runnable-eq (Dict.put id node nodes))
    ∙ length-refreshed_all _ (Dict.put id node nodes)
    ∙ ap length (Dict.put-eq-append id node nodes new)
    ∙ length-append nodes ((id, node) ∷ [])

get-refreshed_all-none :
    (old nodes : Nodes) (id : String)
    → Dict.get id nodes ≡ none
    → Dict.get id (refreshed_all old nodes) ≡ none
unfolding refreshed_all Dict.get
get-refreshed_all-none old [] id h = refl
get-refreshed_all-none old ((j, other) ∷ nodes) id h =
    ground (arith, get-refreshed_all-none old nodes id)

taken :
    {A : Type 0} {test : Bool} {x : A} (y : Option A)
    → test ≡ true
    → (if test then some x else y) ≡ some x
taken y e = rw e

-- Where a node of the new dict comes from: it is the new one, or an old one with a new status.
pub after_cases :
    (id : String) (node : CollaborationNode) (nodes : Nodes) (i : String) {x : CollaborationNode}
    → Dict.get i (refresh_runnable (Dict.put id node nodes)) ≡ some x
    → (y : CollaborationNode) × (((i ≡ id) × (y ≡ node)) ⊎ (Dict.get i nodes ≡ some y))
      × (x.parent_session_id ≡ y.parent_session_id)
      × (x.task_key ≡ y.task_key)
after_cases id node nodes i {x} found =
    let put : Nodes = Dict.put id node nodes in
    let found' : Dict.get i (refreshed_all put put) ≡ some x =
      sym (ap (Dict.get i) (refresh_runnable-eq put)) ∙ found in
    elim (Option-cases (Dict.get i put)) [
      | inl absent ↦ cc (get-refreshed_all-none put put i absent)
      | inr (y, present) ↦
          let same : refreshed put y ≡ x =
            some-injective _ _ (sym (get-refreshed_all put put i present) ∙ found') in
          (
            y,
            elim (Bool-cases (i == id)) [
              | inl e ↦ inl (
                ==→eq i id e,
                some-injective _ _
                    (sym present ∙ Dict.get-put i id node nodes ∙ taken (Dict.get i nodes) e),
              )
              | inr e ↦ inr (ground (arith, Dict.get-put i id node nodes))
            ],
            ap (λ n. n.parent_session_id) (sym same) ∙ (refreshed-keeps put y).0,
            ap (λ n. n.task_key) (sym same) ∙ (refreshed-keeps put y).1,
          )
    ]
