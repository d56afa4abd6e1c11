-- ===== src/Collaboration/Graph/Cycles.antt =====
-- Chains of dependencies, and what keeps them from closing.
use aura_claw.Prelude.{
  String, ◌≡◌, refl, ◌⊎◌, inl, inr, sym, subst, true, none, List, [], ◌∷◌, contains, string_eq,
  ◌==◌, ==→eq, Bool-cases, arith, All,
}
use mathlib.Core.WellFounded.{Acc}
use aura_claw.Prelude.Dict
use aura_claw.Collaboration.Graph.{Graph, dependencies}

-- `from` waits for `to`
abbrev pub Edge : Graph → String → String → Type 0
Edge graph from to = contains (dependencies graph from) to ≡ true

-- `from` waits for `to`, by one dependency or several
pub data Leads (graph : Graph) (from : String) : String → Type 0 where
  direct : {to : String} → Edge graph from to → Leads graph from to
  onward : {via to : String} → Leads graph from via → Edge graph via to → Leads graph from to

abbrev pub Acyclic : Graph → Type 0
Acyclic graph = (id : String) → ¬ Leads graph id id

-- The first dependency of a chain, and its rest.
first :
    {graph : Graph} {from to : String}
    → Leads graph from to
    → (via : String) × Edge graph from via × ((via ≡ to) ⊎ Leads graph via to)
first (Leads.direct {to} e) = (to, e, inl refl)
first {graph} (Leads.onward {to} chain e) =
    let (via, e', rest) = first chain in
    (
      via,
      e',
      inr (elim rest [
        | inl same ↦ Leads.direct (subst (λ v. Edge graph v to) (sym same) e)
        | inr more ↦ Leads.onward more e
      ]),
    )

-- `to` comes before `from`
abbrev pub Before : Graph → String → String → Type 0
Before graph to from = Edge graph from to

pub no_cycle : {graph : Graph} (id : String) → Acc (Before graph) id → ¬ Leads graph id id
no_cycle {graph} id (Acc.intro _ below) chain =
    let (via, e, rest) = first chain in
    no_cycle via (below via e) (elim rest [
      | inl same ↦ Leads.direct (subst (λ v. Edge graph v via) (sym same) e)
      | inr more ↦ Leads.onward more e
    ])

-- every Session of the list depends only on later ones
abbrev pub Closed : Graph → List String → Type 0
Closed graph [] = Unit
Closed graph (id ∷ ids) =
    All (λ d. contains ids d ≡ true) (dependencies graph id) × Closed graph ids

pub All-contains :
    (P : String → Type 0) (xs : List String) → All P xs → (x : String) → contains xs x ≡ true → P x
All-contains P [] h x m = ground arith
All-contains P (y ∷ ys) h x m = elim (Bool-cases (x == y)) [
  | inl e ↦ subst P (sym (==→eq x y e)) h.0
  | inr e ↦ All-contains P ys h.1 x (ground arith)
]

pub Acc-Closed :
    (graph : Graph) (ids : List String)
    → Closed graph ids
    → (id : String) → contains ids id ≡ true
    → Acc (Before graph) id
Acc-Closed graph [] closed id m = ground arith
Acc-Closed graph (x ∷ ids) closed id m = elim (Bool-cases (id == x)) [
  | inl e ↦ subst (Acc (Before graph)) (sym (==→eq id x e)) (
      Acc.intro x (λ d edge.
        Acc-Closed graph ids closed.1 d
          (All-contains (λ d. contains ids d ≡ true) (dependencies graph x) closed.0 d edge)))
  | inr e ↦ Acc-Closed graph ids closed.1 id (ground arith)
]

-- A Session that is not in the graph waits for none.
pub Acc-absent : (graph : Graph) (id : String) → Dict.get id graph ≡ none → Acc (Before graph) id
unfolding dependencies
Acc-absent graph id absent = Acc.intro id (λ d edge. ground arith)
