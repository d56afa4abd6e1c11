-- ===== src/Collaboration/Graph/Search.antt =====
-- The search ends, answers `visited` for a graph without a cycle, and `cyclic` only for a cycle.
use aura_claw.Prelude.{
  ℕ, zero, suc, ◌≤◌, ◌<◌, String, ◌≡◌, refl, inl, inr, sym, ap, subst, true, false, not, none, some,
  List, [], ◌∷◌, contains, count_where, length, string_eq, ◌==◌, ==→eq, ==_refl, Bool-cases,
  Option-cases, arith, All, All-map, ◌≢◌, ◌↔◌,
}
use aura_claw.Prelude.Dict
use aura_claw.Prelude.Dict.{Dict}
use aura_claw.Collaboration.Graph.{
  Graph, dependencies, Visit, exhausted, cyclic, visited, visit_all, finish, visit, search,
}
use aura_claw.Collaboration.Graph.Cycles.{
  Edge, Leads, Acyclic, Closed, Acc-Closed, Acc-absent, no_cycle, All-contains,
}

-- the Sessions of the list that are not on the path
abbrev left : List String → List String → ℕ
left ids path = count_where (λ id. not (contains path id)) ids

left-le : (ids path : List String) (id : String) → left ids (id ∷ path) ≤ left ids path
left-le [] path id = omega arith
left-le (x ∷ ids) path id = ground (arith, left-le ids path id)

left-lt :
    (ids path : List String) (id : String)
    → contains ids id ≡ true
    → contains path id ≡ false
    → left ids (id ∷ path) < left ids path
left-lt [] path id m new = ground arith
left-lt (x ∷ ids) path id m new = ground (arith, left-lt ids path id, left-le ids path id)

left-nil : (ids : List String) → left ids [] ≡ length ids
left-nil [] = refl
left-nil (x ∷ ids) = ap suc (left-nil ids)

-- each Session of the path waits for the one before it, and the first for `id`
PathTo : Graph → List String → String → Type 0
PathTo graph [] id = Unit
PathTo graph (v ∷ path) id = Edge graph v id × PathTo graph path v

PathTo-Leads :
    (graph : Graph) (path : List String) (id x : String)
    → PathTo graph path id
    → contains path x ≡ true
    → Leads graph x id
unfolding PathTo
PathTo-Leads graph [] id x p m = ground arith
PathTo-Leads graph (v ∷ path) id x p m = elim (Bool-cases (x == v)) [
  | inl e ↦ Leads.direct (subst (λ y. Edge graph y id) (sym (==→eq x v e)) p.0)
  | inr e ↦ Leads.onward (PathTo-Leads graph path v x p.1 (ground arith)) p.0
]

length-keys : {A : Type 0} (g : Dict String A) → length (Dict.keys g) ≡ length g
unfolding Dict.keys
length-keys [] = refl
length-keys (entry ∷ g) = ap suc (length-keys g)

All-Unit : (ids : List String) → All (λ id. Unit {0}) ids
All-Unit [] = tt
All-Unit (id ∷ ids) = (tt, All-Unit ids)

All-contains_self : (ids : List String) → All (λ d. contains ids d ≡ true) ids
All-contains_self [] = tt
All-contains_self (id ∷ ids) = (
  ground (arith, ==_refl id),
  All-map (λ d. contains ids d ≡ true) _ (λ d m. ground arith) ids (All-contains_self ids),
)

cyclic_ne_visited : (ids : List String) → cyclic ≢ visited ids
cyclic_ne_visited ids e = cc

dependencies-none :
    (graph : Graph) (id : String) → Dict.get id graph ≡ none → [] ≡ dependencies graph id
unfolding dependencies
dependencies-none graph id absent = rw (absent, dependencies)

module _ (graph : Graph) where
  -- what an answer says of the Sessions asked for
  abbrev Answers : List String → List String → Visit → Type 0
  Answers seen ids exhausted = ⊥
  Answers seen ids cyclic = (id : String) × Leads graph id id
  Answers seen ids (visited seen') =
      Closed graph seen'
      × ((x : String) → contains seen x ≡ true → contains seen' x ≡ true)
      × All (λ id. contains seen' id ≡ true) ids

  Answers-cons :
      (seen seen' : List String) (id : String) (ids : List String)
      → ((x : String) → contains seen x ≡ true → contains seen' x ≡ true)
      → contains seen' id ≡ true
      → (answer : Visit) → Answers seen' ids answer
      → Answers seen (id ∷ ids) answer
  Answers-cons seen seen' id ids keep m exhausted a = a
  Answers-cons seen seen' id ids keep m cyclic a = a
  Answers-cons seen seen' id ids keep m (visited seen'') a =
      (a.0, λ x n. a.1 x (keep x n), (a.1 id m, a.2))

  visit_all-Answers :
      (step : List String → String → Visit) (Asked : String → Type 0)
      → ((seen : List String) (id : String)
          → Closed graph seen
          → Asked id
          → Answers seen (id ∷ []) (step seen id))
      → (ids : List String) → All Asked ids
      → (seen : List String) → Closed graph seen
      → Answers seen ids (visit_all step seen ids)
  unfolding visit_all
  visit_all-Answers step Asked h [] asked seen closed = (closed, λ x m. m, tt)
  visit_all-Answers step Asked h (id ∷ ids) asked seen closed =
      go (visit_all-Answers step Asked h ids asked.1) (step seen id) (h seen id closed asked.0)
    where
      go :
          ((seen' : List String)
            → Closed graph seen'
            → Answers seen' ids (visit_all step seen' ids))
          → (answer : Visit) → Answers seen (id ∷ []) answer
          → Answers seen (id ∷ ids) (elim answer [
            | exhausted ↦ exhausted
            | cyclic ↦ cyclic
            | visited seen' ↦ visit_all step seen' ids
          ])
      go rest exhausted a = a
      go rest cyclic a = a
      go rest (visited seen') a =
          Answers-cons seen seen' id ids a.1 a.2.0 (visit_all step seen' ids) (rest seen' a.0)

  Answers-finish :
      (seen : List String) (id : String) (answer : Visit)
      → Answers seen (dependencies graph id) answer
      → Answers seen (id ∷ []) (finish id answer)
  Answers-finish seen id exhausted a = a
  Answers-finish seen id cyclic a = a
  Answers-finish seen id (visited seen') a =
      ((a.2, a.0), λ x m. ground (arith, a.1 x m), (ground (arith, ==_refl id), tt))

  contains-keys :
      {A : Type 0} (g : Dict String A) (id : String) {v : A}
      → Dict.get id g ≡ some v
      → contains (Dict.keys g) id ≡ true
  unfolding Dict.get Dict.keys
  contains-keys {A} [] id {v} h = cc
  contains-keys {A} ((k, w) ∷ g) id {v} h = ground (arith, contains-keys g id {v = v})

  visit-eq-cyclic :
      (fuel : ℕ) (path seen : List String) (id : String)
      → contains path id ≡ true
      → cyclic ≡ visit graph (suc fuel) path seen id
  unfolding visit
  visit-eq-cyclic fuel path seen id e = ground arith

  visit-eq-seen :
      (fuel : ℕ) (path seen : List String) (id : String)
      → contains path id ≡ false
      → contains seen id ≡ true
      → visited seen ≡ visit graph (suc fuel) path seen id
  unfolding visit
  visit-eq-seen fuel path seen id e e' = ground arith

  visit-eq-finish :
      (fuel : ℕ) (path seen : List String) (id : String)
      → contains path id ≡ false
      → contains seen id ≡ false
      → finish id (visit_all (visit graph fuel (id ∷ path)) seen (dependencies graph id))
        ≡ visit graph (suc fuel) path seen id
  unfolding visit
  visit-eq-finish fuel path seen id e e' = ground arith

  visit_none :
      (step : List String → String → Visit) (seen : List String) (id : String)
      → Dict.get id graph ≡ none
      → Closed graph seen
      → Answers seen (dependencies graph id) (visit_all step seen (dependencies graph id))
  unfolding visit_all
  visit_none step seen id absent closed =
      subst (λ ids. Answers seen ids (visit_all step seen ids)) (dependencies-none graph id absent)
        (closed, λ x m. m, tt)

  visit-Answers :
      (fuel : ℕ) (path seen : List String) (id : String)
      → left (Dict.keys graph) path < fuel
      → Closed graph seen
      → PathTo graph path id
      → Answers seen (id ∷ []) (visit graph fuel path seen id)
  unfolding PathTo
  visit-Answers zero path seen id enough closed p = absurd (omega arith)
  visit-Answers (suc fuel) path seen id enough closed p =
      let goal : Visit → Type 0 = Answers seen (id ∷ []) in
      elim (Bool-cases (contains path id)) [
        | inl e ↦
            subst goal (visit-eq-cyclic fuel path seen id e) (id, PathTo-Leads graph path id id p e)
        | inr new ↦ elim (Bool-cases (contains seen id)) [
          | inl e ↦ subst goal (visit-eq-seen fuel path seen id new e) (closed, λ x m. m, (e, tt))
          | inr e ↦ subst goal (visit-eq-finish fuel path seen id new e) (
              Answers-finish seen id _ (elim (Option-cases (Dict.get id graph)) [
                | inl absent ↦ visit_none (visit graph fuel (id ∷ path)) seen id absent closed
                | inr (ids, present) ↦
                    let fewer =
                      left-lt (Dict.keys graph) path id (contains-keys graph id present) new in
                    visit_all-Answers (visit graph fuel (id ∷ path)) (Edge graph id)
                      (λ seen' d closed' edge.
                        visit-Answers fuel (id ∷ path) seen' d (omega arith) closed' (edge, p))
                      (dependencies graph id) (All-contains_self (dependencies graph id)) seen
                      closed
              ]))
        ]
      ]

  -- what the search of the whole graph says of it
  search-Answers : Answers [] (Dict.keys graph) (search graph)
  unfolding search PathTo
  search-Answers =
      visit_all-Answers (visit graph (suc (length graph)) []) (λ id. Unit)
        (λ seen id closed u.
          visit-Answers (suc (length graph)) [] seen id
            (omega (arith, left-nil (Dict.keys graph), length-keys graph)) closed tt)
        (Dict.keys graph) (All-Unit (Dict.keys graph)) [] tt

  -- The search never runs out of fuel; it answers `cyclic` exactly for a graph that has a cycle.
  pub search-iff-Acyclic :
      (search graph ≢ exhausted)
      × ((search graph ≡ cyclic) ↔ ((id : String) × Leads graph id id))
      × (((ids : List String) × (search graph ≡ visited ids)) ↔ Acyclic graph)
  search-iff-Acyclic = go (search graph) search-Answers
    where
      acyclic : (ids : List String) → Answers [] (Dict.keys graph) (visited ids) → Acyclic graph
      acyclic ids (closed, _, all) id = no_cycle id (elim (Option-cases (Dict.get id graph)) [
        | inl absent ↦ Acc-absent graph id absent
        | inr (_, present) ↦ Acc-Closed graph ids closed id (
            All-contains (λ i. contains ids i ≡ true) (Dict.keys graph) all id
              (contains-keys graph id present))
      ])

      go :
          (answer : Visit)
          → Answers [] (Dict.keys graph) answer
          → (answer ≢ exhausted)
            × ((answer ≡ cyclic) ↔ ((id : String) × Leads graph id id))
            × (((ids : List String) × (answer ≡ visited ids)) ↔ Acyclic graph)
      go exhausted a = absurd a
      go cyclic (id, cycle) = (
        λ e. cc,
        (λ e. (id, cycle), λ c. refl),
        (λ v. absurd (cyclic_ne_visited v.0 v.1), λ none_. absurd (none_ id cycle)),
      )
      go (visited ids) a = (
        λ e. cc,
        (λ e. absurd (cyclic_ne_visited ids (sym e)), λ c. absurd (acyclic ids a c.0 c.1)),
        (λ v. acyclic ids a, λ h. (ids, refl)),
      )
