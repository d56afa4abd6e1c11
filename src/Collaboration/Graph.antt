-- ===== src/Collaboration/Graph.antt =====
-- The depth-first search of `validate_dependencies` in domain/collaboration.py. The source's `visit`
-- changes two sets and restores `visiting` when it returns, so here `visiting` is passed down and
-- `visited` handed on. A call takes fuel; `exhausted` means that it ran out.
use aura_claw.Prelude.{
  ℕ, zero, suc, String, true, false, none, some, List, [], ◌∷◌, contains, string_eq, length,
}
use aura_claw.Prelude.Dict
use aura_claw.Prelude.Dict.{Dict}
pub mod Search
pub mod Cycles

-- the Sessions on which each Session depends
abbrev pub Graph : Type 0
Graph = Dict String (List String)

pub data Visit : Type 0 where
  exhausted cyclic : Visit
  visited : (ids : List String) → Visit

-- `graph.get(session_id, ())`
unfoldable pub dependencies : Graph → String → List String
dependencies graph id = elim (Dict.get id graph) [ none ↦ [] | some ids ↦ ids ]

-- `for dependency in ...: visit(dependency)`
unfoldable pub visit_all :
    (List String → String → Visit) → (seen : List String) → List String → Visit
visit_all step seen [] = visited seen
visit_all step seen (id ∷ ids) = elim (step seen id) [
  | exhausted ↦ exhausted
  | cyclic ↦ cyclic
  | visited seen' ↦ visit_all step seen' ids
]

-- `visited.add(session_id)`
abbrev pub finish : String → Visit → Visit
finish id exhausted = exhausted
finish id cyclic = cyclic
finish id (visited seen) = visited (id ∷ seen)

unfoldable pub visit : Graph → ℕ → (visiting seen : List String) → String → Visit
visit graph zero visiting seen id = exhausted
visit graph (suc fuel) visiting seen id = elim (contains visiting id) [
  | true ↦ cyclic
  | false ↦ elim (contains seen id) [
    | true ↦ visited seen
    | false ↦ finish id (visit_all (visit graph fuel (id ∷ visiting)) seen (dependencies graph id))
  ]
]

-- `for session_id in graph: visit(session_id)`
unfoldable pub search : Graph → Visit
unfolding visit visit_all
search graph = visit_all (visit graph (suc (length graph)) []) [] (Dict.keys graph)
