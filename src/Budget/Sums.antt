-- ===== src/Budget/Sums.antt =====
-- What `govern` of domain/runtime_budget.py adds up to admit a Child.
use aura_claw.Prelude.{
  ℕ, ◌+◌, ◌≤◌, String, ◌≡◌, sym, ap, ◌∙◌, subst, ◌⊎◌, inl, inr, Option, none, some, List, [], ◌∷◌,
  ◌++◌, arith, ltb, if◌then◌else◌, leb→le, Option-cases, is_some, ◌==◌, option_eq, pair_eq,
  triple_eq, string_eq, nat_eq, ==_refl, all, Error, ok, ◌>>=◌, ok-injective, >>=-eq-ok,
}
use aura_claw.Prelude.Dict
use aura_claw.Prelude.Dict.{
  Dict, get-put, get-remove, get-put_self, get-remove_self, put-put_self, dict_laws,
}
use aura_claw.Prelude.{guard-eq-ok, guard_last}
use aura_claw.Budget.Types.{Amount, Budget, count, unfit}
use aura_claw.Budget.Usage.{read_int}
use aura_claw.Budget.Allocation.{
  or_else, allocations, allocated, positive, check_key, check_limit, check_cost, cost_of,
  check_child,
}

-- the sum of an amount over the budgets is within the limit of the tree
abbrev pub SumAtMost :
    (Budget → Option Amount) → ℕ → List Budget → (default : ℕ) → Option Amount → Type 0
SumAtMost key own budgets default limit =
    (total m : ℕ) × (allocated key own budgets ≡ ok total)
    × (read_int default limit ≡ ok m)
    × (total ≤ m)

-- the budgets of the runs of a tree are within the limits of its root's
abbrev pub TreeWithin : List Budget → Budget → Type 0
TreeWithin budgets root =
    SumAtMost (λ b. b.max_steps) 48 budgets 480 root.tree_max_steps
    × SumAtMost (λ b. b.max_output_tokens) 8192 budgets 81920 root.tree_max_output_tokens
    × ((root.tree_max_cost ≡ none) ⊎ SumAtMost (λ b. b.max_cost) 0 budgets 0 root.tree_max_cost)

allocated-append :
    (key : Budget → Option Amount) (default : ℕ) (budgets : List Budget) (b : Budget)
    {total value : ℕ}
    → allocated key default budgets ≡ ok total
    → read_int default (key b) ≡ ok value
    → allocated key default (budgets ++ b ∷ []) ≡ ok (total + value)
unfolding allocated
allocated-append key default [] b {total} {value} h v =
    ap (λ x. x >>= (λ amount. ok (amount + 0))) v ∙ ap ok (omega (arith, ok-injective h))
allocated-append key default (c ∷ budgets) b {total} {value} h v =
    let (amount, read, h') = >>=-eq-ok (read_int default (key c)) _ h in
    let (more, rest, sum) = >>=-eq-ok (allocated key default budgets) _ h' in
    ap (λ x. x >>= (λ a. allocated key default (budgets ++ b ∷ []) >>= (λ m. ok (a + m)))) read
    ∙ ap (λ x. x >>= (λ m. ok (amount + m)))
        (allocated-append key default budgets b {total = more} {value = value} rest v)
    ∙ ap ok (omega (arith, ok-injective sum))

read_int-positive :
    (default : ℕ) (amount : Option Amount) {value : ℕ}
    → positive amount ≡ ok value
    → read_int default amount ≡ ok value
read_int-positive default none h = cc
read_int-positive default (some (count n)) h = ground arith
read_int-positive default (some (unfit _)) h = cc

check_key-SumAtMost :
    (key tree_key : Budget → Option Amount) (default tree_default : ℕ) (siblings : List Budget)
    (root configured : Budget)
    → check_key key tree_key default tree_default siblings root configured ≡ ok tt
    → SumAtMost key default (siblings ++ configured ∷ []) tree_default (tree_key root)
unfolding check_key
check_key-SumAtMost key tree_key default tree_default siblings root configured h =
    let (value, fit, h1) = >>=-eq-ok (positive (key configured)) _ h in
    let (total, sum, h2) = >>=-eq-ok (allocated key default siblings) _ h1 in
    let (limit, read, h3) = >>=-eq-ok (read_int tree_default (tree_key root)) _ h2 in
    (
      total + value,
      limit,
      allocated-append key default siblings configured sum
          (read_int-positive default (key configured) fit),
      read,
      leb→le (total + value) limit (guard_last _ Error.collaboration_validation h3),
    )

read_int-cost_of :
    (amount : Option Amount) {value : ℕ} → cost_of amount ≡ ok value → read_int 0 amount ≡ ok value
read_int-cost_of none h = cc
read_int-cost_of (some amount) h = h

check_limit-SumAtMost :
    (siblings : List Budget) (tree : Amount) (configured : Budget)
    → check_limit siblings tree configured.max_cost ≡ ok tt
    → SumAtMost (λ b. b.max_cost) 0 (siblings ++ configured ∷ []) 0 (some tree)
unfolding check_limit
check_limit-SumAtMost siblings tree configured h =
    let (value, fit, h1) = >>=-eq-ok (cost_of configured.max_cost) _ h in
    let (_, h2) = guard-eq-ok (ltb 0 value) Error.collaboration_validation _ h1 in
    let (_, h3) =
      guard-eq-ok (all (λ b. is_some b.max_cost) siblings) Error.collaboration_validation _ h2 in
    let (total, sum, h4) = >>=-eq-ok (allocated (λ b. b.max_cost) 0 siblings) _ h3 in
    let (limit, read, h5) = >>=-eq-ok (read_int 0 (some tree)) _ h4 in
    (
      total + value,
      limit,
      allocated-append (λ b. b.max_cost) 0 siblings configured sum
          (read_int-cost_of configured.max_cost fit),
      read,
      leb→le (total + value) limit (guard_last _ Error.collaboration_validation h5),
    )

check_cost-SumAtMost :
    (siblings : List Budget) (root configured : Budget)
    → check_cost siblings root configured ≡ ok tt
    → (root.tree_max_cost ≡ none)
      ⊎ SumAtMost (λ b. b.max_cost) 0 (siblings ++ configured ∷ []) 0 root.tree_max_cost
unfolding check_cost
check_cost-SumAtMost siblings root configured h = elim (Option-cases root.tree_max_cost) [
  | inl free ↦ inl free
  | inr (tree, limited) ↦ inr (
      subst (SumAtMost (λ b. b.max_cost) 0 (siblings ++ configured ∷ []) 0) (sym limited)
        (check_limit-SumAtMost siblings tree configured (rw (limited, check_cost) at h)))
]

pub check_child-TreeWithin :
    (budgets : Dict String Budget) (scope : String) (root configured : Budget)
    → check_child budgets scope root configured ≡ ok tt
    → TreeWithin (allocations scope budgets ++ configured ∷ []) root
unfolding check_child
check_child-TreeWithin budgets scope root configured h =
    let siblings = allocations scope budgets in
    let (u, steps, h1) =
      >>=-eq-ok
        (check_key (λ b. b.max_steps) (λ b. b.tree_max_steps) 48 480 siblings root configured) _
        h in
    let (v, tokens, h2) =
      >>=-eq-ok
        (check_key (λ b. b.max_output_tokens) (λ b. b.tree_max_output_tokens) 8192 81920 siblings
          root configured)
        _ h1 in
    (
      check_key-SumAtMost (λ b. b.max_steps) (λ b. b.tree_max_steps) 48 480 siblings root configured
          steps,
      check_key-SumAtMost (λ b. b.max_output_tokens) (λ b. b.tree_max_output_tokens) 8192 81920
          siblings root configured tokens,
      check_cost-SumAtMost siblings root configured h2,
    )

pub allocations-append :
    (scope run : String) (budgets : Dict String Budget) (configured : Budget)
    → configured.scope_id ≡ some scope
    → allocations scope (budgets ++ (run, configured) ∷ [])
      ≡ allocations scope budgets ++ configured ∷ []
unfolding allocations Dict.values
allocations-append scope run [] configured own =
    ap (λ b. Dict.values (if b then (run, configured) ∷ [] else []))
      (ap (λ o. or_else o run == scope) own ∙ ==_refl scope)
allocations-append scope run (entry ∷ budgets) configured own =
    ground (arith, allocations-append scope run budgets configured own)
