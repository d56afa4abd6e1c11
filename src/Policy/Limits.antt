-- ===== src/Policy/Limits.antt =====
-- What the constraints of `govern` of ProductionPolicy stay within.
use aura_claw.Prelude.{
  ℕ, ◌≤◌, min, String, ◌≡◌, refl, sym, ap, ◌∙◌, subst, Bool, true, false, not, Option, none, some,
  [], ◌∷◌, arith, if◌then◌else◌, ◌==◌, contains, option_eq, pair_eq, triple_eq, string_eq, nat_eq,
  Result, ok, ◌>>=◌, ok-injective, >>=-eq-ok,
}
use aura_claw.Prelude.Dict
use aura_claw.Prelude.Dict.{
  Dict, get-put, get-remove, get-put_self, get-remove_self, put-put_self, dict_laws,
}
use aura_claw.Contracts.{Value, Items}
use aura_claw.Policy.Json.{as_int, as_texts, items_of}
use aura_claw.Policy.Governance.{
  PolicyDecision, PolicyEvaluateRequest, ProductionPolicy, Constraints, setting, attribute,
  not_none, required_region, put_setting, put_cost, budget_tokens, generate,
}

-- the decision lets the action go on without a human
abbrev pub permits : PolicyDecision → Bool
permits PolicyDecision.allow = true
permits PolicyDecision.allow_with_constraints = true
permits _ = false

-- the constraints hold the value under the key
abbrev pub Has : Constraints → String → Value → Type 0
Has c key v = Dict.get key c ≡ some v

not-eq-false : (b : Bool) → not b ≡ false → b ≡ true
not-eq-false true h = refl
not-eq-false false h = cc

pub not_denied :
    {A : Type 0} (test : Bool) (m : Result (Option A)) {a : A}
    → (if test then ok none else m) ≡ ok (some a)
    → (test ≡ false) × (m ≡ ok (some a))
not_denied true m e = cc
not_denied false m e = (refl, e)

pub some-injective : {A : Type 0} (default : A) {a b : A} → some a ≡ some b → a ≡ b
some-injective default e = ap (λ o. elim o [ none ↦ default | some x ↦ x ]) e

pub get_other :
    (key j : String) (v : Value) (c : Constraints)
    → (key == j) ≡ false
    → Dict.get key (Dict.put j v c) ≡ Dict.get key c
get_other key j v c h = ground (arith, h, get-put key j v c)

module _ (repr : Value → String) (parse_int : String → Result ℕ) (to_float : Value → Result Value)
    (p : ProductionPolicy) where
  get-put_cost :
      (key : String) (cost : Option Value) (c d : Constraints)
      → (key == "run_max_cost") ≡ false
      → put_cost repr parse_int to_float p cost c ≡ ok d
      → Dict.get key d ≡ Dict.get key c
  unfolding put_cost
  get-put_cost key none c d h e = ap (Dict.get key) (sym (ok-injective e))
  get-put_cost key (some cost) c d h e =
      let (f, _, made) = >>=-eq-ok (to_float cost) (λ f. ok (Dict.put "run_max_cost" f c)) e in
      ap (Dict.get key) (sym (ok-injective made)) ∙ get_other key "run_max_cost" f c h

  get-put_setting :
      (key j : String) (value : String → Value) (s : Option String) (c : Constraints)
      → (key == j) ≡ false
      → Dict.get key (put_setting repr parse_int to_float p j value s c) ≡ Dict.get key c
  unfolding put_setting
  get-put_setting key j value none c h = refl
  get-put_setting key j value (some s) c h = get_other key j (value s) c h

  get-put_setting_self :
      (j : String) (value : String → Value) (s : String) (c : Constraints)
      → Dict.get j (put_setting repr parse_int to_float p j value (some s) c) ≡ some (value s)
  unfolding put_setting
  get-put_setting_self j value s c = get-put_self j (value s) c

  -- constraints that a generation of a model is admitted with
  pub record WithinPolicy (c : Constraints) : Type 0 where
    pub region : String
    pub has_region : Has c "data_region" (Value.str region)
    pub region_allowed : contains p.allowed_data_regions region ≡ true
    pub most : ℕ
    pub budgeted : budget_tokens repr parse_int to_float p ≡ ok most
    pub tokens : ℕ
    pub has_tokens : Has c "max_output_tokens" (Value.num tokens)
    pub tokens_bounded : tokens ≤ most
    pub provider :
        (name : String)
        → setting p.model_provider ≡ some name
        → Has c "allowed_providers" (Value.arr (items_of (name ∷ [])))
    pub model :
        (name : String)
        → setting p.model_name ≡ some name
        → Has c "preferred_model" (Value.str name)

  module _ (c d : Constraints) (region : String) (wanted most : ℕ) where
    abbrev limited : Constraints
    limited =
        Dict.put "max_output_tokens" (Value.num (min wanted most))
          (Dict.put "data_region" (Value.str region) c)

    abbrev provided : Constraints
    provided =
        put_setting repr parse_int to_float p "allowed_providers"
          (λ s. Value.arr (items_of (s ∷ []))) (setting p.model_provider) limited

    abbrev named : Constraints
    named =
        put_setting repr parse_int to_float p "preferred_model" (λ s. Value.str s)
          (setting p.model_name) provided

    generated-WithinPolicy :
        contains p.allowed_data_regions region ≡ true
        → budget_tokens repr parse_int to_float p ≡ ok most
        → put_cost repr parse_int to_float p (not_none (Dict.get "max_cost" p.runtime_budget)) named
          ≡ ok d
        → WithinPolicy d
    unfolding string_eq
    generated-WithinPolicy allowed budget priced =
        let cost : Option Value = not_none (Dict.get "max_cost" p.runtime_budget) in
        let kept : (key : String)
            → (key == "run_max_cost") ≡ false
            → Dict.get key d ≡ Dict.get key named =
          λ key h. get-put_cost key cost named d h priced in
        let early : (key : String)
            → (key == "run_max_cost") ≡ false
            → (key == "preferred_model") ≡ false
            → (key == "allowed_providers") ≡ false
            → Dict.get key d ≡ Dict.get key limited =
          λ key h i j.
            kept key h
            ∙ get-put_setting key "preferred_model" (λ s. Value.str s) (setting p.model_name)
                provided i
            ∙ get-put_setting key "allowed_providers" (λ s. Value.arr (items_of (s ∷ [])))
                (setting p.model_provider) limited j in
        record {
          region = region;
          has_region =
              early "data_region" refl refl refl
              ∙ get_other "data_region" "max_output_tokens" _ _ refl
              ∙ get-put_self "data_region" (Value.str region) c;
          region_allowed = allowed;
          most = most;
          budgeted = budget;
          tokens = min wanted most;
          has_tokens =
              early "max_output_tokens" refl refl refl
              ∙ get-put_self "max_output_tokens" (Value.num (min wanted most)) _;
          tokens_bounded = omega arith;
          provider = λ name e.
              kept "allowed_providers" refl
              ∙ get-put_setting "allowed_providers" "preferred_model" (λ s. Value.str s)
                  (setting p.model_name) provided refl
              ∙ subst
                  (λ q.
                    Has
                      (put_setting repr parse_int to_float p "allowed_providers"
                        (λ s. Value.arr (items_of (s ∷ []))) q limited)
                      "allowed_providers" (Value.arr (items_of (name ∷ []))))
                  (sym e)
                  (get-put_setting_self "allowed_providers" (λ s. Value.arr (items_of (s ∷ [])))
                    name limited);
          model = λ name e.
              kept "preferred_model" refl
              ∙ subst
                  (λ q.
                    Has
                      (put_setting repr parse_int to_float p "preferred_model" (λ s. Value.str s) q
                        provided)
                      "preferred_model" (Value.str name))
                  (sym e) (get-put_setting_self "preferred_model" (λ s. Value.str s) name provided);
        }

  priced-WithinPolicy :
      (c d : Constraints) (region : String) (wanted most : ℕ)
      → contains p.allowed_data_regions region ≡ true
      → budget_tokens repr parse_int to_float p ≡ ok most
      → (put_cost repr parse_int to_float p
            (not_none (Dict.get "max_cost" p.runtime_budget))
            (named c d region wanted most)
          >>= (λ priced. ok (some priced)))
        ≡ ok (some d)
      → WithinPolicy d
  priced-WithinPolicy c d region wanted most allowed budget e =
      let cost : Option Value = not_none (Dict.get "max_cost" p.runtime_budget) in
      let (e0, priced, made) =
        >>=-eq-ok (put_cost repr parse_int to_float p cost (named c d region wanted most))
          (λ priced. ok (some priced)) e in
      generated-WithinPolicy c d region wanted most allowed budget
        (priced ∙ ap ok (some-injective c (ok-injective made)))

  pub generate-WithinPolicy :
      (r : PolicyEvaluateRequest) (c d : Constraints)
      → generate repr parse_int to_float p r c ≡ ok (some d)
      → WithinPolicy d
  unfolding generate
  generate-WithinPolicy r c d e =
      let region : String = required_region repr parse_int to_float p r in
      let (allowed, e1) = not_denied (not (contains p.allowed_data_regions region)) _ e in
      let (asked, _, e2) =
        >>=-eq-ok (as_texts repr (attribute r "allowed_providers" (Value.arr Items.nil))) _ e1 in
      let (_, e3) = not_denied _ _ e2 in
      let (wanted, _, e4) =
        >>=-eq-ok (as_int parse_int (attribute r "max_output_tokens" (Value.num 8192))) _ e3 in
      let (most, budget, e5) = >>=-eq-ok (budget_tokens repr parse_int to_float p) _ e4 in
      priced-WithinPolicy c d region wanted most (not-eq-false _ allowed) budget e5
