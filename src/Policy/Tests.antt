-- ===== src/Policy/Tests.antt =====
-- A policy, and a generation that it admits with fewer tokens than were asked for.
use aura_claw.Prelude.{
  ℕ, String, ◌≡◌, refl, true, none, some, [], ◌∷◌, option_eq, pair_eq, triple_eq, distinct,
  string_eq, nat_eq, Error, Result, ok, err,
}
use aura_claw.Prelude.Dict
use aura_claw.Prelude.Dict.{
  Dict, get-put, get-remove, get-put_self, get-remove_self, put-put_self, dict_laws,
}
use aura_claw.Prelude.Text.{is_truthy}
use aura_claw.Contracts.{Value, Items}
use aura_claw.Policy.Json.{truthy, equals, same_dict, lookup, as_int, as_str, as_texts, texts_of}
use aura_claw.Policy.Governance.{
  PolicyDecision, PolicyEvaluateRequest, ProductionPolicy, Constraints, check_policy,
  required_region, other_provider, other_model, put_setting, put_cost, budget_tokens, generate,
  constrain, decided, govern,
}
use aura_claw.Policy.Permissions.{Limited, govern-Limited}

abbrev policy : ProductionPolicy
policy = record {
  runtime_budget = ("max_output_tokens", Value.num 4096) ∷ [];
  model_provider = some "acme";
  model_name = none;
  model_data_region = "cn";
  allowed_data_regions = "cn" ∷ [];
  artifact_share_max_ttl_seconds = 600;
  artifact_share_classifications = "internal" ∷ [];
  approval_approvers = "ann" ∷ "bob" ∷ [];
  approval_required_approvals = 2;
  approval_ttl_seconds = 3600;
  approval_escalation_after_seconds = 900;
}

abbrev repr : Value → String
repr v = ""

abbrev no_number : String → Result ℕ
no_number s = err Error.value_error

abbrev same_number : Value → Result Value
same_number v = ok v

abbrev generation : PolicyEvaluateRequest
generation = record {
  action = "model.generate";
  attributes = ("max_output_tokens", Value.num 9000) ∷ [];
}

policy_accepted : check_policy policy ≡ ok tt
unfolding check_policy distinct string_eq
policy_accepted = refl

abbrev admitted : Constraints
admitted =
    ("data_region", Value.str "cn")
    ∷ ("max_output_tokens", Value.num 4096)
    ∷ ("allowed_providers", Value.arr (Items.cons (Value.str "acme") Items.nil))
    ∷ []

generation_admitted :
    govern repr no_number same_number policy generation PolicyDecision.allow []
    ≡ ok (PolicyDecision.allow_with_constraints, admitted)
unfolding govern constrain generate required_region other_provider other_model put_setting put_cost
    budget_tokens decided truthy equals same_dict as_int as_str as_texts texts_of lookup nat_eq
    Dict.get Dict.put string_eq is_truthy
generation_admitted = refl

region_denied :
    govern repr no_number same_number
      (record policy { allowed_data_regions = [] })
      generation
      PolicyDecision.allow
      []
    ≡ ok (PolicyDecision.deny, [])
unfolding govern constrain generate required_region decided truthy as_str Dict.get string_eq
region_denied = refl

govern-Limited_example :
    (true ≡ true) × Limited repr no_number same_number policy generation admitted
govern-Limited_example =
    govern-Limited repr no_number same_number policy generation PolicyDecision.allow
      PolicyDecision.allow_with_constraints [] admitted generation_admitted refl
