-- ===== src/Policy/Governance.antt =====
-- ProductionPolicy of policy/governance.py.
use aura_claw.Prelude.{
  ℕ, min, String, Bool, true, false, not, ◌&&◌, ◌||◌, Option, none, some, List, [], ◌∷◌, ltb, leb,
  if◌then◌else◌, ◌==◌, contains, option_eq, pair_eq, triple_eq, distinct, string_eq, nat_eq, length,
  Error, Result, ok, err, ◌>>=◌, ◌>>◌,
}
use aura_claw.Prelude.Dict
use aura_claw.Prelude.Dict.{
  Dict, get-put, get-remove, get-put_self, get-remove_self, put-put_self, dict_laws,
}
use aura_claw.Prelude.Text.{is_truthy, strip}
use aura_claw.Prelude.{guard}
use aura_claw.Contracts.{Value, Items}
use aura_claw.Policy.Json.{truthy, fields_of, items_of, same_dict, as_int, as_str, as_texts, equals}

pub data PolicyDecision : Type 0 where
  allow deny allow_with_constraints require_approval : PolicyDecision

-- PolicyEvaluateRequest, with what is read of it
pub record PolicyEvaluateRequest : Type 0 where
  pub action : String
  pub attributes : Dict String Value

pub record ProductionPolicy : Type 0 where
  pub runtime_budget : Dict String Value
  pub model_provider : Option String
  pub model_name : Option String
  pub model_data_region : String
  pub allowed_data_regions : List String
  pub artifact_share_max_ttl_seconds : ℕ
  pub artifact_share_classifications : List String
  pub approval_approvers : List String
  pub approval_required_approvals : ℕ
  pub approval_ttl_seconds : ℕ
  pub approval_escalation_after_seconds : ℕ

abbrev pub is_empty : List String → Bool
is_empty [] = true
is_empty (x ∷ xs) = false

-- `__post_init__`
unfoldable pub check_policy : ProductionPolicy → Result (Unit {0})
unfolding distinct
check_policy p = do
  guard
      (is_empty p.approval_approvers
        || leb p.approval_required_approvals (length (distinct p.approval_approvers)))
      Error.value_error
  guard (ltb p.approval_escalation_after_seconds p.approval_ttl_seconds) Error.value_error

abbrev pub Constraints : Type 0
Constraints = Dict String Value

-- `attributes.get(key, default)`
abbrev pub attribute : PolicyEvaluateRequest → String → Value → Value
attribute r key default = elim (Dict.get key r.attributes) [ none ↦ default | some v ↦ v ]

-- a setting that is not None and not empty
abbrev pub setting : Option String → Option String
setting none = none
setting (some s) = if is_truthy s then some s else none

-- a value that is there and is not None
abbrev pub not_none : Option Value → Option Value
not_none (some Value.null) = none
not_none v = v

-- what the policy adds for a decision on an approval
unfoldable pub approval_constraints : ProductionPolicy → Constraints → Constraints
approval_constraints p constraints =
    let timed =
      Dict.put "escalation_after_seconds" (Value.num p.approval_escalation_after_seconds)
        (Dict.put "approval_ttl_seconds" (Value.num p.approval_ttl_seconds) constraints) in
    if is_empty p.approval_approvers
    then timed
    else Dict.put "required_approvals"
        (Value.num (min p.approval_required_approvals (length p.approval_approvers)))
        (Dict.put "assigned_approvers" (Value.arr (items_of p.approval_approvers)) timed)

-- `repr` writes a list or a dict; `parse_int` is `int` on a text, `to_float` is `float`.
module _ (repr : Value → String) (parse_int : String → Result ℕ) (to_float : Value → Result Value)
    (p : ProductionPolicy) where
  unfoldable pub required_region : PolicyEvaluateRequest → String
  required_region r =
      let wanted = attribute r "required_data_region" Value.null in
      as_str repr (if truthy wanted then wanted else Value.str p.model_data_region)

  -- the provider that the policy names is not among those that are asked for
  unfoldable pub other_provider : List String → Bool
  other_provider asked = elim (setting p.model_provider) [
    | none ↦ false
    | some provider ↦ not (is_empty asked) && not (contains asked provider)
  ]

  unfoldable pub other_model : Value → Bool
  other_model asked = elim (setting p.model_name) [
    | none ↦ false
    | some name ↦ truthy asked && not (equals asked (Value.str name))
  ]

  unfoldable pub put_setting : String → (String → Value) → Option String → Constraints → Constraints
  put_setting key value none c = c
  put_setting key value (some s) c = Dict.put key (value s) c

  unfoldable pub put_cost : Option Value → Constraints → Result Constraints
  put_cost none c = ok c
  put_cost (some cost) c = to_float cost >>= (λ f. ok (Dict.put "run_max_cost" f c))

  -- `runtime_budget["max_output_tokens"]`
  unfoldable pub budget_tokens : Result ℕ
  budget_tokens = elim (Dict.get "max_output_tokens" p.runtime_budget) [
    | none ↦ err Error.key_error
    | some v ↦ as_int parse_int v
  ]

  -- what is added for "model.generate"; none is DENY
  unfoldable pub generate : PolicyEvaluateRequest → Constraints → Result (Option Constraints)
  generate r c =
      let region = required_region r in
      if not (contains p.allowed_data_regions region)
      then ok none
      else as_texts repr (attribute r "allowed_providers" (Value.arr Items.nil)) >>= (λ asked.
        if other_provider asked || other_model (attribute r "preferred_model" Value.null)
        then ok none
        else as_int parse_int (attribute r "max_output_tokens" (Value.num 8192)) >>= (λ wanted.
          budget_tokens >>= (λ most.
            let limited =
              Dict.put "max_output_tokens" (Value.num (min wanted most))
                (Dict.put "data_region" (Value.str region) c) in
            let provided =
              put_setting "allowed_providers" (λ s. Value.arr (items_of (s ∷ [])))
                (setting p.model_provider) limited in
            let named =
              put_setting "preferred_model" (λ s. Value.str s) (setting p.model_name) provided in
            put_cost (not_none (Dict.get "max_cost" p.runtime_budget)) named
            >>= (λ d. ok (some d)))))

  -- what is added for "artifact.share"
  unfoldable pub share : PolicyEvaluateRequest → Constraints → Result (Option Constraints)
  share r c =
      let classification = as_str repr (attribute r "classification" (Value.str "internal")) in
      let audience = strip (as_str repr (attribute r "audience" (Value.str ""))) in
      if not (contains p.artifact_share_classifications classification)
      then ok none
      else if not (is_truthy audience)
      then ok none
      else as_int parse_int (attribute r "ttl_seconds" (Value.num 300)) >>= (λ wanted. ok (
          some (
            Dict.put "classification" (Value.str classification) (
              Dict.put "ttl_seconds" (Value.num (min wanted p.artifact_share_max_ttl_seconds))
                (Dict.put "audience" (Value.str audience) c)))))

  unfoldable pub constrain : PolicyEvaluateRequest → Constraints → Result (Option Constraints)
  constrain r c =
      if r.action == "task.create"
      then ok (some (Dict.put "runtime_budget" (Value.obj (fields_of p.runtime_budget)) c))
      else if r.action == "model.generate"
      then generate r c
      else if r.action == "artifact.share"
      then share r c
      else ok (some c)

  -- the decision that goes with the constraints
  unfoldable pub decided :
      PolicyDecision → Constraints → Option Constraints → PolicyDecision × Constraints
  decided decision constraints none = (PolicyDecision.deny, [])
  decided decision constraints (some governed) = (
    if same_dict governed constraints then decision else PolicyDecision.allow_with_constraints,
    governed,
  )

  unfoldable pub govern :
      PolicyEvaluateRequest → PolicyDecision → Constraints → Result (PolicyDecision × Constraints)
  govern r PolicyDecision.require_approval c =
      ok (PolicyDecision.require_approval, approval_constraints p c)
  govern r PolicyDecision.deny c = ok (PolicyDecision.deny, c)
  govern r decision c = constrain r c >>= (λ governed. ok (decided decision c governed))
