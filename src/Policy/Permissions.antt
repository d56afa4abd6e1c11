-- ===== src/Policy/Permissions.antt =====
-- Which permissions `govern` of ProductionPolicy gives, and what they come with.
use aura_claw.Prelude.{
  ℕ, ◌≤◌, min, String, ◌≡◌, refl, sym, ap, ◌∙◌, subst, ◌≢◌, true, false, not, Option, none, some,
  arith, contains, option_eq, pair_eq, triple_eq, string_eq, nat_eq, Result, ok, ◌>>=◌,
  ok-injective, >>=-eq-ok,
}
use aura_claw.Prelude.Dict
use aura_claw.Prelude.Dict.{
  Dict, get-put, get-remove, get-put_self, get-remove_self, put-put_self, dict_laws,
}
use aura_claw.Prelude.Text.{strip, is_truthy}
use aura_claw.Contracts.{Value}
use aura_claw.Policy.Json.{as_int, as_str}
use aura_claw.Policy.Governance.{
  PolicyDecision, PolicyEvaluateRequest, ProductionPolicy, Constraints, attribute, generate, share,
  constrain, decided, govern,
}
use aura_claw.Policy.Limits.{
  permits, Has, get_other, not_denied, some-injective, WithinPolicy, generate-WithinPolicy,
}

module _ (repr : Value → String) (parse_int : String → Result ℕ) (to_float : Value → Result Value)
    (p : ProductionPolicy) where
  -- constraints that an artifact is shared with
  pub record WithinShare (c : Constraints) : Type 0 where
    pub ttl : ℕ
    pub has_ttl : Has c "ttl_seconds" (Value.num ttl)
    pub ttl_bounded : ttl ≤ p.artifact_share_max_ttl_seconds
    pub classification : String
    pub has_classification : Has c "classification" (Value.str classification)
    pub shareable : contains p.artifact_share_classifications classification ≡ true
    pub audience : String
    pub has_audience : Has c "audience" (Value.str audience)
    pub someone : is_truthy audience ≡ true

  share-WithinShare :
      (r : PolicyEvaluateRequest) (c d : Constraints)
      → share repr parse_int to_float p r c ≡ ok (some d)
      → WithinShare d
  unfolding share string_eq
  share-WithinShare r c d e =
      let classification : String =
        as_str repr (attribute r "classification" (Value.str "internal")) in
      let audience : String = strip (as_str repr (attribute r "audience" (Value.str ""))) in
      let (shareable, e1) =
        not_denied (not (contains p.artifact_share_classifications classification)) _ e in
      let (someone, e2) = not_denied (not (is_truthy audience)) _ e1 in
      let (wanted, _, made) =
        >>=-eq-ok (as_int parse_int (attribute r "ttl_seconds" (Value.num 300))) _ e2 in
      let ttl : ℕ = min wanted p.artifact_share_max_ttl_seconds in
      let heard : Constraints = Dict.put "audience" (Value.str audience) c in
      let timed : Constraints = Dict.put "ttl_seconds" (Value.num ttl) heard in
      let same : Dict.put "classification" (Value.str classification) timed ≡ d =
        some-injective c (ok-injective made) in
      subst WithinShare same (record {
        ttl = ttl;
        has_ttl =
            get_other "ttl_seconds" "classification" (Value.str classification) timed refl
            ∙ get-put_self "ttl_seconds" (Value.num ttl) heard;
        ttl_bounded = omega arith;
        classification = classification;
        has_classification = get-put_self "classification" (Value.str classification) timed;
        shareable = ground (arith, shareable);
        audience = audience;
        has_audience =
            get_other "audience" "classification" (Value.str classification) timed refl
            ∙ get_other "audience" "ttl_seconds" (Value.num ttl) heard refl
            ∙ get-put_self "audience" (Value.str audience) c;
        someone = ground (arith, someone);
      })

  constrain-generate :
      (r : PolicyEvaluateRequest) (c : Constraints)
      → r.action ≡ "model.generate"
      → constrain repr parse_int to_float p r c ≡ generate repr parse_int to_float p r c
  unfolding constrain string_eq
  constrain-generate r c e = rw (constrain, e) refl

  constrain-share :
      (r : PolicyEvaluateRequest) (c : Constraints)
      → r.action ≡ "artifact.share"
      → constrain repr parse_int to_float p r c ≡ share repr parse_int to_float p r c
  unfolding constrain string_eq
  constrain-share r c e = rw (constrain, e) refl

  -- what a permission comes with
  abbrev pub Limited : PolicyEvaluateRequest → Constraints → Type 0
  Limited r c =
      (r.action ≡ "model.generate" → WithinPolicy repr parse_int to_float p c)
      × (r.action ≡ "artifact.share" → WithinShare c)

  permitted-Limited :
      (r : PolicyEvaluateRequest) (decision : PolicyDecision) (c d : Constraints)
      → (governed : Option Constraints) → constrain repr parse_int to_float p r c ≡ ok governed
      → permits (decided repr parse_int to_float p decision c governed).0 ≡ true
      → Limited r (decided repr parse_int to_float p decision c governed).1
  unfolding decided
  permitted-Limited r decision c d none e h = absurd (ground (arith, h))
  permitted-Limited r decision c d (some g) e h = (
    λ a. generate-WithinPolicy repr parse_int to_float p r c g (sym (constrain-generate r c a) ∙ e),
    λ a. share-WithinShare r c g (sym (constrain-share r c a) ∙ e),
  )

  permission :
      (r : PolicyEvaluateRequest) (decision answer : PolicyDecision) (c d : Constraints)
      → (constrain repr parse_int to_float p r c
          >>= (λ governed. ok (decided repr parse_int to_float p decision c governed)))
        ≡ ok (answer, d)
      → permits answer ≡ true
      → Limited r d
  permission r decision answer c d e h =
      let (governed, e1, made) =
        >>=-eq-ok (constrain repr parse_int to_float p r c)
          (λ governed. ok (decided repr parse_int to_float p decision c governed)) e in
      let same : decided repr parse_int to_float p decision c governed ≡ (answer, d) =
        ok-injective made in
      subst (λ q. Limited r q.1) same
        (permitted-Limited r decision c d governed e1
          (subst (λ q. permits q.0 ≡ true) (sym same) h))

refused :
    (q : PolicyDecision × Constraints) {answer : PolicyDecision} {d : Constraints}
    → ok q ≡ ok (answer, d)
    → permits answer ≡ true
    → permits q.0 ≢ false
refused q e h k =
    let same : permits q.0 ≡ permits _ = ap (λ x. permits x.0) (ok-injective e) in
    ground (arith, h, k, same)

-- Where `govern` permits an action, the decision it was given permits it. A generation by a model
-- is then constrained to a region that is allowed, to at most the output tokens of the budget, and
-- to the provider and the model that the policy names; a share of an artifact to a classification
-- that may be shared, to an audience that is not empty, and to at most the longest time.
pub govern-Limited :
    (repr : Value → String) (parse_int : String → Result ℕ) (to_float : Value → Result Value)
    → (p : ProductionPolicy) (r : PolicyEvaluateRequest) (decision answer : PolicyDecision)
    → (c d : Constraints) → govern repr parse_int to_float p r decision c ≡ ok (answer, d)
    → permits answer ≡ true
    → (permits decision ≡ true) × Limited repr parse_int to_float p r d
unfolding govern
govern-Limited repr int float p r PolicyDecision.allow answer c d e h =
    (refl, permission repr int float p r PolicyDecision.allow answer c d e h)
govern-Limited repr int float p r PolicyDecision.allow_with_constraints answer c d e h =
    (refl, permission repr int float p r PolicyDecision.allow_with_constraints answer c d e h)
govern-Limited repr int float p r PolicyDecision.deny answer c d e h =
    absurd (refused (PolicyDecision.deny, c) e h refl)
govern-Limited repr int float p r PolicyDecision.require_approval answer c d e h =
    absurd (refused (PolicyDecision.require_approval, _) e h refl)
