-- ===== src/Approval/Events.antt =====
-- `from_events` of ApprovalAggregate: an approval rebuilt from the Session's canonical events.
pub mod Rebuild
use aura_claw.Prelude.{
  ℕ, zero, suc, ◌+◌, ◌-◌, ◌*◌, ◌≤◌, ◌<◌, max, min, String, ◌<>◌, ◌≡◌, refl, sym, ap, ◌∙◌, subst,
  ◌≢◌, ◌↔◌, ◌⊎◌, inl, inr, Bool, true, false, not, ◌&&◌, ◌||◌, Option, none, some, List, [], ◌∷◌,
  ◌++◌, map, arith, ltb, leb, if◌then◌else◌, leb→le, leb_false→lt, le→leb, ltb→lt, lt→ltb,
  Bool-cases, Option-cases, &&-eq-true, is_some, Eq, ◌==◌, contains, option_eq, pair_eq, triple_eq,
  distinct, distinct_from, string_eq, nat_eq, ==_refl, ==→eq, length, take, any, all, select, find,
  count_where, length-append, count_where-append, length-take_le, All, All-append, All-select,
  Error, Result, ok, err, ◌>>=◌, ◌>>◌, ok-injective, >>=-eq-ok,
}
use aura_claw.Prelude.Dict
use aura_claw.Prelude.Dict.{
  Dict, get-put, get-remove, get-put_self, get-remove_self, put-put_self, dict_laws,
}
use aura_claw.Contracts.{CanonicalEvent, Value, Fields}
use aura_claw.Approval.Aggregate.{
  RiskLevel, ApprovalStatus, Vote, ApprovalRecord, by_actor, new_vote,
}

-- The payload of `approval.requested`, as far as it is read; an absent key is `none` or `[]`.
pub record RequestedPayload : Type 0 where
  pub run_id : Option String
  pub action_digest : String
  pub tool_name : String
  pub redacted_arguments : Option Value
  pub risk : RiskLevel
  pub reason : Option String
  pub expected_effect : Option String
  pub allowed_decisions : List String
  pub assigned_approvers : List String
  pub policy_version : String
  pub expires_at : ℕ
  pub required_approvals : Option ℕ
  pub votes : List Vote
  pub escalation_at : Option ℕ
  pub escalation_level : Option ℕ
  pub status : Option ApprovalStatus

-- What an event says of an approval; `decided` is `approval.{status}`, and `foreign` any event
-- whose type does not begin with `approval.`
pub data Body : Type 0 where
  requested : RequestedPayload → Body
  vote_recorded : (actor_id decision : String) (feedback : Option String) → Body
  delegated : (from_approver to_approver : String) → Body
  escalated :
      (approvers : List String) (escalation_level : ℕ) (next_escalation_at : Option ℕ) → Body
  decided : (status : String) (actor_id decision feedback : Option String) → Body
  foreign : Body

pub record ApprovalEvent : Type 0 where
  pub approval_id : String
  pub body : Body

abbrev pub or_default {ℓ} : {A : Type ℓ} → Option A → A → A
or_default none d = d
or_default (some a) d = a

-- `a or b or ""`, for texts
abbrev first_text : Option String → Option String → String
first_text a b =
    let second = or_default b "" in
    elim a [ none ↦ second | some s ↦ if s == "" then second else s ]

opened : CanonicalEvent ApprovalEvent → RequestedPayload → ApprovalRecord
opened e p = record {
  approval_id = e.payload.approval_id;
  tenant_id = e.tenant_id;
  session_id = e.session_id;
  run_id = first_text p.run_id e.run_id;
  action_digest = p.action_digest;
  tool_name = p.tool_name;
  redacted_arguments = or_default p.redacted_arguments (Value.obj Fields.end);
  risk = p.risk;
  reason = or_default p.reason "";
  expected_effect = or_default p.expected_effect "";
  allowed_decisions = p.allowed_decisions;
  assigned_approvers = p.assigned_approvers;
  policy_version = p.policy_version;
  expires_at = p.expires_at;
  required_approvals = max 1 (or_default p.required_approvals 1);
  votes = p.votes;
  escalation_at = p.escalation_at;
  escalation_level = or_default p.escalation_level 0;
  status = or_default p.status ApprovalStatus.waiting;
  decision = none;
  feedback = none;
}

-- `ApprovalStatus(text)`, a ValueError for any other text
unfoldable pub parse_status : String → Result ApprovalStatus
parse_status text =
    if text == "requested"
    then ok ApprovalStatus.requested
    else if text == "waiting"
    then ok ApprovalStatus.waiting
    else if text == "approved"
    then ok ApprovalStatus.approved
    else if text == "rejected"
    then ok ApprovalStatus.rejected
    else if text == "expired"
    then ok ApprovalStatus.expired
    else if text == "cancelled"
    then ok ApprovalStatus.cancelled
    else err Error.value_error

-- the vote that a decision implies, unless its actor has voted
with_vote :
    List Vote → (actor_id : Option String) → (decision : String) → Option String → ℕ → List Vote
with_vote votes none decision feedback at = votes
with_vote votes (some actor_id) decision feedback at =
    if any (by_actor actor_id) votes
    then votes
    else votes ++ new_vote actor_id decision feedback at ∷ []

-- what an event of an approval does to its record; `at` is the event's `occurred_at`
unfoldable pub amend : Body → ℕ → ApprovalRecord → Result ApprovalRecord
unfolding parse_status with_vote
amend (requested p) at r = ok r
amend (vote_recorded actor_id decision feedback) at r =
    ok (record r { votes = r.votes ++ new_vote actor_id decision feedback at ∷ [] })
amend (delegated from_approver to_approver) at r = ok (record r {
  assigned_approvers =
      distinct (map (λ a. if a == from_approver then to_approver else a) r.assigned_approvers);
})
amend (escalated approvers level next) at r = ok (record r {
  assigned_approvers = distinct (r.assigned_approvers ++ approvers);
  escalation_level = level;
  escalation_at = next;
})
amend (decided text actor_id decision feedback) at r = do
  status ← parse_status text
  ok (record r {
    status = status;
    votes = with_vote r.votes actor_id (or_default decision text) feedback at;
    decision = decision;
    feedback = feedback;
  })
amend foreign at r = ok r

-- the body of the loop, for an event of the approval
unfoldable pub absorb :
    CanonicalEvent ApprovalEvent → Body → Option ApprovalRecord → Result (Option ApprovalRecord)
unfolding opened amend
absorb e (requested p) record' = ok (some (opened e p))
absorb e body none = ok none
absorb e body (some r) = amend body e.occurred_at r >>= λ r'. ok (some r')

module _ (tenant_id session_id approval_id : String) where
  abbrev concerns : CanonicalEvent ApprovalEvent → Bool
  concerns e =
      e.tenant_id == tenant_id && e.session_id == session_id && e.payload.approval_id == approval_id

  unfoldable pub rebuild :
      List (CanonicalEvent ApprovalEvent) → Option ApprovalRecord → Result (Option ApprovalRecord)
  unfolding absorb
  rebuild [] r = ok r
  rebuild (e ∷ es) r =
      (if concerns e then absorb e e.payload.body r else ok r) >>= λ r'. rebuild es r'

  unfoldable pub from_events : List (CanonicalEvent ApprovalEvent) → Result (Option ApprovalRecord)
  unfolding rebuild
  from_events es = rebuild es none
