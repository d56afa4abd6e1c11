-- ===== src/Approval/Aggregate.antt =====
-- ApprovalRecord of contracts/tools.py, and `request`, `vote`, `respond` and `validate` of
-- ApprovalAggregate in domain/approval.py. Instants and spans of time are numbers of microseconds;
-- a vote keeps its instant rather than its ISO text.
use aura_claw.Prelude.{
  ℕ, ◌+◌, String, ◌<>◌, Bool, true, false, not, ◌&&◌, ◌||◌, Option, none, some, List, [], ◌∷◌, ◌++◌,
  ltb, leb, if◌then◌else◌, ◌==◌, contains, option_eq, pair_eq, triple_eq, distinct, string_eq,
  nat_eq, length, any, count_where, Error, Result, ok, err, ◌>>=◌, ◌>>◌,
}
use aura_claw.Contracts.{Value}

pub data RiskLevel : Type 0 where
  low medium high critical : RiskLevel

pub data ApprovalStatus : Type 0 where
  requested waiting approved rejected expired cancelled : ApprovalStatus

pub record Vote : Type 0 where
  pub actor_id : String
  pub decision : String
  pub feedback : Option String
  pub recorded_at : ℕ

pub record ApprovalRecord : Type 0 where
  pub approval_id : String
  pub tenant_id : String
  pub session_id : String
  pub run_id : String
  pub action_digest : String
  pub tool_name : String
  pub redacted_arguments : Value
  pub risk : RiskLevel
  pub reason : String
  pub expected_effect : String
  pub allowed_decisions : List String
  pub assigned_approvers : List String
  pub policy_version : String
  pub expires_at : ℕ
  pub required_approvals : ℕ
  pub votes : List Vote
  pub escalation_at : Option ℕ
  pub escalation_level : ℕ
  pub status : ApprovalStatus
  pub decision : Option String
  pub feedback : Option String

-- what the caller of `request` says of the action
pub record Request : Type 0 where
  pub tenant_id : String
  pub session_id : String
  pub run_id : String
  pub digest : String
  pub tool_name : String
  pub redacted_arguments : Value
  pub risk : RiskLevel
  pub reason : String
  pub expected_effect : String
  pub policy_version : String
  pub assigned_approvers : List String
  pub required_approvals : ℕ
  pub escalation_after : Option ℕ
  pub ttl : ℕ

abbrev pub invalid {ℓ} : {A : Type ℓ} → Result A
invalid = err Error.approval_validation

-- `if test: raise ApprovalValidationError(…)`
abbrev pub reject_if : Bool → Result (Unit {0})
reject_if true = invalid
reject_if false = ok tt

abbrev pub is_nil {ℓ} : {A : Type ℓ} → List A → Bool
is_nil [] = true
is_nil (_ ∷ _) = false

-- `escalation_after is not None and (escalation_after <= 0 or escalation_after >= ttl)`
abbrev escalates_badly : Option ℕ → ℕ → Bool
escalates_badly none ttl = false
escalates_badly (some after) ttl = leb after 0 || leb ttl after

abbrev later : ℕ → Option ℕ → Option ℕ
later now none = none
later now (some span) = some (now + span)

-- `hex` is the fresh `uuid4().hex`.
unfoldable pub request : Request → (hex : String) → (now : ℕ) → Result ApprovalRecord
request r hex now = do
  reject_if (ltb r.required_approvals 1)
  reject_if (
      not (is_nil r.assigned_approvers)
      && ltb (length (distinct r.assigned_approvers)) r.required_approvals)
  reject_if (leb r.ttl 0)
  reject_if (escalates_badly r.escalation_after r.ttl)
  ok record {
    approval_id = "apr_" <> hex;
    tenant_id = r.tenant_id;
    session_id = r.session_id;
    run_id = r.run_id;
    action_digest = r.digest;
    tool_name = r.tool_name;
    redacted_arguments = r.redacted_arguments;
    risk = r.risk;
    reason = r.reason;
    expected_effect = r.expected_effect;
    allowed_decisions = "approved" ∷ "rejected" ∷ [];
    assigned_approvers = r.assigned_approvers;
    policy_version = r.policy_version;
    expires_at = now + r.ttl;
    required_approvals = r.required_approvals;
    votes = [];
    escalation_at = later now r.escalation_after;
    escalation_level = 0;
    status = ApprovalStatus.waiting;
    decision = none;
    feedback = none;
  }

-- REQUESTED or WAITING
abbrev pub is_open : ApprovalStatus → Bool
is_open ApprovalStatus.requested = true
is_open ApprovalStatus.waiting = true
is_open _ = false

abbrev pub by_actor : String → Vote → Bool
by_actor actor_id v = v.actor_id == actor_id

abbrev pub approves : Vote → Bool
approves v = v.decision == "approved"

abbrev pub new_vote : (actor_id decision : String) → Option String → ℕ → Vote
new_vote actor_id decision feedback now = record {
  actor_id = actor_id;
  decision = decision;
  feedback = feedback;
  recorded_at = now;
}

-- the end of `vote`, after its checks: the record with the vote, and whether it is decided
unfoldable pub counted : ApprovalRecord → Vote → ApprovalRecord × Bool
counted r v =
    let votes = r.votes ++ v ∷ [] in
    let is_rejected = v.decision == "rejected" in
    let terminal = is_rejected || leb r.required_approvals (count_where approves votes) in
    (
      record r {
        votes = votes;
        status =
            if is_rejected
            then ApprovalStatus.rejected
            else if terminal
            then ApprovalStatus.approved
            else ApprovalStatus.waiting;
        decision = if terminal then some (if is_rejected then "rejected" else "approved") else none;
        feedback = if terminal then v.feedback else none;
      },
      terminal,
    )

unfoldable pub vote :
    ApprovalRecord
    → (actor_id decision : String) → (feedback : Option String) → (now : ℕ)
    → Result (ApprovalRecord × Bool)
vote r actor_id decision feedback now = do
  reject_if (not (is_open r.status))
  reject_if (leb r.expires_at now)
  reject_if (not (is_nil r.assigned_approvers) && not (contains r.assigned_approvers actor_id))
  reject_if (not (contains r.allowed_decisions decision))
  reject_if (any (by_actor actor_id) r.votes)
  ok (counted r (new_vote actor_id decision feedback now))

abbrev decided : ApprovalRecord × Bool → Result ApprovalRecord
decided (r, terminal) = if terminal then ok r else invalid

unfoldable pub respond :
    ApprovalRecord
    → (actor_id decision : String) → (feedback : Option String) → (now : ℕ) → Result ApprovalRecord
unfolding vote
respond r actor_id decision feedback now = vote r actor_id decision feedback now >>= decided

abbrev is_approved : ApprovalStatus → Bool
is_approved ApprovalStatus.approved = true
is_approved _ = false

unfoldable pub validate :
    ApprovalRecord
    → (tenant_id session_id digest policy_version : String) → (now : ℕ) → Result (Unit {0})
validate r tenant_id session_id digest policy_version now = do
  reject_if (not (r.tenant_id == tenant_id) || not (r.session_id == session_id))
  reject_if (not (r.action_digest == digest))
  reject_if (not (r.policy_version == policy_version))
  reject_if (not (is_approved r.status))
  reject_if (leb r.expires_at now)
