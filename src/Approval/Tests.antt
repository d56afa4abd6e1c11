-- ===== src/Approval/Tests.antt =====
-- An approval with a quorum of two, from its request to the check of the action.
use aura_claw.Prelude.{
  ◌⊎◌, ℕ, ◌≤◌, ◌<◌, String, ◌≡◌, refl, ◌≢◌, ◌↔◌, inl, false, not, none, some, List, [], ◌∷◌, ◌++◌,
  option_eq, pair_eq, triple_eq, distinct, distinct_from, string_eq, nat_eq, length, any,
  count_where, ok,
}
use aura_claw.Contracts.{CanonicalEvent, Visibility, Value}
use aura_claw.Approval.Aggregate.{
  RiskLevel, ApprovalStatus, Vote, ApprovalRecord, Request, request, new_vote, counted, vote,
  validate, is_open, approves,
}
use aura_claw.Approval.Quorum
use aura_claw.Approval.Quorum.{
  Ballot, Distinct, cast_all, rejects, request-IsValid, vote-counted, vote-IsValid,
  validate_cleared,
}
use aura_claw.Approval.Events.{Body, RequestedPayload, ApprovalEvent, from_events}
use aura_claw.Approval.Events.Rebuild.{response_body, voted_at, vote_rebuild}

abbrev asked : Request
asked = record {
  tenant_id = "t";
  session_id = "s";
  run_id = "r";
  digest = "d";
  tool_name = "shell";
  redacted_arguments = Value.null;
  risk = RiskLevel.high;
  reason = "why";
  expected_effect = "effect";
  policy_version = "p";
  assigned_approvers = "ann" ∷ "bob" ∷ [];
  required_approvals = 2;
  escalation_after = some 10;
  ttl = 60;
}

abbrev opened : ApprovalRecord
opened = record {
  approval_id = "apr_1";
  tenant_id = "t";
  session_id = "s";
  run_id = "r";
  action_digest = "d";
  tool_name = "shell";
  redacted_arguments = Value.null;
  risk = RiskLevel.high;
  reason = "why";
  expected_effect = "effect";
  allowed_decisions = "approved" ∷ "rejected" ∷ [];
  assigned_approvers = "ann" ∷ "bob" ∷ [];
  policy_version = "p";
  expires_at = 160;
  required_approvals = 2;
  votes = [];
  escalation_at = some 110;
  escalation_level = 0;
  status = ApprovalStatus.waiting;
  decision = none;
  feedback = none;
}

is_requested : request asked "1" 100 ≡ ok opened
unfolding request distinct distinct_from string_eq
is_requested = refl

opened-IsValid :
    Quorum.IsValid opened
    × (ApprovalStatus.waiting ≡ ApprovalStatus.waiting)
    × (100 < 160)
    × ((opened.assigned_approvers ≡ []) ⊎ (2 ≤ length (distinct opened.assigned_approvers)))
    × ((opened.escalation_at ≡ none) ⊎ ((at : ℕ) × (opened.escalation_at ≡ some at) × (at < 160)))
opened-IsValid = request-IsValid asked "1" 100 opened is_requested

abbrev first_vote : Vote
first_vote = new_vote "ann" "approved" none 105

abbrev voted : ApprovalRecord
voted = record opened { votes = first_vote ∷ [] }

votes_once : vote opened "ann" "approved" none 105 ≡ ok (voted, false)
unfolding vote counted string_eq
votes_once = refl

vote-IsValid_example :
    Quorum.IsValid voted
    × (false ≡ not (is_open voted.status))
    × (voted.status ≡ ApprovalStatus.rejected ↔ (◌≡◌ {A = String} "approved" "rejected"))
    × (voted.status ≡ ApprovalStatus.approved
        ↔ ((◌≢◌ {A = String} "approved" "rejected") × (2 ≤ count_where approves voted.votes)))
vote-IsValid_example =
    vote-IsValid opened "ann" "approved" none 105 voted false opened-IsValid.0 votes_once

abbrev ballots : List Ballot
ballots =
    record { actor_id = "ann"; decision = "approved"; feedback = none; at = 105 }
    ∷ record { actor_id = "eve"; decision = "approved"; feedback = none; at = 106 }
    ∷ record { actor_id = "bob"; decision = "approved"; feedback = none; at = 107 }
    ∷ []

clears : validate (cast_all ballots opened) "t" "s" "d" "p" 110 ≡ ok tt
unfolding validate cast_all vote counted string_eq
clears = refl

validate_cleared_example :
    let r = cast_all ballots opened in
    (r.tenant_id ≡ "t")
    × (r.session_id ≡ "s")
    × (r.action_digest ≡ "d")
    × (r.policy_version ≡ "p")
    × (110 < r.expires_at)
    × Distinct r.votes
    × (any rejects r.votes ≡ false)
    × (r.required_approvals ≤ count_where approves r.votes)
validate_cleared_example =
    validate_cleared asked "1" 100 ballots opened "t" "s" "d" "p" 110 is_requested clears

abbrev event_of : Body → (at : ℕ) → CanonicalEvent ApprovalEvent
event_of body at = record {
  event_id = "evt";
  tenant_id = "t";
  root_session_id = "s";
  session_id = "s";
  run_id = some "r";
  aggregate_version = 1;
  type = "approval";
  occurred_at = at;
  actor = record { kind = "user"; id = "ann" };
  correlation_id = "c";
  causation_id = "c";
  visibility = Visibility.user;
  schema_version = 1;
  payload = record { approval_id = "apr_1"; body = body };
}

abbrev asked_payload : RequestedPayload
asked_payload = record {
  run_id = some "r";
  action_digest = "d";
  tool_name = "shell";
  redacted_arguments = some Value.null;
  risk = RiskLevel.high;
  reason = some "why";
  expected_effect = some "effect";
  allowed_decisions = "approved" ∷ "rejected" ∷ [];
  assigned_approvers = "ann" ∷ "bob" ∷ [];
  policy_version = "p";
  expires_at = 160;
  required_approvals = some 2;
  votes = [];
  escalation_at = some 110;
  escalation_level = some 0;
  status = some ApprovalStatus.waiting;
}

abbrev history : List (CanonicalEvent ApprovalEvent)
history = event_of (Body.requested asked_payload) 100 ∷ []

is_rebuilt : from_events "t" "s" "apr_1" history ≡ ok (some opened)
unfolding from_events string_eq
is_rebuilt = refl

vote_rebuild_example :
    from_events "t" "s" "apr_1" (
      history
      ++ event_of Body.foreign 107 ∷ event_of (response_body false "ann" "approved" none) 108 ∷ [])
    ≡ ok (some (voted_at opened voted "ann" "approved" none 108))
vote_rebuild_example =
    vote_rebuild "t" "s" "apr_1" history opened voted "ann" "approved" none false 105
      (event_of Body.foreign 107) (event_of (response_body false "ann" "approved" none) 108)
      is_rebuilt (refl, refl, refl) (inl refl) votes_once
      (record { tenant = refl; session = refl; approval = refl; body_is = refl })
      (record { tenant = refl; session = refl; approval = refl; body_is = refl })
