-- ===== src/Session/Types.antt =====
-- contracts/state.py, contracts/approval_mode.py, and the Session's events with what
-- domain/session.py reads of their payloads. An absent key is `none`, or `[]` for a list whose
-- default is the empty one.
use aura_claw.Prelude.{ℕ, String, Bool, true, false, Option, none, some, List}
use aura_claw.Contracts.{Value}

pub data SessionStatus : Type 0 where
  created ready pending runnable running waiting_for_human paused retry_wait : SessionStatus
  completed failed cancelled closed : SessionStatus

pub data RunStatus : Type 0 where
  pending runnable running waiting_for_human paused retry_wait : RunStatus
  completed failed cancelled : RunStatus

-- `status in TERMINAL_SESSION_STATUSES`
unfoldable pub is_terminal_session : SessionStatus → Bool
is_terminal_session SessionStatus.completed = true
is_terminal_session SessionStatus.failed = true
is_terminal_session SessionStatus.cancelled = true
is_terminal_session SessionStatus.closed = true
is_terminal_session _ = false

-- `run_status in TERMINAL_RUN_STATUSES`, where it may be `None`
unfoldable pub is_terminal_run : Option RunStatus → Bool
is_terminal_run none = false
is_terminal_run (some RunStatus.completed) = true
is_terminal_run (some RunStatus.failed) = true
is_terminal_run (some RunStatus.cancelled) = true
is_terminal_run (some _) = false

pub data ApprovalMode : Type 0 where
  request_approval auto_review full_access : ApprovalMode

pub data InteractionMode : Type 0 where
  streaming non_streaming : InteractionMode

pub data ApprovalSource : Type 0 where
  explicit default inherited legacy : ApprovalSource

pub record ApprovalConfiguration : Type 0 where
  pub effective_approval_mode : Option ApprovalMode
  pub interaction_mode : Option InteractionMode
  pub approval_mode_source : ApprovalSource
  pub approval_mode_revision : ℕ

-- `ApprovalConfiguration()`
abbrev pub default_approval : ApprovalConfiguration
default_approval = record {
  effective_approval_mode = none;
  interaction_mode = none;
  approval_mode_source = legacy;
  approval_mode_revision = 0;
}

abbrev or_request : Option ApprovalMode → ApprovalMode
or_request none = request_approval
or_request (some mode) = mode

abbrev source_of : Option ApprovalMode → ApprovalSource
source_of none = default
source_of (some mode) = explicit

unfoldable pub resolve : InteractionMode → Option ApprovalMode → ApprovalConfiguration
resolve non_streaming mode = record {
  effective_approval_mode = some full_access;
  interaction_mode = some non_streaming;
  approval_mode_source = default;
  approval_mode_revision = 1;
}
resolve streaming mode = record {
  effective_approval_mode = some (or_request mode);
  interaction_mode = some streaming;
  approval_mode_source = source_of mode;
  approval_mode_revision = 1;
}

pub record CreatedPayload : Type 0 where
  pub goal : String
  pub role : Option String
  pub root_session_id : String
  pub parent_session_id : Option String
  pub source : String
  pub approval : Option ApprovalConfiguration
  pub dept_id : Option String
  pub skill_names : List String
  pub schedule_id : Option String
  pub occurrence_id : Option String

pub record ChildPayload : Type 0 where
  pub goal : String
  pub root_session_id : Option String
  pub parent_session_id : String
  pub role : String
  pub dependency_ids : List String
  pub output_contract : Option Value
  pub dept_id : Option String
  pub approval : Option ApprovalConfiguration

pub record RunPayload : Type 0 where
  pub run_id : String
  pub approval : Option ApprovalConfiguration
  pub dept_id : Option String
  pub command_id : Option String
  pub request_fingerprint : Option String
  pub budget : Option Value
  pub read_refresh : Option Value
  pub skill_names : List String

pub record ResultPayload : Type 0 where
  pub result_summary : Option String
  pub result_ref : Option String
  pub artifact_refs : List String

pub record ResponsePayload : Type 0 where
  pub approval_id : String
  pub actor_id : String
  pub decision : String
  pub feedback : Option String

-- The event types of a Session, each with its payload as far as it is written or read there.
pub data SessionEvent : Type 0 where
  session_created : CreatedPayload → SessionEvent
  child_created : ChildPayload → SessionEvent
  run_requested session_resumed : RunPayload → SessionEvent
  approval_mode_changed : ApprovalConfiguration → SessionEvent
  run_scheduled run_started session_paused run_retry_scheduled : SessionEvent
  approval_requested : SessionEvent
  -- of type `approval.{decision}`
  approval_decided : ResponsePayload → SessionEvent
  approval_expired : (approval_id : String) (expired_at : ℕ) → SessionEvent
  human_response_recorded approval_vote_recorded : ResponsePayload → SessionEvent
  approval_delegated :
      (approval_id from_approver to_approver delegated_by reason : String) → SessionEvent
  approval_escalated :
      (approval_id : String) (approvers : List String) (escalation_level : ℕ)
      → (escalated_by reason : String) (next_escalation_at : Option ℕ) → SessionEvent
  run_completed : ResultPayload → SessionEvent
  run_failed run_terminated runtime_failed runtime_reprovisioned : SessionEvent
  run_cancelled : (run_id : Option String) (reason : String) → SessionEvent
  dependency_changed : (dependency_ids : List String) → SessionEvent
  child_delegated session_handed_off : (owner : String) → SessionEvent
  child_result_published : ResultPayload → SessionEvent
  review_completed : (decision target_result_ref : Option String) → SessionEvent
  user_message_appended : (message : String) → SessionEvent
  session_closed : (reason : String) → SessionEvent
  other : (type : String) → SessionEvent
