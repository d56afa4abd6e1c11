-- ===== src/Session/Commands.antt =====
-- The commands of SessionAggregate. A command that is refused raises InvalidTransitionError before
-- it has changed anything.
use aura_claw.Prelude.{
  ℕ, ◌+◌, String, Bool, true, false, not, ◌&&◌, ◌||◌, Option, none, some, List, [], if◌then◌else◌,
  is_some, ◌==◌, distinct, option_eq, pair_eq, triple_eq, distinct, string_eq, nat_eq, Error,
  Result, ok, err,
}
use aura_claw.Prelude.Text.{is_truthy}
use aura_claw.Contracts.{Value, Fields, Items}
use aura_claw.Session.Types.{
  SessionStatus, is_terminal_session, is_terminal_run, ApprovalMode, InteractionMode,
  ApprovalConfiguration, default_approval, resolve, CreatedPayload, RunPayload, ResponsePayload,
  SessionEvent,
}
use aura_claw.Session.Aggregate.{Session, or_default, raise}

abbrev pub refused : Result Session
refused = err Error.invalid_transition

-- `if dept_id: payload["dept_id"] = dept_id`
abbrev given : Option String → Option String
given none = none
given (some text) = if is_truthy text then some text else none

-- `_run_payload`, with the keys that the callers add
run_payload : Session → String → RunPayload
run_payload s run_id = record {
  run_id = run_id;
  approval = some s.approval;
  dept_id = given s.dept_id;
  command_id = none;
  request_fingerprint = none;
  budget = none;
  read_refresh = none;
  skill_names = [];
}

pub record CreateArgs : Type 0 where
  pub goal : String
  pub run_id : String
  pub dept_id : Option String
  pub source : String
  pub schedule_id : Option String
  pub occurrence_id : Option String
  pub approval : Option ApprovalConfiguration
  pub runtime_budget : Option Value
  pub read_refresh : Option Value
  pub skill_names : List String

created_payload : Session → CreateArgs → CreatedPayload
created_payload s args = record {
  goal = args.goal;
  role = some "root";
  root_session_id = s.session_id;
  parent_session_id = none;
  source = args.source;
  approval = some s.approval;
  dept_id = given args.dept_id;
  skill_names = s.skill_names;
  schedule_id = if args.source == "schedule" then args.schedule_id else none;
  occurrence_id = if args.source == "schedule" then args.occurrence_id else none;
}

-- `{...} if value else {}`: an empty `runtime_budget` or `read_refresh` is left out
abbrev pub unless_empty : Option Value → Option Value
unless_empty (some (Value.obj Fields.end)) = none
unless_empty (some (Value.arr Items.nil)) = none
unless_empty value = value

-- `approval or ApprovalConfiguration()`; a Session exists when it has a version or a status
unfoldable pub create : CreateArgs → Session → Result Session
unfolding distinct run_payload created_payload
create args s =
    if not (s.version == 0) || is_some s.status
    then refused
    else let t = record s {
      dept_id = args.dept_id;
      skill_names = distinct args.skill_names;
      approval = or_default args.approval default_approval;
    } in
      let u = raise (SessionEvent.session_created (created_payload t args)) t in
      ok (
        raise
          (SessionEvent.run_requested (record (run_payload u args.run_id) {
            budget = unless_empty args.runtime_budget;
            read_refresh = unless_empty args.read_refresh;
            skill_names = u.skill_names;
          }))
          u)

-- `_require_existing`, and the status for what follows
abbrev pub existing : Option SessionStatus → (SessionStatus → Result Session) → Result Session
existing none next = refused
existing (some status) next = next status

unfoldable pub cancel : (reason : String) → Session → Result Session
unfolding is_terminal_session is_terminal_run
cancel reason s = existing s.status λ status.
    if is_terminal_session status || is_terminal_run s.run_status
    then refused
    else ok (raise (SessionEvent.run_cancelled s.run_id reason) s)

unfoldable pub append_message : (message : String) → Session → Result Session
unfolding is_terminal_session
append_message message s = existing s.status λ status.
    if is_terminal_session status
    then refused
    else ok (raise (SessionEvent.user_message_appended message) s)

-- CREATED, READY or PAUSED
abbrev pub may_request : SessionStatus → Bool
may_request SessionStatus.created = true
may_request SessionStatus.ready = true
may_request SessionStatus.paused = true
may_request _ = false

abbrev is_non_streaming : Option InteractionMode → Bool
is_non_streaming (some InteractionMode.non_streaming) = true
is_non_streaming _ = false

abbrev is_full_access : Option ApprovalMode → Bool
is_full_access (some ApprovalMode.full_access) = true
is_full_access _ = false

-- the change of mode that `request_run` raises before the run, where one is wanted
unfoldable pub change_mode : Option ApprovalMode → Session → Session
unfolding resolve
change_mode mode s =
    let resolved =
      resolve (or_default s.approval.interaction_mode InteractionMode.streaming) mode in
    if is_some mode
      || (is_non_streaming s.approval.interaction_mode
          && not (is_full_access s.approval.effective_approval_mode))
    then raise
        (SessionEvent.approval_mode_changed
          (record resolved { approval_mode_revision = s.approval.approval_mode_revision + 1 }))
        s
    else s

pub record RequestArgs : Type 0 where
  pub run_id : String
  pub approval_mode : Option ApprovalMode
  pub command_id : Option String
  pub request_fingerprint : Option String
  pub runtime_budget : Option Value
  pub read_refresh : Option Value

unfoldable pub request_run : RequestArgs → Session → Result Session
unfolding change_mode run_payload
request_run args s = existing s.status λ status.
    if may_request status
    then (let t = change_mode args.approval_mode s in
        ok (
          raise
            (SessionEvent.run_requested (record (run_payload t args.run_id) {
              command_id = args.command_id;
              request_fingerprint = args.request_fingerprint;
              budget = unless_empty args.runtime_budget;
              read_refresh = unless_empty args.read_refresh;
              skill_names = t.skill_names;
            }))
            t))
    else refused

unfoldable pub close : (reason : String) → Session → Result Session
unfolding is_terminal_session is_terminal_run
close reason s = existing s.status λ status.
    if is_terminal_session status || not (is_terminal_run s.run_status)
    then refused
    else ok (raise (SessionEvent.session_closed reason) s)

-- PAUSED, RETRY_WAIT or WAITING_FOR_HUMAN
abbrev pub may_resume : SessionStatus → Bool
may_resume SessionStatus.paused = true
may_resume SessionStatus.retry_wait = true
may_resume SessionStatus.waiting_for_human = true
may_resume _ = false

unfoldable pub resume : (run_id : String) → Session → Result Session
unfolding run_payload
resume run_id s = existing s.status λ status.
    if may_resume status
    then ok (raise (SessionEvent.session_resumed (run_payload s run_id)) s)
    else refused

abbrev pub is_waiting : SessionStatus → Bool
is_waiting SessionStatus.waiting_for_human = true
is_waiting _ = false

-- the commands on an approval, which want a Session that waits for a human
abbrev while_waiting : Session → (Session → Session) → Result Session
while_waiting s next =
    existing s.status λ status. if is_waiting status then ok (next s) else refused

unfoldable pub record_human_response :
    ResponsePayload → (terminal : Bool) → Session → Result Session
record_human_response response terminal s = while_waiting s λ t.
    let u = raise (SessionEvent.human_response_recorded response) t in
    if terminal
    then raise (SessionEvent.approval_decided response) u
    else raise (SessionEvent.approval_vote_recorded response) u

unfoldable pub delegate_approval :
    (approval_id from_approver to_approver delegated_by reason : String) → Session → Result Session
delegate_approval approval_id from_approver to_approver delegated_by reason s = while_waiting s (
    raise
      (SessionEvent.approval_delegated approval_id from_approver to_approver delegated_by reason))

unfoldable pub escalate_approval :
    (approval_id : String) (approvers : List String) (escalation_level : ℕ)
    → (escalated_by reason : String) (next_escalation_at : Option ℕ) → Session
    → Result Session
escalate_approval approval_id approvers escalation_level escalated_by reason next_escalation_at s =
    while_waiting s (
      raise (
        SessionEvent.approval_escalated approval_id approvers escalation_level escalated_by reason
          next_escalation_at))

unfoldable pub expire_approval : (approval_id : String) (expired_at : ℕ) → Session → Result Session
expire_approval approval_id expired_at s =
    while_waiting s (raise (SessionEvent.approval_expired approval_id expired_at))

-- A command with its arguments, and how it runs.
pub data Command : Type 0 where
  creates : CreateArgs → Command
  cancels appends_message closes resumes : String → Command
  requests_run : RequestArgs → Command
  records_response : ResponsePayload → (terminal : Bool) → Command
  delegates : (approval_id from_approver to_approver delegated_by reason : String) → Command
  escalates :
      (approval_id : String) (approvers : List String) (escalation_level : ℕ)
      → (escalated_by reason : String) (next_escalation_at : Option ℕ) → Command
  expires : (approval_id : String) (expired_at : ℕ) → Command

unfoldable pub execute : Command → Session → Result Session
execute (creates args) s = create args s
execute (cancels reason) s = cancel reason s
execute (appends_message message) s = append_message message s
execute (closes reason) s = close reason s
execute (resumes run_id) s = resume run_id s
execute (requests_run args) s = request_run args s
execute (records_response response terminal) s = record_human_response response terminal s
execute (delegates a f t d r) s = delegate_approval a f t d r s
execute (escalates a approvers level by r next) s = escalate_approval a approvers level by r next s
execute (expires a at) s = expire_approval a at s
