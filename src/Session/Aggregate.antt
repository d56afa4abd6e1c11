-- ===== src/Session/Aggregate.antt =====
-- SessionAggregate of domain/session.py: its fields, and `apply`, which no event makes fail.
-- `pending` is `_pending`; every event that the commands raise has visibility USER.
use aura_claw.Prelude.{
  ℕ, ◌+◌, String, Bool, ◌||◌, Option, none, some, List, [], ◌∷◌, ◌++◌, if◌then◌else◌, is_some, ◌==◌,
  option_eq, pair_eq, triple_eq, string_eq, nat_eq, Error, Result, ok, err,
}
use aura_claw.Prelude.Text.{strip, is_truthy}
use aura_claw.Contracts.{Value, Fields, CanonicalEvent}
use aura_claw.Session.Types.{
  SessionStatus, RunStatus, ApprovalConfiguration, default_approval, SessionEvent,
}

pub record Session : Type 0 where
  pub session_id : String
  pub root_session_id : String
  pub tenant_id : String
  pub version : ℕ
  pub status : Option SessionStatus
  pub run_status : Option RunStatus
  pub goal : String
  pub run_id : Option String
  pub parent_session_id : Option String
  pub role : String
  pub result_summary : Option String
  pub result_ref : Option String
  pub artifact_refs : List String
  pub dependency_ids : List String
  pub output_contract : Value
  pub owner : Option String
  pub dept_id : Option String
  pub skill_names : List String
  pub approval : ApprovalConfiguration
  pub pending : List SessionEvent

unfoldable pub empty : (session_id tenant_id : String) → Session
empty session_id tenant_id = record {
  session_id = session_id;
  root_session_id = session_id;
  tenant_id = tenant_id;
  version = 0;
  status = none;
  run_status = none;
  goal = "";
  run_id = none;
  parent_session_id = none;
  role = "root";
  result_summary = none;
  result_ref = none;
  artifact_refs = [];
  dependency_ids = [];
  output_contract = Value.obj Fields.end;
  owner = none;
  dept_id = none;
  skill_names = [];
  approval = default_approval;
  pending = [];
}

-- `_optional_str`
unfoldable pub optional_str : Option String → Option String
optional_str none = none
optional_str (some value) = let text = strip value in if is_truthy text then some text else none

abbrev pub or_default {ℓ} : {A : Type ℓ} → Option A → A → A
or_default none d = d
or_default (some a) d = a

abbrev pub is_root : Session → Bool
is_root s = s.role == "root"

abbrev pub both : Session → SessionStatus → RunStatus → Session
both s status run_status = record s { status = some status; run_status = some run_status }

-- PENDING while there are dependencies, RUNNABLE without
abbrev by_dependencies : List String → SessionStatus
by_dependencies [] = SessionStatus.runnable
by_dependencies (_ ∷ _) = SessionStatus.pending

-- the end of a run: a root Session is ready for another
abbrev finished : Session → RunStatus → SessionStatus → Session
finished s run_status child_status =
    both s (if is_root s then SessionStatus.ready else child_status) run_status

-- the branches on `approval.{decision}`
abbrev decided : Session → String → Session
decided s decision =
    if decision == "requested"
    then both s SessionStatus.waiting_for_human RunStatus.waiting_for_human
    else if decision == "approved"
        || decision == "rejected"
        || decision == "expired"
        || decision == "cancelled"
    then both s SessionStatus.runnable RunStatus.runnable
    else s

unfoldable pub apply : SessionEvent → Session → Session
unfolding optional_str
apply (SessionEvent.session_created p) s = record s {
  approval = or_default p.approval s.approval;
  goal = p.goal;
  root_session_id = p.root_session_id;
  parent_session_id = p.parent_session_id;
  role = or_default p.role "root";
  dept_id = optional_str p.dept_id;
  skill_names = p.skill_names;
  status = some SessionStatus.created;
}
apply (SessionEvent.child_created p) s = record s {
  approval = or_default p.approval s.approval;
  goal = p.goal;
  root_session_id = or_default p.root_session_id s.root_session_id;
  parent_session_id = some p.parent_session_id;
  role = p.role;
  dependency_ids = p.dependency_ids;
  output_contract = or_default p.output_contract (Value.obj Fields.end);
  dept_id = if is_some p.dept_id then optional_str p.dept_id else s.dept_id;
  status = some (by_dependencies p.dependency_ids);
}
apply (SessionEvent.run_requested p) s = record s {
  approval = or_default p.approval s.approval;
  run_id = some p.run_id;
  run_status = some RunStatus.pending;
  result_summary = none;
  result_ref = none;
  artifact_refs = [];
  status = if is_root s then some SessionStatus.pending else s.status;
}
apply (SessionEvent.approval_mode_changed approval) s = record s { approval = approval }
apply SessionEvent.run_scheduled s = both s SessionStatus.runnable RunStatus.runnable
apply SessionEvent.run_started s = both s SessionStatus.running RunStatus.running
apply SessionEvent.session_paused s = both s SessionStatus.paused RunStatus.paused
apply SessionEvent.approval_requested s =
    both s SessionStatus.waiting_for_human RunStatus.waiting_for_human
apply (SessionEvent.approval_decided p) s = decided s p.decision
apply (SessionEvent.approval_expired _ _) s = both s SessionStatus.runnable RunStatus.runnable
apply SessionEvent.run_retry_scheduled s = both s SessionStatus.retry_wait RunStatus.retry_wait
apply (SessionEvent.session_resumed p) s =
    both (record s { approval = or_default p.approval s.approval; run_id = some p.run_id })
      SessionStatus.pending RunStatus.pending
apply (SessionEvent.run_completed p) s =
    finished
      (record s {
        result_summary = p.result_summary;
        result_ref = p.result_ref;
        artifact_refs = p.artifact_refs;
      })
      RunStatus.completed SessionStatus.completed
apply (SessionEvent.dependency_changed ids) s = record s {
  dependency_ids = ids;
  status = some (by_dependencies ids);
}
apply (SessionEvent.child_delegated owner) s = record s { owner = some owner }
apply (SessionEvent.session_handed_off owner) s = record s { owner = some owner }
apply (SessionEvent.child_result_published p) s = record s {
  result_summary = p.result_summary;
  result_ref = p.result_ref;
  artifact_refs = p.artifact_refs;
  status = some SessionStatus.completed;
}
apply (SessionEvent.review_completed decision target) s = record s {
  result_summary = decision;
  result_ref = target;
  status = some SessionStatus.completed;
}
apply SessionEvent.run_failed s = finished s RunStatus.failed SessionStatus.failed
apply (SessionEvent.run_cancelled _ _) s = finished s RunStatus.cancelled SessionStatus.cancelled
apply SessionEvent.runtime_failed s = both s SessionStatus.retry_wait RunStatus.retry_wait
apply SessionEvent.runtime_reprovisioned s = both s SessionStatus.runnable RunStatus.runnable
apply SessionEvent.run_terminated s = finished s RunStatus.failed SessionStatus.failed
apply (SessionEvent.session_closed _) s = record s { status = some SessionStatus.closed }
apply _ s = s

-- `_raise`
unfoldable pub raise : SessionEvent → Session → Session
unfolding apply
raise event s = let t = apply event s in record t { pending = t.pending ++ event ∷ [] }

-- the state that is left, and what is released
unfoldable pub release_pending_events : Session → Session × List SessionEvent
release_pending_events s = (record s { pending = [] }, s.pending)

-- the loop of `from_events`, which takes each event's version as it is
unfoldable pub restore : List (CanonicalEvent SessionEvent) → Session → Session
restore [] s = s
restore (event ∷ rest) s =
    restore rest (record (apply event.payload s) { version = event.aggregate_version })

unfoldable pub from_events : List (CanonicalEvent SessionEvent) → Result Session
unfolding restore empty
from_events [] = err Error.value_error
from_events (first ∷ rest) = ok (restore (first ∷ rest) (empty first.session_id first.tenant_id))

unfoldable pub replay : List (CanonicalEvent SessionEvent) → Session → Result Session
replay [] s = ok s
replay (event ∷ rest) s =
    let done = replay rest (record (apply event.payload s) { version = event.aggregate_version }) in
    if event.aggregate_version == s.version + 1 then done else err Error.value_error
