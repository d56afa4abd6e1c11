-- ===== src/Session/Snapshot.antt =====
-- `snapshot_state` and `from_snapshot` of SessionAggregate. The stored document is a record; a key
-- that may be absent is an Option, or the empty list.
pub mod Roundtrip
use aura_claw.Prelude.{
  ℕ, zero, suc, ◌+◌, ◌-◌, ◌*◌, ◌≤◌, ◌<◌, max, min, String, ◌<>◌, ◌≡◌, refl, sym, ap, ◌∙◌, subst,
  ◌≢◌, ◌↔◌, ◌⊎◌, inl, inr, Bool, true, false, not, ◌&&◌, ◌||◌, Option, none, some, List, [], ◌∷◌,
  ◌++◌, map, arith, ltb, leb, if◌then◌else◌, leb→le, leb_false→lt, le→leb, ltb→lt, lt→ltb,
  Bool-cases, Option-cases, &&-eq-true, is_some, Eq, ◌==◌, contains, option_eq, pair_eq, triple_eq,
  string_eq, nat_eq, ==_refl, ==→eq, length, take, any, all, select, find, count_where,
  length-append, count_where-append, length-take_le, All, All-append, All-select, Error, Result, ok,
  err, ◌>>=◌, ◌>>◌, ok-injective, >>=-eq-ok,
}
use aura_claw.Prelude.Dict
use aura_claw.Prelude.Dict.{
  Dict, get-put, get-remove, get-put_self, get-remove_self, put-put_self, dict_laws,
}
use aura_claw.Contracts.{Value, Fields}
use aura_claw.Session.Types.{SessionStatus, RunStatus, ApprovalConfiguration, default_approval}
use aura_claw.Session.Aggregate.{Session, or_default}

pub record SnapshotState : Type 0 where
  pub session_id : String
  pub root_session_id : String
  pub tenant_id : String
  pub approval : Option ApprovalConfiguration
  pub status : SessionStatus
  pub run_status : Option RunStatus
  pub goal : String
  pub run_id : Option String
  pub parent_session_id : Option String
  pub role : Option String
  pub result_summary : Option String
  pub result_ref : Option String
  pub artifact_refs : List String
  pub dependency_ids : List String
  pub output_contract : Option Value
  pub owner : Option String
  pub dept_id : Option String
  pub skill_names : List String

unfoldable pub snapshot_state : Session → Result SnapshotState
snapshot_state s = elim s.status [
  | none ↦ err Error.invalid_transition
  | some status ↦ ok record {
    session_id = s.session_id;
    root_session_id = s.root_session_id;
    tenant_id = s.tenant_id;
    approval = some s.approval;
    status = status;
    run_status = s.run_status;
    goal = s.goal;
    run_id = s.run_id;
    parent_session_id = s.parent_session_id;
    role = some s.role;
    result_summary = s.result_summary;
    result_ref = s.result_ref;
    artifact_refs = s.artifact_refs;
    dependency_ids = s.dependency_ids;
    output_contract = some s.output_contract;
    owner = s.owner;
    dept_id = s.dept_id;
    skill_names = s.skill_names;
  }
]

-- the Run status with the value of a Session status, where there is one
unfoldable pub same_value : SessionStatus → Option RunStatus
same_value SessionStatus.pending = some RunStatus.pending
same_value SessionStatus.runnable = some RunStatus.runnable
same_value SessionStatus.running = some RunStatus.running
same_value SessionStatus.waiting_for_human = some RunStatus.waiting_for_human
same_value SessionStatus.paused = some RunStatus.paused
same_value SessionStatus.retry_wait = some RunStatus.retry_wait
same_value SessionStatus.completed = some RunStatus.completed
same_value SessionStatus.failed = some RunStatus.failed
same_value SessionStatus.cancelled = some RunStatus.cancelled
same_value _ = none

-- COMPLETED, FAILED or CANCELLED, which a root Session's older snapshots hold for READY
unfoldable pub is_run_end : SessionStatus → Bool
is_run_end SessionStatus.completed = true
is_run_end SessionStatus.failed = true
is_run_end SessionStatus.cancelled = true
is_run_end _ = false

unfoldable pub from_snapshot : SnapshotState → (version : ℕ) → Session
unfolding same_value is_run_end
from_snapshot state version = record {
  session_id = state.session_id;
  root_session_id = state.root_session_id;
  tenant_id = state.tenant_id;
  version = version;
  status = some (
      if or_default state.role "root" == "root" && is_run_end state.status
      then SessionStatus.ready
      else state.status);
  run_status = if is_some state.run_status then state.run_status else same_value state.status;
  goal = state.goal;
  run_id = state.run_id;
  parent_session_id = state.parent_session_id;
  role = or_default state.role "root";
  result_summary = state.result_summary;
  result_ref = state.result_ref;
  artifact_refs = state.artifact_refs;
  dependency_ids = state.dependency_ids;
  output_contract = or_default state.output_contract (Value.obj Fields.end);
  owner = state.owner;
  dept_id = state.dept_id;
  skill_names = state.skill_names;
  approval = or_default state.approval default_approval;
  pending = [];
}
