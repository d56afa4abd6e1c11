-- ===== src/Session/Tests.antt =====
-- A root Session that is created, recorded, restored and cancelled.
use aura_claw.Prelude.{
  ℕ, ◌+◌, ◌≡◌, refl, ◌≢◌, ◌⊎◌, inr, true, false, none, some, List, [], ◌∷◌, ◌++◌, arith, option_eq,
  pair_eq, triple_eq, string_eq, nat_eq, length, Result, ok, err,
}
use aura_claw.Contracts.{CanonicalEvent, Visibility}
use aura_claw.Session.Types.{
  SessionStatus, RunStatus, InteractionMode, ApprovalMode, ApprovalSource, SessionEvent,
  is_terminal_run,
}
use aura_claw.Session.Aggregate.{Session, empty, apply, raise, from_events, replay}
use aura_claw.Session.Commands.{
  Command, CreateArgs, RequestArgs, create, cancel, close, refused, request_run, execute,
}
use aura_claw.Session.Raises.{run}
use aura_claw.Session.Rebuild.{Recorded, run_rebuild}
use aura_claw.Session.Lifecycle.{cancel_or_close, request_run-full_access, IsCancelled}
use aura_claw.Session.Snapshot.{SnapshotState, snapshot_state, from_snapshot, is_run_end}
use aura_claw.Session.Snapshot.Roundtrip.{IsRootState, IsRootStream, Contiguous, recover}

abbrev args : CreateArgs
args = record {
  goal = "report";
  run_id = "run_1";
  dept_id = none;
  source = "api";
  schedule_id = none;
  occurrence_id = none;
  approval = none;
  runtime_budget = none;
  read_refresh = none;
  skill_names = [];
}

abbrev value_or {ℓ} : {A : Type ℓ} → A → Result A → A
value_or a (ok b) = b
value_or a (err _) = a

started : Session
unfolding create empty string_eq nat_eq
started = value_or (empty "s" "t") (create args (empty "s" "t"))

creates_started : run (Command.creates args ∷ []) (empty "s" "t") ≡ ok started
unfolding run execute create empty started string_eq nat_eq
creates_started = refl

is_pending : started.status ≡ some SessionStatus.pending
unfolding started raise apply
is_pending = refl

runs : started.run_status ≡ some RunStatus.pending
unfolding started raise apply
runs = refl

exists : started.status ≢ none
exists = λ e. ground (arith, is_pending)

started-IsRootState : IsRootState started
unfolding started raise apply is_run_end
started-IsRootState = record {
  root = refl;
  exists = exists;
  rests = refl;
  runs = λ e. ground (arith, runs);
}

event_at : ℕ → SessionEvent → CanonicalEvent SessionEvent
event_at v event = record {
  event_id = "evt";
  tenant_id = "t";
  root_session_id = "s";
  session_id = "s";
  run_id = some "run_1";
  aggregate_version = v;
  type = "session";
  occurred_at = 1;
  actor = record { kind = "user"; id = "ann" };
  correlation_id = "c";
  causation_id = "c";
  visibility = Visibility.user;
  schema_version = 1;
  payload = event;
}

events_from : ℕ → List SessionEvent → List (CanonicalEvent SessionEvent)
unfolding event_at
events_from v [] = []
events_from v (x ∷ xs) = event_at (v + 1) x ∷ events_from (v + 1) xs

abbrev recorded : List (CanonicalEvent SessionEvent)
recorded = events_from 0 started.pending

is_recorded : Recorded "s" "t" 0 started.pending recorded
unfolding started raise apply events_from event_at
is_recorded = (refl, refl, refl, refl, (refl, refl, refl, refl, tt))

run_rebuild_example :
    from_events recorded ≡ ok (record started { version = length started.pending; pending = [] })
run_rebuild_example =
    run_rebuild "s" "t" (Command.creates args ∷ []) recorded creates_started exists is_recorded

abbrev document : SnapshotState
document = record {
  session_id = "s";
  root_session_id = "s";
  tenant_id = "t";
  approval = some started.approval;
  status = SessionStatus.pending;
  run_status = started.run_status;
  goal = started.goal;
  run_id = started.run_id;
  parent_session_id = none;
  role = some started.role;
  result_summary = none;
  result_ref = none;
  artifact_refs = [];
  dependency_ids = [];
  output_contract = some started.output_contract;
  owner = none;
  dept_id = none;
  skill_names = [];
}

is_stored : snapshot_state started ≡ ok document
unfolding snapshot_state started raise apply
is_stored = refl

abbrev said : CanonicalEvent SessionEvent
said = event_at 3 (SessionEvent.user_message_appended "hello")

restored : Session
unfolding started
restored = record started { version = 2; pending = [] }

is_restored : from_events recorded ≡ ok restored
unfolding from_events started raise apply events_from event_at restored string_eq nat_eq
is_restored = refl

is_stored_again : snapshot_state restored ≡ ok document
unfolding snapshot_state started raise apply restored
is_stored_again = refl

is_root_stream : IsRootStream recorded
unfolding started raise apply events_from event_at
is_root_stream = (inr refl, (tt, tt))

follows : Contiguous restored.version (said ∷ [])
unfolding restored event_at
follows = (refl, tt)

recover_example :
    replay (said ∷ []) (from_snapshot document restored.version)
    ≡ from_events (recorded ++ said ∷ [])
recover_example =
    recover recorded (said ∷ []) restored document is_root_stream is_restored is_stored_again
      follows

at_rest : SessionStatus → Session
unfolding empty
at_rest status = record (empty "s" "t") {
  status = some status;
  approval = record {
    effective_approval_mode = none;
    interaction_mode = some InteractionMode.non_streaming;
    approval_mode_source = ApprovalSource.legacy;
    approval_mode_revision = 0;
  };
}

is_closed : (at_rest SessionStatus.closed).status ≡ some SessionStatus.closed
unfolding at_rest
is_closed = refl

is_open : started.status ≢ some SessionStatus.closed
is_open = λ e. ground (arith, is_pending)

cancel_or_close_example :
    (is_terminal_run started.run_status ≡ false
      × ((t : Session) × (cancel "stop" started ≡ ok t) × IsCancelled t)
      × (close "stop" started ≡ refused))
    ⊎ (is_terminal_run started.run_status ≡ true
        × (cancel "stop" started ≡ refused)
        × ((t : Session) × (close "stop" started ≡ ok t) × (t.status ≡ some SessionStatus.closed)))
cancel_or_close_example = cancel_or_close started "stop" started-IsRootState is_open

abbrev by_hand : RequestArgs
by_hand = record {
  run_id = "run_2";
  approval_mode = some ApprovalMode.request_approval;
  command_id = none;
  request_fingerprint = none;
  runtime_budget = none;
  read_refresh = none;
}

rerun : Session
unfolding request_run at_rest
rerun = value_or (empty "s" "t") (request_run by_hand (at_rest SessionStatus.ready))

reruns : request_run by_hand (at_rest SessionStatus.ready) ≡ ok rerun
unfolding request_run at_rest rerun
reruns = refl

has_no_channel :
    (at_rest SessionStatus.ready).approval.interaction_mode ≡ some InteractionMode.non_streaming
unfolding at_rest
has_no_channel = refl

request_run-full_access_example :
    (rerun.approval.interaction_mode ≡ some InteractionMode.non_streaming)
    × (rerun.approval.effective_approval_mode ≡ some ApprovalMode.full_access)
request_run-full_access_example =
    request_run-full_access by_hand (at_rest SessionStatus.ready) rerun has_no_channel reruns
