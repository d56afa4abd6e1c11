-- ===== src/Delivery/Worker/Tests.antt =====
-- Deliveries on a concrete store, one that is answered, one that is interrupted and one whose retry
-- delay is too long, and an event that is published.
use mathlib.Core.Option
use aura_claw.Prelude.{
  length, ℕ, All, ◌+◌, ◌≡◌, refl, ◌⊎◌, true, false, none, some, [], ◌∷◌, arith, option_eq, pair_eq,
  triple_eq, string_eq, nat_eq, Error, Result, ok, err,
}
use aura_claw.Prelude.Dict
use aura_claw.Prelude.Dict.{
  Dict, get-put, get-remove, get-put_self, get-remove_self, put-put_self, dict_laws,
}
use aura_claw.Prelude.Dict.{values}
use aura_claw.Prelude.Text.{take_chars}
use aura_claw.Delivery.Types.{DeliveryJob, ResultSinkConfig}
use aura_claw.Delivery.Types.DeliveryStatus.{attempting, succeeded, reconciling}
use aura_claw.Delivery.Store.{
  list_sinks, create_job, init, renew_claim, begin_side_effect, get_sink, record_attempt,
  mark_reconciling, outcome, attempted, attempt_of,
}
use aura_claw.Delivery.Circuit.{
  acquire, record_result, circuit_snapshot, acquire_sink_circuit, record_sink_circuit_result,
}
use aura_claw.Delivery.Validity.{Valid}
use aura_claw.Contracts.{CanonicalEvent, Visibility}
use aura_claw.Events.Store.{OutboxRecord, Destination, empty_store, stream}
use aura_claw.Events.Relay.{mark_outbox_published}
use aura_claw.Delivery.Worker.Ingest.{
  create_for, create_jobs, sinks_of, create_all, settle, fail_with, on_failure, ingest_record,
}
use aura_claw.Delivery.Worker.Ingested.{HasJob, ingest_record-HasJob}
use aura_claw.Delivery.Worker.{
  Payload, World, Task, Call, Answer, await_call, await_jobs, read_clock, proceed, handle,
}
use aura_claw.Delivery.Worker.Status.{
  write_status, write_event, write_rounds, load_events, mark_task_reconciling,
}
use aura_claw.Delivery.Worker.Deliver.{
  permitted, permitted_by, acquire_for, call_adapter, response_of, call_if_begun, call_sink,
  try_sink, attempt, attempted_with, record_circuit, record_circuit_by, record_for, retry_delay,
  next_attempt, complete, finish, deliver_body, deliver, mark_if_started, mark_if, cancelled_with,
  on_cancel, raise_unless,
}
use aura_claw.Delivery.Worker.Runs.{IsGuarded}
use aura_claw.Delivery.Worker.Calls.{deliver-calls, deliver-Valid}
use aura_claw.Delivery.Worker.Abandoned.{IsAbandoned, IsInterrupted, deliver-IsAbandoned}

abbrev held_job : DeliveryJob
held_job = record {
  delivery_id = "a";
  event_id = "evt_1";
  tenant_id = "t";
  root_session_id = "ses_1";
  session_id = "ses_1";
  run_id = none;
  sink_id = "sink";
  sink_type = "webhook";
  sink_target_ref = "https://example.com";
  payload = [];
  status = attempting;
  attempt_count = 2;
  next_attempt_at = none;
  last_response_summary = none;
  created_at = 1;
  completed_at = none;
  claimed_by = some "worker";
  claim_token = some "tok";
  claim_expires_at = some 20;
  claim_heartbeat_at = some 5;
  side_effect_started_at = none;
  reconciliation_reason = none;
}

abbrev sink : ResultSinkConfig
sink = record {
  sink_id = "sink";
  tenant_id = "t";
  session_id = "ses_1";
  sink_type = "webhook";
  target_ref = "https://example.com";
  event_types = [];
  credential_ref = none;
  enabled = true;
}

abbrev world : Answer → World
world answer = record {
  worker_id = "worker";
  max_attempts = 5;
  base_retry_delay = 1;
  longest_delay = 100000000;
  last_instant = 100000000;
  claim_ttl = 30;
  circuit_failure_threshold = 3;
  circuit_reset_after = 30;
  circuit_probe_ttl = 10;
  adapters = ("webhook", λ i job config. answer) ∷ [];
  others = λ i sh. sh;
  fails = λ i. none;
  clock = λ i. 10 + i;
  clock_again = λ i. 11 + i;
  token = λ i. "probe";
  lease_lost = λ i. false;
  govern = λ past events. ok events;
  sha256_hexdigest = λ s. s;
  isoformat = λ n. "now";
  hex = λ i n. "hex";
  at = λ i n. i;
}

abbrev started_with : (attempt_count : ℕ) → Task
started_with n = record {
  shared = record {
    jobs = record init {
      sinks = (("t", "sink"), sink) ∷ [];
      jobs = ("a", record held_job { attempt_count = n }) ∷ [];
    };
    events = empty_store;
    local_circuit = none;
  };
  tick = 0;
  side_effect_started = false;
  calls = [];
}

abbrev started : Task
started = started_with 2

abbrev done : Answer
done = Answer.answered (record { succeeded = true; retryable = false; summary = "ok" })

run_body : (attempt_count : ℕ) → Answer → Task × Result (Unit {0})
unfolding Dict.get Dict.put Dict.remove string_eq option_eq pair_eq triple_eq nat_eq take_chars
    stream acquire_sink_circuit acquire record_result circuit_snapshot record_sink_circuit_result
    renew_claim get_sink begin_side_effect mark_reconciling outcome attempted attempt_of
    record_attempt await_call await_jobs read_clock proceed handle write_status write_event
    write_rounds load_events mark_task_reconciling permitted permitted_by acquire_for call_adapter
    response_of call_if_begun call_sink try_sink attempt attempted_with record_circuit
    record_circuit_by record_for retry_delay next_attempt complete finish mark_if_started mark_if
    cancelled_with on_cancel raise_unless deliver_body
run_body n answer =
    deliver_body (world answer) (record held_job { attempt_count = n }) (started_with n)

run : (attempt_count : ℕ) → Answer → Task × Result (Unit {0})
unfolding run_body deliver deliver_body mark_if_started mark_if cancelled_with on_cancel
    raise_unless
run n answer = deliver (world answer) (record held_job { attempt_count = n }) (started_with n)

deliver_answered :
    Option.map (λ job. job.status) (Dict.get "a" (run 2 done).0.shared.jobs.jobs) ≡ some succeeded
unfolding run
deliver_answered = refl

deliver_interrupted :
    Option.map (λ job. job.status) (Dict.get "a" (run 2 Answer.interrupted).0.shared.jobs.jobs)
    ≡ some reconciling
unfolding run
deliver_interrupted = refl

-- From some attempt on the retry delay is no `timedelta`: the adapter has been called, and the job
-- still holds its claim.
deliver_overflows :
    (length (run 60 done).0.calls ≡ 1)
    × ((run 60 done).1 ≡ err Error.overflow_error)
    × (Option.map (λ job. job.status) (Dict.get "a" (run 60 done).0.shared.jobs.jobs)
        ≡ some attempting)
unfolding run
deliver_overflows = (refl, refl, refl)

deliver-calls_example :
    let t = (deliver (world done) held_job started).0 in
    (t.calls ≡ []) ⊎ ((call : Call) × (t.calls ≡ call ∷ []) × IsGuarded held_job call)
deliver-calls_example = deliver-calls (world done) held_job started

started-Valid : Valid started.shared.jobs
unfolding values
started-Valid = (
  record {
    held = λ h. (ground arith, ground arith, ground arith);
    free = λ h. ground arith;
    complete = refl;
    attempted_once = (λ h. ground arith, λ h. omega arith);
  },
  tt,
)

deliver-Valid_example : Valid (deliver (world done) held_job started).0.shared.jobs
deliver-Valid_example =
    deliver-Valid (world done) held_job started (λ i sh v. v) (ground arith) started-Valid

is_cancelled : (deliver_body (world Answer.interrupted) held_job started).1 ≡ err Error.cancelled
unfolding run
is_cancelled = refl

is_interrupted :
    IsInterrupted
      (world Answer.interrupted)
      held_job
      (deliver_body (world Answer.interrupted) held_job started).0
unfolding run
is_interrupted = record {
  runs = refl;
  started = refl;
  current = record held_job {
    claim_expires_at = some 40;
    claim_heartbeat_at = some 10;
    side_effect_started_at = some 14;
  };
  stored = refl;
  holds = refl;
  started_at = 14;
  begun = refl;
}

deliver-IsAbandoned_example :
    IsAbandoned held_job (deliver (world Answer.interrupted) held_job started).0.shared.jobs
deliver-IsAbandoned_example =
    deliver-IsAbandoned (world Answer.interrupted) held_job "tok" started refl (λ i sh a. a)
      is_cancelled is_interrupted

abbrev finished : CanonicalEvent Payload
finished = record {
  event_id = "evt_2";
  tenant_id = "t";
  root_session_id = "ses_1";
  session_id = "ses_1";
  run_id = none;
  aggregate_version = 4;
  type = "run.completed";
  occurred_at = 9;
  actor = record { kind = "runtime"; id = "r" };
  correlation_id = "c";
  causation_id = "c";
  visibility = Visibility.user;
  schema_version = 1;
  payload = [];
}

abbrev outbox_record : OutboxRecord Payload
outbox_record = record {
  outbox_id = 7;
  event_id = "evt_2";
  destination = Destination.delivery;
  event = finished;
  published = false;
  publish_attempt = 0;
  claimed_by = none;
  claim_token = none;
  claim_expires_at = none;
  poisoned = false;
}

abbrev subscribed : Task
subscribed = record started {
  shared = record started.shared {
    jobs = record init {
      sinks = (("t", "sink"), record sink { event_types = "run.completed" ∷ [] }) ∷ [];
    };
  };
}

publishes : (ingest_record (world done) outbox_record subscribed).1 ≡ ok true
unfolding ingest_record create_all create_jobs create_for sinks_of settle fail_with on_failure
    list_sinks create_job await_call await_jobs proceed handle mark_outbox_published Dict.get
    Dict.put string_eq
publishes = refl

ingest_record-HasJob_example :
    All
      (HasJob
        (world done)
        finished
        (ingest_record (world done) outbox_record subscribed).0.shared.jobs)
      (list_sinks subscribed.shared.jobs "t" "ses_1" "run.completed")
ingest_record-HasJob_example =
    ingest_record-HasJob (world done) outbox_record subscribed (λ sink i sh h. h) publishes
