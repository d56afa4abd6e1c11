-- ===== src/Delivery/Tests.antt =====
-- Delivery on concrete stores: a job that is claimed, attempted and recorded, and a circuit that
-- opens and probes.
use aura_claw.Prelude.{
  ℕ, ◌≤◌, max, String, ◌≡◌, refl, true, false, none, some, List, [], ◌∷◌, arith, ltb, if◌then◌else◌,
  map, option_eq, pair_eq, triple_eq, string_eq, nat_eq, length, count_where, All, Error, ok, err,
}
use aura_claw.Prelude.Dict
use aura_claw.Prelude.Dict.{values}
use aura_claw.Prelude.Dict.{
  Dict, get-put, get-remove, get-put_self, get-remove_self, put-put_self, dict_laws,
}
use aura_claw.Contracts.{CanonicalEvent, Value, Visibility}
use aura_claw.Delivery.Types.{DeliveryJob, ResultSinkConfig, SinkResponse, build_delivery_job}
use aura_claw.Delivery.Types.DeliveryStatus.{pending, attempting, succeeded, retry_wait}
use aura_claw.Delivery.Types.CircuitState.{closed, open_circuit, half_open}
use aura_claw.Delivery.Store.{
  JobStore, MemoryCircuit, init, register_sink, create_job, renew_claim, begin_side_effect,
  record_attempt, outcome, attempted,
}
use aura_claw.Delivery.Store.Claims.{Holds, record_attempt_once}
use aura_claw.Delivery.Claim.{claim_due, claim_jobs, scan, visit, claimed, active_jobs}
use aura_claw.Prelude.Text.{take_chars}
use aura_claw.Delivery.Claim.Fairness.{
  claimed_from, of_tenant, IsDue, IsHead, claim_due_bounded, claim_due_in_order,
}
use aura_claw.Delivery.Claim.Oldest.{IsOldest}
use aura_claw.Delivery.Circuit.{
  acquire, record_result, new_circuit, acquire_sink_circuit, record_sink_circuit_result,
}
use aura_claw.Delivery.Circuit.Breaker
use aura_claw.Delivery.Circuit.Breaker.{
  circuit_steps-IsValid, probe_exclusive, opens_at_threshold, record_all, IsFailure,
}
use aura_claw.Delivery.Validity.{Valid, Reachable-Valid}
use aura_claw.Delivery.Validity.Reachable.{starts, steps}
use aura_claw.Delivery.Validity.Step.{
  creates, claims, begins, records, registers, acquires, records_circuit,
}
use text.Mathlib.TextEquality.{eq_iff}

abbrev job_of : String → String → DeliveryJob
job_of id tenant = record {
  delivery_id = id;
  event_id = "evt_1";
  tenant_id = tenant;
  root_session_id = "ses_1";
  session_id = "ses_1";
  run_id = none;
  sink_id = "sink";
  sink_type = "webhook";
  sink_target_ref = "https://example.com";
  payload = [];
  status = pending;
  attempt_count = 0;
  next_attempt_at = none;
  last_response_summary = none;
  created_at = 1;
  completed_at = none;
  claimed_by = none;
  claim_token = none;
  claim_expires_at = none;
  claim_heartbeat_at = none;
  side_effect_started_at = none;
  reconciliation_reason = none;
}

abbrev waiting : JobStore
waiting = record init { jobs = ("a", job_of "a" "t") ∷ ("b", job_of "b" "u") ∷ [] }

abbrev held_job : DeliveryJob
held_job = record (job_of "a" "t") {
  status = attempting;
  attempt_count = 1;
  claimed_by = some "worker";
  claim_token = some "tok";
  claim_expires_at = some 20;
}

abbrev held : JobStore
held = record init { jobs = ("a", held_job) ∷ [] }

abbrev done : SinkResponse
done = record { succeeded = true; retryable = false; summary = "ok" }

abbrev refused_then : SinkResponse
refused_then = record { succeeded = false; retryable = true; summary = "503" }

abbrev refused_for_good : SinkResponse
refused_for_good = record { succeeded = false; retryable = false; summary = "400" }

abbrev tokens : ℕ → String
tokens i = "tok"

held-Holds : Holds held held_job 10
unfolding Dict.get string_eq
held-Holds = record {
  current = held_job;
  stored = refl;
  owner = refl;
  token = refl;
  expires_at = 20;
  expires = refl;
  live = omega arith;
}

attempt_succeeds :
    (record_attempt done none 10 held held_job 3).1 ≡ ok (attempted done none 10 held_job succeeded)
unfolding record_attempt outcome Dict.get string_eq option_eq
attempt_succeeds = refl

too_late : (record_attempt done none 30 held held_job 3).1 ≡ err Error.runtime_error
unfolding record_attempt Dict.get string_eq option_eq
too_late = refl

record_attempt_once_example :
    let s = (record_attempt done none 10 held held_job 3).0 in
    (record_attempt refused_then none 12 s held_job 3 ≡ (s, err Error.runtime_error))
    × (renew_claim s held_job 30 12 ≡ (s, false))
    × (begin_side_effect s held_job 12 ≡ (s, false))
record_attempt_once_example =
    record_attempt_once held held_job done refused_then none none 10 12 30 3 attempt_succeeds

claim_due_bounded_example :
    let jobs = (claim_due "worker" 30 5 tokens 2 (some 1) waiting).1 in
    (length jobs ≤ max 2 1) × (count_where (of_tenant "t") jobs ≤ 1)
claim_due_bounded_example = claim_due_bounded "worker" 30 5 tokens 2 1 "t" waiting

claim_due_in_order_example :
    (due : List DeliveryJob) × ((claim_due "worker" 30 5 tokens 2 none waiting).1
      ≡ claimed_from "worker" 30 5 tokens 0 due)
    × All (IsDue 5) due
    × All (IsHead (active_jobs waiting)) due
    × All (IsOldest waiting) due
claim_due_in_order_example = claim_due_in_order "worker" 30 5 tokens 2 none waiting

abbrev sink : ResultSinkConfig
sink = record {
  sink_id = "sink";
  tenant_id = "t";
  session_id = "ses_1";
  sink_type = "webhook";
  target_ref = "https://example.com";
  event_types = [];
  credential_ref = none;
  enabled = true;
}

abbrev run_completed : CanonicalEvent (Dict String Value)
run_completed = record {
  event_id = "evt_1";
  tenant_id = "t";
  root_session_id = "ses_1";
  session_id = "ses_1";
  run_id = none;
  aggregate_version = 3;
  type = "run.completed";
  occurred_at = 1;
  actor = record { kind = "user"; id = "ann" };
  correlation_id = "c";
  causation_id = "cmd_1";
  visibility = Visibility.user;
  schema_version = 1;
  payload = [];
}

-- a sink is registered, a job is made for it and claimed, its call begins and is refused
abbrev created : JobStore
created = (create_job (λ s. s) (λ n. "now") (register_sink init sink) run_completed sink 1 2).0

abbrev claimed_job : DeliveryJob
claimed_job =
    claimed "worker" 30 5 (build_delivery_job (λ s. s) (λ n. "now") run_completed sink 1 2) "tok"

abbrev called : JobStore
called = (begin_side_effect (claim_due "worker" 30 5 tokens 2 none created).0 claimed_job 6).0

abbrev told : JobStore
told =
    (record_sink_circuit_result (acquire_sink_circuit called "t" "sink" "worker" "probe" 10 6).0 "t"
      "sink" refused_then 3 60 none 7).0

retried :
    map
      (λ job. job.status)
      (values (record_attempt refused_then (some 9) 7 told claimed_job 3).0.jobs)
    ≡ retry_wait ∷ []
unfolding record_attempt acquire_sink_circuit record_sink_circuit_result begin_side_effect claim_due
    claimed build_delivery_job create_job register_sink values Dict.get Dict.put string_eq option_eq
    claim_jobs scan visit active_jobs take_chars
retried = refl

Reachable-Valid_example : Valid (record_attempt refused_then (some 9) 7 told claimed_job 3).0
Reachable-Valid_example = Reachable-Valid (
    steps
      (steps
        (steps
          (steps
            (steps
              (steps (steps starts (registers init sink))
                (creates (λ s. s) (λ n. "now") (register_sink init sink) run_completed sink 1 2))
              (claims "worker" 30 5 tokens 2 none created))
            (begins (claim_due "worker" 30 5 tokens 2 none created).0 claimed_job 6))
          (acquires called "t" "sink" "worker" "probe" 10 6))
        (records_circuit (acquire_sink_circuit called "t" "sink" "worker" "probe" 10 6).0 "t" "sink"
          refused_then 3 60 none 7))
      (records told claimed_job refused_then (some 9) 7 3))

abbrev tripped : MemoryCircuit
tripped = record new_circuit {
  state = open_circuit;
  failure_count = 3;
  open_until = some 100;
  generation = 1;
}

new-IsValid : Breaker.IsValid new_circuit
new-IsValid = record {
  closed_idle = λ e. (refl, refl);
  open_waits = λ e. cc;
  probe_owned = λ e. cc;
  probe_ends = λ e. cc;
}

circuit_steps-IsValid_example :
    Breaker.IsValid (acquire new_circuit "w" "tok" 10 5).0
    × Breaker.IsValid (record_result new_circuit refused_then 1 60 none 5)
circuit_steps-IsValid_example =
    circuit_steps-IsValid new_circuit "w" "tok" refused_then 1 60 10 5 none new-IsValid

probes : (acquire tripped "w" "tok" 10 200).1.state ≡ half_open
unfolding acquire
probes = refl

is_allowed : (acquire tripped "w" "tok" 10 200).1.allowed ≡ true
unfolding acquire
is_allowed = refl

probe_exclusive_example :
    let c = (acquire tripped "w" "tok" 10 200).0 in
    ((acquire c "v" "kot" 10 205).0 ≡ c)
    × ((acquire c "v" "kot" 10 205).1.allowed ≡ false)
    × (record_result c done 3 60 (some "kot") 205 ≡ c)
probe_exclusive_example =
    probe_exclusive tripped "w" "v" "tok" "kot" done 3 60 10 10 200 205 probes is_allowed
      (omega arith) (ground (arith, eq_iff "tok" "kot"))

opens_at_threshold_example :
    (record_all 2 60
      ((refused_then, 1) ∷ (refused_for_good, 2) ∷ (refused_then, 3) ∷ [])
      new_circuit).state
    ≡ (if ltb 2 2 then closed else open_circuit)
opens_at_threshold_example =
    opens_at_threshold 2 60 ((refused_then, 1) ∷ (refused_for_good, 2) ∷ (refused_then, 3) ∷ [])
      (omega arith) (refl, (refl, (refl, tt)))
