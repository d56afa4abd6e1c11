-- ===== src/Delivery/Store.antt =====
-- InMemoryDeliveryJobStore of infrastructure/delivery/memory_job_store.py: sinks, jobs, claims and
-- attempts. Each method holds the store's lock, so it is one step. `now` is the clock's reading.
pub mod Claims
use aura_claw.Prelude.{
  ℕ, zero, suc, ◌+◌, ◌-◌, ◌*◌, ◌≤◌, ◌<◌, max, min, String, ◌<>◌, ◌≡◌, refl, sym, ap, ◌∙◌, subst,
  ◌≢◌, ◌↔◌, ◌⊎◌, inl, inr, Bool, true, false, not, ◌&&◌, ◌||◌, Option, none, some, List, [], ◌∷◌,
  ◌++◌, map, arith, ltb, leb, if◌then◌else◌, leb→le, leb_false→lt, le→leb, ltb→lt, lt→ltb,
  Bool-cases, Option-cases, &&-eq-true, is_some, Eq, ◌==◌, contains, option_eq, pair_eq, triple_eq,
  string_eq, nat_eq, ==_refl, ==→eq, length, take, any, all, select, find, count_where,
  length-append, count_where-append, length-take_le, All, All-append, Error, Result, ok, err, ◌>>=◌,
  ◌>>◌,
}
use aura_claw.Prelude.Dict
use aura_claw.Prelude.Dict.{
  Dict, get-put, get-remove, get-put_self, get-remove_self, put-put_self, dict_laws,
}
use aura_claw.Prelude.Text.{take_chars}
use aura_claw.Contracts.{CanonicalEvent, Value}
use aura_claw.Delivery.Types.{
  DeliveryStatus, ResultSinkConfig, DeliveryJob, DeliveryAttempt, SinkResponse, CircuitState,
  build_delivery_job,
}
use aura_claw.Delivery.Types.DeliveryStatus.{
  pending, attempting, retry_wait, succeeded, failed, dead_lettered, reconciling,
}

pub record MemoryCircuit : Type 0 where
  pub state : CircuitState
  pub failure_count : ℕ
  pub open_until : Option ℕ
  pub generation : ℕ
  pub probe_owner : Option String
  pub probe_token : Option String
  pub probe_expires_at : Option ℕ

pub record JobStore : Type 0 where
  pub sinks : Dict (String × String) ResultSinkConfig
  pub jobs : Dict String DeliveryJob
  pub attempts : List DeliveryAttempt
  pub circuits : Dict (String × String) MemoryCircuit

abbrev pub init : JobStore
init = record { sinks = []; jobs = []; attempts = []; circuits = [] }

abbrev pub set_job : JobStore → String → DeliveryJob → JobStore
set_job s key job = record s { jobs = Dict.put key job s.jobs }

unfoldable pub register_sink : JobStore → ResultSinkConfig → JobStore
register_sink s sink = record s { sinks = Dict.put (sink.tenant_id, sink.sink_id) sink s.sinks }

unfoldable pub get_sink : JobStore → String → String → Option ResultSinkConfig
get_sink s tenant_id sink_id = Dict.get (tenant_id, sink_id) s.sinks

unfoldable pub list_sinks : JobStore → String → String → String → List ResultSinkConfig
list_sinks s tenant_id session_id event_type = go s.sinks
  where
    go : Dict (String × String) ResultSinkConfig → List ResultSinkConfig
    go [] = []
    go (((item_tenant, _), sink) ∷ rest) =
        let more = go rest in
        if item_tenant == tenant_id
          && sink.session_id == session_id
          && sink.enabled
          && contains sink.event_types event_type
        then sink ∷ more
        else more

module _ (sha256_hexdigest : String → String) (isoformat : ℕ → String) where
  -- `setdefault`: a job that is there is kept.
  unfoldable pub create_job :
      JobStore
      → CanonicalEvent (Dict String Value)
      → ResultSinkConfig
      → (now created : ℕ) → JobStore × DeliveryJob
  create_job s event sink now created =
      let job = build_delivery_job sha256_hexdigest isoformat event sink now created in
      elim (Dict.get job.delivery_id s.jobs) [
        | some old ↦ (s, old)
        | none ↦ (set_job s job.delivery_id job, job)
      ]

-- `expires_at is not None and expires_at > now`
abbrev pub is_live : Option ℕ → ℕ → Bool
is_live none now = false
is_live (some t) now = ltb now t

abbrev pub is_attempting : DeliveryStatus → Bool
is_attempting attempting = true
is_attempting _ = false

-- the caller holds the claim that the stored job has
abbrev pub same_claim : DeliveryJob → DeliveryJob → Bool
same_claim current job =
    current.claimed_by == job.claimed_by && current.claim_token == job.claim_token

unfoldable pub renew_claim : JobStore → DeliveryJob → (claim_ttl now : ℕ) → JobStore × Bool
renew_claim s job claim_ttl now = elim (Dict.get job.delivery_id s.jobs) [
  | none ↦ (s, false)
  | some current ↦
      if same_claim current job
        && is_live current.claim_expires_at now
        && is_attempting current.status
      then (
        set_job s job.delivery_id (record current {
          claim_expires_at = some (now + claim_ttl);
          claim_heartbeat_at = some now;
        }),
        true,
      )
      else (s, false)
]

unfoldable pub begin_side_effect : JobStore → DeliveryJob → (now : ℕ) → JobStore × Bool
begin_side_effect s job now = elim (Dict.get job.delivery_id s.jobs) [
  | none ↦ (s, false)
  | some current ↦
      if same_claim current job
        && is_live current.claim_expires_at now
        && is_attempting current.status
      then (set_job s job.delivery_id (record current { side_effect_started_at = some now }), true)
      else (s, false)
]

abbrev has_started : Option ℕ → Bool
has_started none = false
has_started (some _) = true

unfoldable pub mark_reconciling : JobStore → DeliveryJob → (reason : String) → JobStore × Bool
mark_reconciling s job reason = elim (Dict.get job.delivery_id s.jobs) [
  | none ↦ (s, false)
  | some current ↦
      if same_claim current job && has_started current.side_effect_started_at
      then (
        set_job s job.delivery_id (record current {
          status = reconciling;
          reconciliation_reason = some (take_chars 128 reason);
          claimed_by = none;
          claim_token = none;
          claim_expires_at = none;
        }),
        true,
      )
      else (s, false)
]

-- the status that a response gives a job, by its attempts so far
unfoldable pub outcome : SinkResponse → (attempt_count max_attempts : ℕ) → DeliveryStatus
outcome response attempt_count max_attempts =
    if response.succeeded
    then succeeded
    else if response.retryable && ltb attempt_count max_attempts
    then retry_wait
    else if response.retryable
    then dead_lettered
    else failed

abbrev pub is_retry_wait : DeliveryStatus → Bool
is_retry_wait retry_wait = true
is_retry_wait _ = false

abbrev pub is_final : DeliveryStatus → Bool
is_final succeeded = true
is_final failed = true
is_final dead_lettered = true
is_final _ = false

module _ (response : SinkResponse) (next_attempt_at : Option ℕ) (completed_at : ℕ) where
  unfoldable pub attempted : DeliveryJob → DeliveryStatus → DeliveryJob
  attempted current status = record current {
    status = status;
    next_attempt_at = if is_retry_wait status then next_attempt_at else none;
    last_response_summary = some (take_chars 2000 response.summary);
    completed_at = if is_final status then some completed_at else none;
    claimed_by = none;
    claim_token = none;
    claim_expires_at = none;
    claim_heartbeat_at = none;
  }

  unfoldable pub attempt_of : String → DeliveryJob → DeliveryStatus → DeliveryAttempt
  attempt_of delivery_id current status = record {
    delivery_id = delivery_id;
    attempt_number = current.attempt_count;
    started_at = completed_at;
    completed_at = completed_at;
    outcome = status;
    response_summary = take_chars 2000 response.summary;
    retryable = response.retryable;
  }

  unfoldable pub record_attempt :
      JobStore → DeliveryJob → (max_attempts : ℕ) → JobStore × Result DeliveryJob
  unfolding attempted attempt_of outcome
  record_attempt s job max_attempts = elim (Dict.get job.delivery_id s.jobs) [
    | none ↦ (s, err Error.runtime_error)
    | some current ↦
        if same_claim current job && is_live current.claim_expires_at completed_at
        then (let status = outcome response current.attempt_count max_attempts in
            let updated = attempted current status in
            (
              record s {
                jobs = Dict.put job.delivery_id updated s.jobs;
                attempts = s.attempts ++ attempt_of job.delivery_id current status ∷ [];
              },
              ok updated,
            ))
        else (s, err Error.runtime_error)
  ]

unfoldable pub get_job : JobStore → String → String → Option DeliveryJob
get_job s tenant_id delivery_id = elim (Dict.get delivery_id s.jobs) [
  | none ↦ none
  | some job ↦ if job.tenant_id == tenant_id then some job else none
]

unfoldable pub list_jobs : JobStore → String → String → List DeliveryJob
unfolding Dict.values
list_jobs s tenant_id session_id =
    select (λ job. job.tenant_id == tenant_id && job.session_id == session_id) (Dict.values s.jobs)

unfoldable pub attempts_of : JobStore → String → List DeliveryAttempt
attempts_of s delivery_id = select (λ attempt. attempt.delivery_id == delivery_id) s.attempts

-- `token` is the fresh `uuid4().hex`.
unfoldable pub begin_redelivery :
    JobStore
    → (tenant_id delivery_id worker_id token : String) → (claim_ttl now : ℕ)
    → JobStore × Option DeliveryJob
begin_redelivery s tenant_id delivery_id worker_id token claim_ttl now =
    elim (Dict.get delivery_id s.jobs) [
      | none ↦ (s, none)
      | some job ↦
          if job.tenant_id == tenant_id
          then (let updated = record job {
            status = attempting;
            attempt_count = job.attempt_count + 1;
            next_attempt_at = none;
            completed_at = none;
            claimed_by = some worker_id;
            claim_token = some token;
            claim_expires_at = some (now + claim_ttl);
            claim_heartbeat_at = some now;
            side_effect_started_at = none;
            reconciliation_reason = none;
          } in
              (set_job s delivery_id updated, some updated))
          else (s, none)
    ]
