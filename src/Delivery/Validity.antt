-- ===== src/Delivery/Validity.antt =====
-- Proofs about the stores that the methods of InMemoryDeliveryJobStore reach.
use aura_claw.Prelude.{
  ℕ, ◌+◌, ◌<◌, String, ◌≡◌, ◌≢◌, inl, inr, true, false, Option, none, some, List, [], ◌∷◌, arith,
  Bool-cases, Option-cases, is_some, option_eq, pair_eq, triple_eq, string_eq, nat_eq, All,
  All-append, All-select,
}
use aura_claw.Prelude.Dict
use aura_claw.Prelude.Dict.{
  Dict, get-put, get-remove, get-put_self, get-remove_self, put-put_self, dict_laws,
}
use aura_claw.Prelude.Dict.{values, All-put, All-get}
use aura_claw.Prelude.Sort.{All-sort}
use aura_claw.Prelude.Text.{take_chars}
use aura_claw.Contracts.{CanonicalEvent, Value}
use aura_claw.Delivery.Types.{DeliveryJob, ResultSinkConfig, SinkResponse, build_delivery_job}
use aura_claw.Delivery.Types.DeliveryStatus.{pending, reconciling}
use aura_claw.Delivery.Store.{
  JobStore, init, set_job, register_sink, create_job, renew_claim, begin_side_effect,
  mark_reconciling, outcome, attempted, record_attempt, begin_redelivery, is_final, is_attempting,
}
use aura_claw.Delivery.Circuit.{acquire_sink_circuit, record_sink_circuit_result}
use aura_claw.Delivery.Claim.{
  is_active, Scan, start, visit, scan, claimed, claim_jobs, claim_due, active_jobs,
}

-- A job is claimed exactly while it is attempted, is complete exactly in a final status, and has
-- been attempted in every status but PENDING.
pub record IsValid (job : DeliveryJob) : Type 0 where
  pub held :
      is_attempting job.status ≡ true
      → (job.claimed_by ≢ none) × (job.claim_token ≢ none) × (job.claim_expires_at ≢ none)
  pub free :
      is_attempting job.status ≡ false
      → (job.claimed_by ≡ none) × (job.claim_token ≡ none) × (job.claim_expires_at ≡ none)
  pub complete : is_final job.status ≡ is_some job.completed_at
  pub attempted_once :
      (job.status ≡ pending → job.attempt_count ≡ 0)
      × (job.status ≢ pending → 0 < job.attempt_count)

abbrev pub Valid : JobStore → Type 0
Valid s = All IsValid (values s.jobs)

module _ (s : JobStore) (v : Valid s) (key : String) where
  set-Valid : (job : DeliveryJob) → IsValid job → Valid (set_job s key job)
  set-Valid job j = All-put IsValid key job s.jobs j v

  -- a method that looks a job up and writes it back
  update-Valid :
      {A : Type 0} (f : Option DeliveryJob → JobStore × A)
      → ((f none).0 ≡ s)
      → ((job : DeliveryJob) → IsValid job → Valid (f (some job)).0)
      → Valid (f (Dict.get key s.jobs)).0
  update-Valid f absent present = elim (Option-cases (Dict.get key s.jobs)) [
    | inl e ↦ rw e (rw absent v)
    | inr (job, e) ↦ rw e (present job (All-get IsValid key job s.jobs v e))
  ]

module _ (s : JobStore) (v : Valid s) (job : DeliveryJob) where
  pub renew_claim-Valid : (claim_ttl now : ℕ) → Valid (renew_claim s job claim_ttl now).0
  unfolding renew_claim
  renew_claim-Valid ttl now = elim (Option-cases (Dict.get job.delivery_id s.jobs)) [
    | inl e ↦ rw (e, renew_claim) v
    | inr (current, e) ↦
        let j = All-get IsValid job.delivery_id current s.jobs v e in
        let new = record current {
          claim_expires_at = some (now + ttl);
          claim_heartbeat_at = some now;
        } in
        rw (e, renew_claim) (ground (arith, v, set-Valid s v job.delivery_id new))
  ]

  pub begin_side_effect-Valid : (now : ℕ) → Valid (begin_side_effect s job now).0
  unfolding begin_side_effect
  begin_side_effect-Valid now = elim (Option-cases (Dict.get job.delivery_id s.jobs)) [
    | inl e ↦ rw (e, begin_side_effect) v
    | inr (current, e) ↦
        let j = All-get IsValid job.delivery_id current s.jobs v e in
        let new = record current { side_effect_started_at = some now } in
        rw (e, begin_side_effect) (ground (arith, v, set-Valid s v job.delivery_id new))
  ]

  pub mark_reconciling-Valid :
      (reason : String) → job.claim_token ≢ none → Valid (mark_reconciling s job reason).0
  unfolding mark_reconciling
  mark_reconciling-Valid reason t = elim (Option-cases (Dict.get job.delivery_id s.jobs)) [
    | inl e ↦ rw (e, mark_reconciling) v
    | inr (current, e) ↦
        let j = All-get IsValid job.delivery_id current s.jobs v e in
        let new = record current {
          status = reconciling;
          reconciliation_reason = some (take_chars 128 reason);
          claimed_by = none;
          claim_token = none;
          claim_expires_at = none;
        } in
        rw (e, mark_reconciling) (ground (arith, v, set-Valid s v job.delivery_id new))
  ]

  pub record_attempt-Valid :
      (response : SinkResponse) (next_attempt_at : Option ℕ) (now max_attempts : ℕ)
      → Valid (record_attempt response next_attempt_at now s job max_attempts).0
  unfolding record_attempt
  record_attempt-Valid r n now m = elim (Option-cases (Dict.get job.delivery_id s.jobs)) [
    | inl e ↦ rw (e, record_attempt) v
    | inr (current, e) ↦
        let j = All-get IsValid job.delivery_id current s.jobs v e in
        let new = attempted r n now current (outcome r current.attempt_count m) in
        rw (e, record_attempt) (ground (arith, v, set-Valid s v job.delivery_id new))
  ]

begin_redelivery-Valid :
    (s : JobStore)
    → (tenant_id delivery_id worker_id token : String) → (claim_ttl now : ℕ) → Valid s
    → Valid (begin_redelivery s tenant_id delivery_id worker_id token claim_ttl now).0
unfolding begin_redelivery
begin_redelivery-Valid s tenant key worker token ttl now v =
    elim (Option-cases (Dict.get key s.jobs)) [
      | inl e ↦ rw (e, begin_redelivery) v
      | inr (job, e) ↦
          let j = All-get IsValid key job s.jobs v e in
          let new = record (claimed worker ttl now job token) {
            next_attempt_at = none;
            completed_at = none;
          } in
          rw (e, begin_redelivery) (unfold claimed in ground (arith, v, set-Valid s v key new))
    ]

create_job-Valid :
    (sha256_hexdigest : String → String) (isoformat : ℕ → String)
    → (s : JobStore) → (event : CanonicalEvent (Dict String Value)) → (sink : ResultSinkConfig)
    → (now created : ℕ) → Valid s
    → Valid (create_job sha256_hexdigest isoformat s event sink now created).0
unfolding create_job
create_job-Valid sha iso s event sink now created v =
    let job = build_delivery_job sha iso event sink now created in
    elim (Option-cases (Dict.get job.delivery_id s.jobs)) [
      | inl e ↦
          rw (e, create_job)
            (set-Valid s v job.delivery_id job (unfold build_delivery_job in ground arith))
      | inr (old, e) ↦ rw (e, create_job) v
    ]

module _ (P : DeliveryJob → Type 0) (now limit : ℕ) (max_per_tenant : Option ℕ) where
  All-visit :
      (job : DeliveryJob) (st : Scan)
      → P job
      → All P st.due
      → All P (visit now limit max_per_tenant job st).0.due
  unfolding visit
  All-visit job st p h = ground (arith, p, h, All-append P st.due (job ∷ []) h (p, tt))

  All-scan :
      (jobs : List DeliveryJob) (st : Scan)
      → All P jobs
      → All P st.due
      → All P (scan now limit max_per_tenant jobs st).due
  unfolding scan
  All-scan [] st hs h = h
  All-scan (job ∷ rest) st hs h =
      let (st', stop) = visit now limit max_per_tenant job st in
      let h' = All-visit job st hs.0 h in
      elim (Bool-cases stop) [
        | inl e ↦ rw (e, scan) h'
        | inr e ↦ rw (e, scan) (All-scan rest st' hs.1 h')
      ]

module _ (worker_id : String) (claim_ttl now : ℕ) (token : ℕ → String) where
  claim_jobs-Valid :
      (i : ℕ) (due : List DeliveryJob) (s : JobStore)
      → All (λ job. IsValid job × (is_active job.status ≡ true)) due
      → Valid s
      → Valid (claim_jobs worker_id claim_ttl now token i due s).0
  unfolding claim_jobs
  claim_jobs-Valid i [] s ds v = v
  claim_jobs-Valid i (job ∷ rest) s ds v = claim_jobs-Valid (i + 1) rest _ ds.1 (
      set-Valid s v job.delivery_id (claimed worker_id claim_ttl now job (token i))
        (unfold claimed in ground (arith, ds.0)))

  claim_due-Valid :
      (limit : ℕ) (max_per_tenant : Option ℕ) (s : JobStore)
      → Valid s
      → Valid (claim_due worker_id claim_ttl now token limit max_per_tenant s).0
  unfolding claim_due active_jobs
  claim_due-Valid limit quota s v =
      claim_jobs-Valid 0 _ s
        (All-scan _ now limit quota _ start
          (All-sort _ _ _ (All-select IsValid _ (values s.jobs) v)) tt)
        v

-- The methods, with the readings of the clock and the fresh tokens as arguments. A job that is
-- handed to `mark_reconciling` carries a claim token: a call with a job without one is no step.
pub data Step : JobStore → JobStore → Type 0 where
  creates :
      (sha256_hexdigest : String → String) (isoformat : ℕ → String) (s : JobStore)
      → (event : CanonicalEvent (Dict String Value)) (sink : ResultSinkConfig) (now created : ℕ)
      → Step s (create_job sha256_hexdigest isoformat s event sink now created).0
  claims :
      (worker_id : String) (claim_ttl now : ℕ) (token : ℕ → String) (limit : ℕ)
      → (max_per_tenant : Option ℕ) (s : JobStore)
      → Step s (claim_due worker_id claim_ttl now token limit max_per_tenant s).0
  renews : (s : JobStore) (job : DeliveryJob) (ttl now : ℕ) → Step s (renew_claim s job ttl now).0
  begins : (s : JobStore) (job : DeliveryJob) (now : ℕ) → Step s (begin_side_effect s job now).0
  reconciles :
      (s : JobStore) (job : DeliveryJob) (reason : String)
      → job.claim_token ≢ none
      → Step s (mark_reconciling s job reason).0
  records :
      (s : JobStore) (job : DeliveryJob) (response : SinkResponse) (next_attempt_at : Option ℕ)
      → (now max_attempts : ℕ)
      → Step s (record_attempt response next_attempt_at now s job max_attempts).0
  redelivers :
      (s : JobStore) (tenant_id delivery_id worker_id token : String) (claim_ttl now : ℕ)
      → Step s (begin_redelivery s tenant_id delivery_id worker_id token claim_ttl now).0
  registers : (s : JobStore) (sink : ResultSinkConfig) → Step s (register_sink s sink)
  acquires :
      (s : JobStore) (tenant_id sink_id worker_id token : String) (probe_ttl now : ℕ)
      → Step s (acquire_sink_circuit s tenant_id sink_id worker_id token probe_ttl now).0
  records_circuit :
      (s : JobStore) (tenant_id sink_id : String) (response : SinkResponse)
      → (failure_threshold reset_after : ℕ) (probe_token : Option String) (now : ℕ)
      → Step s
          (record_sink_circuit_result s tenant_id sink_id response failure_threshold reset_after
            probe_token now).0

pub data Reachable : JobStore → Type 0 where
  starts : Reachable init
  steps : {s t : JobStore} → Reachable s → Step s t → Reachable t

Step-Valid : {s t : JobStore} → Step s t → Valid s → Valid t
unfolding register_sink acquire_sink_circuit record_sink_circuit_result
Step-Valid (creates sha iso s event sink now created) v =
    create_job-Valid sha iso s event sink now created v
Step-Valid (claims w ttl now token limit quota s) v =
    claim_due-Valid w ttl now token limit quota s v
Step-Valid (renews s job ttl now) v = renew_claim-Valid s v job ttl now
Step-Valid (begins s job now) v = begin_side_effect-Valid s v job now
Step-Valid (reconciles s job reason t) v = mark_reconciling-Valid s v job reason t
Step-Valid (records s job r n now m) v = record_attempt-Valid s v job r n now m
Step-Valid (redelivers s tenant key w token ttl now) v =
    begin_redelivery-Valid s tenant key w token ttl now v
Step-Valid (registers s sink) v = v
Step-Valid (acquires s tenant sink w token ttl now) v = v
Step-Valid (records_circuit s tenant sink r threshold after probe now) v = v

-- In every store that the methods reach from the empty one, when `mark_reconciling` is called with
-- jobs that carry a claim token only, each job is claimed exactly while it
-- is being attempted, complete exactly in a final status, and attempted at least once unless it is
-- PENDING.
pub Reachable-Valid : {s : JobStore} → Reachable s → Valid s
unfolding values
Reachable-Valid starts = tt
Reachable-Valid (steps r st) = Step-Valid st (Reachable-Valid r)
