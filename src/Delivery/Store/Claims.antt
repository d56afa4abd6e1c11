-- ===== src/Delivery/Store/Claims.antt =====
-- Proofs about the claim of a delivery job: `record_attempt`, `renew_claim` and `begin_side_effect`
-- of InMemoryDeliveryJobStore.
use aura_claw.Prelude.{
  ℕ, ◌<◌, ◌≡◌, false, Option, none, some, [], ◌∷◌, ◌++◌, arith, string_eq, option_eq, ok, err,
  Error,
}
use aura_claw.Prelude.Dict
use aura_claw.Prelude.Dict.{get-put, get-put_self}
use aura_claw.Delivery.Types.{DeliveryJob, SinkResponse}
use aura_claw.Delivery.Store.{
  JobStore, renew_claim, begin_side_effect, outcome, attempted, attempt_of, record_attempt,
}

-- the job of the store is claimed by the holder of `job`, and the claim has not run out
pub record Holds (s : JobStore) (job : DeliveryJob) (now : ℕ) : Type 0 where
  pub current : DeliveryJob
  pub stored : Dict.get job.delivery_id s.jobs ≡ some current
  pub owner : current.claimed_by ≡ job.claimed_by
  pub token : current.claim_token ≡ job.claim_token
  pub expires_at : ℕ
  pub expires : current.claim_expires_at ≡ some expires_at
  pub live : now < expires_at

module _ (s : JobStore) (job : DeliveryJob) (response : SinkResponse) (next_attempt_at : Option ℕ)
    (now max_attempts : ℕ) where
  -- An attempt under a live claim is recorded: the job takes the status that the response and the
  -- attempts so far give it, its claim ends, and one attempt is added to the history.
  pub record_attempt-Holds :
      (h : Holds s job now)
      → let status = outcome response h.current.attempt_count max_attempts in
        let updated = attempted response next_attempt_at now h.current status in
        record_attempt response next_attempt_at now s job max_attempts ≡ (
          record s {
            jobs = Dict.put job.delivery_id updated s.jobs;
            attempts =
                s.attempts
                ++ attempt_of response next_attempt_at now job.delivery_id h.current status ∷ [];
          },
          ok updated,
        )
  unfolding record_attempt
  record_attempt-Holds h = ground (arith, h.stored, h.owner, h.token, h.expires, h.live)

  -- An attempt is refused only where the claim is not held, and the refusal changes nothing.
  pub record_attempt_refused :
      {e : Error}
      → (record_attempt response next_attempt_at now s job max_attempts).1 ≡ err e
      → ((record_attempt response next_attempt_at now s job max_attempts).0 ≡ s)
        × (e ≡ Error.runtime_error)
        × (Holds s job now → ⊥)
  unfolding record_attempt
  record_attempt_refused h = (
    ground arith,
    ground arith,
    λ held. ground (arith, held.stored, held.owner, held.token, held.expires, held.live),
  )

recorded :
    (s : JobStore)
    → (job : DeliveryJob) → (response : SinkResponse) → (next_attempt_at : Option ℕ)
    → (now max_attempts : ℕ) → (updated : DeliveryJob)
    → let (s', answer) = record_attempt response next_attempt_at now s job max_attempts in
      answer ≡ ok updated
      → (Dict.get job.delivery_id s'.jobs ≡ some updated) × (updated.claim_expires_at ≡ none)
unfolding record_attempt
recorded s job r n now m updated h = ground (arith, get-put_self job.delivery_id updated s.jobs)

-- Once an attempt is recorded, its holder can neither record another, nor renew the claim, nor
-- begin a side effect: at any later time these are refused and change nothing.
pub record_attempt_once :
    (s : JobStore)
    → (job : DeliveryJob) → (response response' : SinkResponse)
    → (next_attempt_at next_attempt_at' : Option ℕ) → (now now' claim_ttl max_attempts : ℕ)
    → {updated : DeliveryJob}
    → let (s', answer) = record_attempt response next_attempt_at now s job max_attempts in
      answer ≡ ok updated
      → (record_attempt response' next_attempt_at' now' s' job max_attempts
          ≡ (s', err Error.runtime_error))
        × (renew_claim s' job claim_ttl now' ≡ (s', false))
        × (begin_side_effect s' job now' ≡ (s', false))
unfolding renew_claim begin_side_effect
record_attempt_once s job r r' n n' now now' ttl m {updated} h =
    let found = recorded s job r n now m updated h in
    (unfold record_attempt in ground (arith, found), ground (arith, found), ground (arith, found))
