-- ===== src/Delivery/Circuit/Breaker.antt =====
-- Proofs about the circuit breaker of a sink: `acquire_sink_circuit` and
-- `record_sink_circuit_result` of InMemoryDeliveryJobStore.
use aura_claw.Prelude.{
  count_where, Bool, ◌⊎◌, ℕ, ◌+◌, ◌≤◌, ◌<◌, String, ◌≡◌, ◌≢◌, refl, true, false, Option, none, some,
  List, [], ◌∷◌, arith, All, ltb, if◌then◌else◌, string_eq, option_eq,
}
use aura_claw.Delivery.Types.{SinkResponse}
use aura_claw.Delivery.Types.CircuitState.{closed, open_circuit, half_open}
use aura_claw.Delivery.Store.{MemoryCircuit}
use aura_claw.Delivery.Circuit.{acquire, record_result, new_circuit}

-- A closed circuit waits for nothing, an open one has a time to wait for, and a half-open one has
-- a probe with an owner, a token and an end.
pub record IsValid (c : MemoryCircuit) : Type 0 where
  pub closed_idle : c.state ≡ closed → (c.open_until ≡ none) × (c.probe_token ≡ none)
  pub open_waits : c.state ≡ open_circuit → (c.open_until ≢ none) × (c.probe_token ≡ none)
  pub probe_owned : c.state ≡ half_open → (c.probe_owner ≢ none) × (c.probe_token ≢ none)
  pub probe_ends : c.state ≡ half_open → c.probe_expires_at ≢ none

-- Asking for a permit and recording a response both keep a circuit valid.
pub circuit_steps-IsValid :
    (c : MemoryCircuit)
    → (worker_id token : String) → (response : SinkResponse)
    → (failure_threshold reset_after probe_ttl now : ℕ) → (probe_token : Option String) → IsValid c
    → IsValid (acquire c worker_id token probe_ttl now).0
      × IsValid (record_result c response failure_threshold reset_after probe_token now)
unfolding acquire record_result
circuit_steps-IsValid c w k r th ra ttl now pt v = (ground arith, ground arith)

-- A worker that is granted a probe is the only one: until the probe ends, every other request for
-- the circuit is refused and changes nothing, and no response under another token counts.
pub probe_exclusive :
    (c : MemoryCircuit)
    → (worker_id other token token' : String) → (response : SinkResponse)
    → (failure_threshold reset_after probe_ttl ttl' now later : ℕ)
    → let (c', answer) = acquire c worker_id token probe_ttl now in
      answer.state ≡ half_open
      → answer.allowed ≡ true
      → later < now + probe_ttl
      → token ≢ token'
      → ((acquire c' other token' ttl' later).0 ≡ c')
        × ((acquire c' other token' ttl' later).1.allowed ≡ false)
        × (record_result c' response failure_threshold reset_after (some token') later ≡ c')
unfolding acquire record_result option_eq
probe_exclusive c w o k k' r th ra ttl ttl' now later half allowed early differ =
    (ground arith, ground arith, ground arith)

-- The generation of a circuit never falls, and rises whenever its state changes.
pub generation_monotone :
    (c : MemoryCircuit)
    → (worker_id token : String) → (response : SinkResponse)
    → (failure_threshold reset_after probe_ttl now : ℕ) → (probe_token : Option String)
    → let c' = (acquire c worker_id token probe_ttl now).0 in
      let c'' = record_result c response failure_threshold reset_after probe_token now in
      (c.generation ≤ c'.generation)
      × (c.generation ≤ c''.generation)
      × ((c'.state ≡ c.state) ⊎ (c.generation < c'.generation))
      × ((c''.state ≡ c.state) ⊎ (c.generation < c''.generation))
unfolding acquire record_result
generation_monotone c w k r th ra ttl now pt =
    (ground arith, ground arith, ground arith, ground arith)

-- a response that fails, with the time of its record
abbrev pub IsFailure : SinkResponse × ℕ → Type 0
IsFailure (response, _) = response.succeeded ≡ false

-- it may be tried again
abbrev pub may_retry : SinkResponse × ℕ → Bool
may_retry (response, _) = response.retryable

module _ (failure_threshold reset_after : ℕ) where
  pub record_all : List (SinkResponse × ℕ) → MemoryCircuit → MemoryCircuit
  record_all [] c = c
  record_all ((response, now) ∷ rest) c =
      record_all rest (record_result c response failure_threshold reset_after none now)

  stays_open :
      (failures : List (SinkResponse × ℕ)) (c : MemoryCircuit)
      → All IsFailure failures
      → c.state ≡ open_circuit
      → failure_threshold ≤ c.failure_count
      → (record_all failures c).state ≡ open_circuit
  unfolding record_all record_result
  stays_open [] c fs o th = o
  stays_open ((r, now) ∷ rest) c fs o th =
      stays_open rest (record_result c r failure_threshold reset_after none now) fs.1
        (ground (arith, fs.0)) (ground (arith, fs.0))

  counts :
      (failures : List (SinkResponse × ℕ)) (c : MemoryCircuit)
      → All IsFailure failures
      → c.state ≡ closed
      → c.failure_count < failure_threshold
      → (record_all failures c).state ≡ (
          if ltb (c.failure_count + count_where may_retry failures) failure_threshold
          then closed
          else open_circuit)
  unfolding record_all record_result
  counts [] c fs o th = ground arith
  counts ((r, now) ∷ rest) c fs o th = ground (
    arith,
    fs.0,
    counts rest (record_result c r failure_threshold reset_after none now) fs.1,
    stays_open rest (record_result c r failure_threshold reset_after none now) fs.1,
  )

-- A new circuit that records only failures, of which those that may not be tried again do not
-- count, is closed while the ones that may be are fewer than the threshold, and open from then on.
pub opens_at_threshold :
    (failure_threshold reset_after : ℕ) (failures : List (SinkResponse × ℕ))
    → 0 < failure_threshold
    → All IsFailure failures
    → (record_all failure_threshold reset_after failures new_circuit).state
      ≡ (if ltb (count_where may_retry failures) failure_threshold then closed else open_circuit)
opens_at_threshold th ra fs pos h = ground (arith, counts th ra fs new_circuit h refl pos)
