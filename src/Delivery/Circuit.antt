-- ===== src/Delivery/Circuit.antt =====
-- The circuit breaker of a sink: `acquire_sink_circuit` and `record_sink_circuit_result` of
-- InMemoryDeliveryJobStore.
pub mod Breaker
use aura_claw.Prelude.{
  ℕ, zero, suc, ◌+◌, max, String, ◌≡◌, Bool, true, false, not, ◌&&◌, ◌||◌, Option, none, some, leb,
  ltb, if◌then◌else◌, ◌==◌, string_eq, pair_eq, option_eq,
}
use aura_claw.Prelude.Dict
use aura_claw.Prelude.Dict.{Dict}
use aura_claw.Delivery.Types.{SinkResponse, CircuitState, SinkCircuitPermit, SinkCircuitSnapshot}
use aura_claw.Delivery.Types.CircuitState.{closed, open_circuit, half_open}
use aura_claw.Delivery.Store.{JobStore, MemoryCircuit}

abbrev pub new_circuit : MemoryCircuit
new_circuit = record {
  state = closed;
  failure_count = 0;
  open_until = none;
  generation = 0;
  probe_owner = none;
  probe_token = none;
  probe_expires_at = none;
}

-- `limit is None or limit > now`
abbrev pub is_held : Option ℕ → ℕ → Bool
is_held none now = true
is_held (some t) now = ltb now t

abbrev pub is_closed : CircuitState → Bool
is_closed closed = true
is_closed _ = false

abbrev pub is_half_open : CircuitState → Bool
is_half_open half_open = true
is_half_open _ = false

abbrev permit : Bool → CircuitState → ℕ → Option String → SinkCircuitPermit
permit allowed state generation probe_token = record {
  allowed = allowed;
  state = state;
  generation = generation;
  probe_token = probe_token;
}

-- A probe of a circuit whose waiting time is over; `token` is the fresh `uuid4().hex`.
probe :
    MemoryCircuit
    → (worker_id token : String) → (probe_ttl now : ℕ) → MemoryCircuit × SinkCircuitPermit
probe c worker_id token probe_ttl now = (
  record c {
    state = half_open;
    generation = c.generation + 1;
    probe_owner = some worker_id;
    probe_token = some token;
    probe_expires_at = some (now + probe_ttl);
  },
  permit true half_open (c.generation + 1) (some token),
)

acquire_by :
    CircuitState
    → MemoryCircuit
    → (worker_id token : String) → (probe_ttl now : ℕ) → MemoryCircuit × SinkCircuitPermit
unfolding probe
acquire_by closed c worker_id token probe_ttl now = (c, permit true closed c.generation none)
acquire_by open_circuit c worker_id token probe_ttl now =
    if is_held c.open_until now
    then (c, permit false open_circuit c.generation none)
    else probe c worker_id token probe_ttl now
acquire_by half_open c worker_id token probe_ttl now =
    if is_held c.probe_expires_at now
    then (c, permit false half_open c.generation none)
    else probe c worker_id token probe_ttl now

unfoldable pub acquire :
    MemoryCircuit
    → (worker_id token : String) → (probe_ttl now : ℕ) → MemoryCircuit × SinkCircuitPermit
unfolding acquire_by
acquire c = acquire_by c.state c

abbrev int_of : Bool → ℕ
int_of true = 1
int_of false = 0

unfoldable pub record_result :
    MemoryCircuit
    → SinkResponse
    → (failure_threshold reset_after : ℕ) → (probe_token : Option String) → (now : ℕ)
    → MemoryCircuit
record_result c response failure_threshold reset_after probe_token now =
    let failures = c.failure_count + 1 in
    if is_half_open c.state && not (c.probe_token == probe_token)
    then c
    else if response.succeeded
    then record c {
      state = closed;
      failure_count = 0;
      open_until = none;
      probe_owner = none;
      probe_token = none;
      probe_expires_at = none;
      generation = c.generation + int_of (not (is_closed c.state) || not (leb c.failure_count 0));
    }
    else if response.retryable
    then (if is_half_open c.state || leb failure_threshold failures
        then record c {
          state = open_circuit;
          failure_count = max failures failure_threshold;
          open_until = some (now + reset_after);
          probe_owner = none;
          probe_token = none;
          probe_expires_at = none;
          generation = c.generation + 1;
        }
        else record c { failure_count = failures })
    else c

unfoldable pub circuit_snapshot : MemoryCircuit → SinkCircuitSnapshot
circuit_snapshot c = record {
  state = c.state;
  failure_count = c.failure_count;
  generation = c.generation;
  open_until = c.open_until;
  probe_owner = c.probe_owner;
}

-- `setdefault((tenant_id, sink_id), _MemoryCircuit())`
abbrev pub circuit_of : JobStore → String → String → MemoryCircuit
circuit_of s tenant_id sink_id = elim (Dict.get (tenant_id, sink_id) s.circuits) [
  | some c ↦ c
  | none ↦ new_circuit
]

unfoldable pub acquire_sink_circuit :
    JobStore
    → (tenant_id sink_id worker_id token : String) → (probe_ttl now : ℕ)
    → JobStore × SinkCircuitPermit
acquire_sink_circuit s tenant_id sink_id worker_id token probe_ttl now =
    let (c, answer) = acquire (circuit_of s tenant_id sink_id) worker_id token probe_ttl now in
    (record s { circuits = Dict.put (tenant_id, sink_id) c s.circuits }, answer)

unfoldable pub record_sink_circuit_result :
    JobStore
    → (tenant_id sink_id : String) → SinkResponse
    → (failure_threshold reset_after : ℕ) → (probe_token : Option String) → (now : ℕ)
    → JobStore × SinkCircuitSnapshot
unfolding circuit_snapshot
record_sink_circuit_result s tenant_id sink_id response failure_threshold reset_after probe_token
      now =
    let c =
      record_result (circuit_of s tenant_id sink_id) response failure_threshold reset_after
        probe_token now in
    (record s { circuits = Dict.put (tenant_id, sink_id) c s.circuits }, circuit_snapshot c)

unfoldable pub get_sink_circuit : JobStore → String → String → Option SinkCircuitSnapshot
unfolding circuit_snapshot
get_sink_circuit s tenant_id sink_id = elim (Dict.get (tenant_id, sink_id) s.circuits) [
  | none ↦ none
  | some c ↦ some (circuit_snapshot c)
]
