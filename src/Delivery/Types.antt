-- ===== src/Delivery/Types.antt =====
-- contracts/delivery.py, the circuit records of delivery/ports.py, and `build_delivery_job` of
-- infrastructure/delivery/common.py. Instants and spans of time are numbers of microseconds.
use aura_claw.Prelude.{ℕ, String, ◌<>◌, Bool, Option, none, some, List, [], ◌∷◌}
use aura_claw.Prelude.{string_eq}
use aura_claw.Prelude.Dict
use aura_claw.Prelude.Dict.{Dict}
use aura_claw.Prelude.Text.{take_chars}
use aura_claw.Contracts.{CanonicalEvent, Value, Items}

pub data DeliveryStatus : Type 0 where
  pending attempting retry_wait succeeded failed dead_lettered reconciling : DeliveryStatus

pub record ResultSinkConfig : Type 0 where
  pub sink_id : String
  pub tenant_id : String
  pub session_id : String
  pub sink_type : String
  pub target_ref : String
  pub event_types : List String
  pub credential_ref : Option String
  pub enabled : Bool

pub record DeliveryJob : Type 0 where
  pub delivery_id : String
  pub event_id : String
  pub tenant_id : String
  pub root_session_id : String
  pub session_id : String
  pub run_id : Option String
  pub sink_id : String
  pub sink_type : String
  pub sink_target_ref : String
  pub payload : Dict String Value
  pub status : DeliveryStatus
  pub attempt_count : ℕ
  pub next_attempt_at : Option ℕ
  pub last_response_summary : Option String
  pub created_at : ℕ
  pub completed_at : Option ℕ
  pub claimed_by : Option String
  pub claim_token : Option String
  pub claim_expires_at : Option ℕ
  pub claim_heartbeat_at : Option ℕ
  pub side_effect_started_at : Option ℕ
  pub reconciliation_reason : Option String

pub record DeliveryAttempt : Type 0 where
  pub delivery_id : String
  pub attempt_number : ℕ
  pub started_at : ℕ
  pub completed_at : ℕ
  pub outcome : DeliveryStatus
  pub response_summary : String
  pub retryable : Bool

-- `metadata` is left out: the store does not read it.
pub record SinkResponse : Type 0 where
  pub succeeded : Bool
  pub retryable : Bool
  pub summary : String

pub data CircuitState : Type 0 where
  closed open_circuit half_open : CircuitState

pub record SinkCircuitPermit : Type 0 where
  pub allowed : Bool
  pub state : CircuitState
  pub generation : ℕ
  pub probe_token : Option String

pub record SinkCircuitSnapshot : Type 0 where
  pub state : CircuitState
  pub failure_count : ℕ
  pub generation : ℕ
  pub open_until : Option ℕ
  pub probe_owner : Option String

-- `payload.get(key, default)`
abbrev get_or : Dict String Value → String → Value → Value
get_or payload key default = elim (Dict.get key payload) [ some v ↦ v | none ↦ default ]

abbrev optional_str : Option String → Value
optional_str none = Value.null
optional_str (some s) = Value.str s

-- The parameters are `hashlib.sha256(…).hexdigest()` and `datetime.isoformat`.
module _ (sha256_hexdigest : String → String) (isoformat : ℕ → String) where
  unfoldable pub delivery_id_for : String → String → String
  delivery_id_for event_id sink_id =
      "del_" <> take_chars 32 (sha256_hexdigest (event_id <> ":" <> sink_id))

  -- `created` and `now` are the two readings of the clock.
  unfoldable pub build_delivery_job :
      CanonicalEvent (Dict String Value) → ResultSinkConfig → (now created : ℕ) → DeliveryJob
  unfolding delivery_id_for
  build_delivery_job event sink now created = record {
    delivery_id = delivery_id_for event.event_id sink.sink_id;
    event_id = event.event_id;
    tenant_id = event.tenant_id;
    root_session_id = event.root_session_id;
    session_id = event.session_id;
    run_id = event.run_id;
    sink_id = sink.sink_id;
    sink_type = sink.sink_type;
    sink_target_ref = sink.target_ref;
    payload =
        ("delivery_id", Value.str (delivery_id_for event.event_id sink.sink_id))
        ∷ ("event_id", Value.str event.event_id)
        ∷ ("tenant_id", Value.str event.tenant_id)
        ∷ ("root_session_id", Value.str event.root_session_id)
        ∷ ("session_id", Value.str event.session_id)
        ∷ ("run_id", optional_str event.run_id)
        ∷ ("event_type", Value.str event.type)
        ∷ ("occurred_at", Value.str (isoformat event.occurred_at))
        ∷ ("result_summary", get_or event.payload "result_summary" Value.null)
        ∷ ("result_ref", get_or event.payload "result_ref" Value.null)
        ∷ ("artifact_refs", get_or event.payload "artifact_refs" (Value.arr Items.nil))
        ∷ ("error", get_or event.payload "error" Value.null)
        ∷ [];
    status = DeliveryStatus.pending;
    attempt_count = 0;
    next_attempt_at = some now;
    last_response_summary = none;
    created_at = created;
    completed_at = none;
    claimed_by = none;
    claim_token = none;
    claim_expires_at = none;
    claim_heartbeat_at = none;
    side_effect_started_at = none;
    reconciliation_reason = none;
  }
