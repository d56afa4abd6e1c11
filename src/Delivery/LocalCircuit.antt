-- ===== src/Delivery/LocalCircuit.antt =====
-- CircuitBreaker of delivery/worker.py: the breaker that one worker keeps for its own sinks.
use aura_claw.Prelude.{
  ℕ, ◌+◌, String, Bool, true, false, not, none, some, leb, if◌then◌else◌, option_eq, pair_eq,
  triple_eq, string_eq, nat_eq,
}
use aura_claw.Prelude.Dict
use aura_claw.Prelude.Dict.{
  Dict, get-put, get-remove, get-put_self, get-remove_self, put-put_self, dict_laws,
}
use aura_claw.Delivery.Types.{SinkResponse}

pub record CircuitBreaker : Type 0 where
  pub failure_threshold : ℕ
  pub reset_after : ℕ
  pub failures : Dict String ℕ
  pub opened_at : Dict String ℕ

-- `now - opened >= reset_after`, without a difference of instants
unfoldable pub allow : CircuitBreaker → (sink_id : String) → (now : ℕ) → CircuitBreaker × Bool
allow b sink_id now = elim (Dict.get sink_id b.opened_at) [
  | none ↦ (b, true)
  | some opened ↦
      if leb (opened + b.reset_after) now
      then (
        record b {
          opened_at = Dict.remove sink_id b.opened_at;
          failures = Dict.put sink_id 0 b.failures;
        },
        true,
      )
      else (b, false)
]

abbrev pub failures_of : CircuitBreaker → String → ℕ
failures_of b sink_id = elim (Dict.get sink_id b.failures) [ none ↦ 0 | some n ↦ n ]

unfoldable pub record_response :
    CircuitBreaker → (sink_id : String) → SinkResponse → (now : ℕ) → CircuitBreaker
record_response b sink_id response now =
    let counted = failures_of b sink_id + 1 in
    if response.succeeded
    then record b {
      failures = Dict.put sink_id 0 b.failures;
      opened_at = Dict.remove sink_id b.opened_at;
    }
    else if not response.retryable
    then b
    else record b {
      failures = Dict.put sink_id counted b.failures;
      opened_at =
          if leb b.failure_threshold counted then Dict.put sink_id now b.opened_at else b.opened_at;
    }
