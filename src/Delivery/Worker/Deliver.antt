-- ===== src/Delivery/Worker/Deliver.antt =====
-- `_deliver`, `redeliver` and `ingest_once` of ResultDeliveryWorker.
use Prim.Native.Nat.{◌^◌}
use mathlib.Core.Option
use aura_claw.Prelude.{
  ℕ, leb, ◌+◌, ◌-◌, ◌*◌, String, Bool, true, false, not, Option, none, some, ◌∷◌, if◌then◌else◌,
  option_eq, pair_eq, triple_eq, string_eq, nat_eq, Error, Result, ok, err,
}
use aura_claw.Prelude.Dict
use aura_claw.Prelude.Dict.{
  Dict, get-put, get-remove, get-put_self, get-remove_self, put-put_self, dict_laws,
}
use aura_claw.Delivery.Types.{DeliveryJob, ResultSinkConfig, SinkResponse}
use aura_claw.Delivery.Types.DeliveryStatus.{attempting}
use aura_claw.Delivery.Store.{
  JobStore, renew_claim, get_sink, begin_side_effect, record_attempt, begin_redelivery,
}
use aura_claw.Delivery.Circuit.{acquire_sink_circuit, record_sink_circuit_result}
use aura_claw.Delivery.LocalCircuit.{CircuitBreaker, allow, record_response}
use aura_claw.Delivery.Worker.{
  World, Call, Answer, Exec, await_call, await_jobs, at_once, read_clock, catch, return_value,
  throw,
}
use aura_claw.Delivery.Worker.{◌>>=◌, ◌>>◌}
use aura_claw.Delivery.Worker.Status.{write_status, mark_task_reconciling}

-- `attempted_sink` and `probe_token`, with the response
pub record Attempted : Type 0 where
  pub response : SinkResponse
  pub attempted_sink : Bool
  pub probe_token : Option String

abbrev not_made : SinkResponse → Option String → Attempted
not_made response probe_token = record {
  response = response;
  attempted_sink = false;
  probe_token = probe_token;
}

abbrev failure : (retryable : Bool) → (summary : String) → SinkResponse
failure retryable summary = record { succeeded = false; retryable = retryable; summary = summary }

abbrev pub is_cancelled : Error → Bool
is_cancelled Error.cancelled = true
is_cancelled _ = false

module _ (w : World) (job : DeliveryJob) where
  unfoldable pub acquire_for : (tick : ℕ) → JobStore → (now : ℕ) → JobStore × (Bool × Option String)
  acquire_for tick jobs now =
      let (jobs', permit) =
        acquire_sink_circuit jobs job.tenant_id job.sink_id w.worker_id (w.token tick)
          w.circuit_probe_ttl now in
      (jobs', (permit.allowed, permit.probe_token))

  unfoldable pub permitted_by : Option CircuitBreaker → (now : ℕ) → Exec (Bool × Option String)
  permitted_by (some breaker) now s =
      at_once
        (λ sh.
          let (breaker', allowed) = allow breaker job.sink_id now in
          (record sh { local_circuit = some breaker' }, (allowed, none)))
        s
  permitted_by none now s = await_jobs w (acquire_for s.tick) s

  -- whether the circuit lets the call through, and the token of a probe
  unfoldable pub permitted : (now : ℕ) → Exec (Bool × Option String)
  permitted now s = permitted_by s.shared.local_circuit now s

  -- `except Exception as exc: response = SinkResponse(False, True, type(exc).__name__)`
  unfoldable pub response_of : Answer → Result SinkResponse
  response_of (Answer.answered response) = ok response
  response_of (Answer.raised name) = ok (failure true name)
  response_of Answer.interrupted = err Error.cancelled

  -- `side_effect_started = True` and the call of the adapter, which begins before its await
  unfoldable pub call_adapter :
      (ℕ → DeliveryJob → ResultSinkConfig → Answer) → ResultSinkConfig → Exec SinkResponse
  call_adapter adapter config s =
      let call : Call = record {
        job = job;
        config = config;
        jobs = s.shared.jobs;
        called_at = s.tick;
      } in
      let next = record s {
        shared = w.others s.tick s.shared;
        tick = s.tick + 1;
        side_effect_started = true;
        calls = call ∷ s.calls;
      } in
      (next, response_of (adapter s.tick job config))

  -- `if not begin_side_effect(job): return`
  unfoldable pub call_if_begun :
      (ℕ → DeliveryJob → ResultSinkConfig → Answer)
      → ResultSinkConfig
      → (begun : Bool) → Exec (Option SinkResponse)
  call_if_begun adapter config true =
      call_adapter adapter config >>= (λ response. return_value (some response))
  call_if_begun adapter config false = return_value none

  unfoldable pub call_sink :
      (ℕ → DeliveryJob → ResultSinkConfig → Answer) → ResultSinkConfig → Exec (Option SinkResponse)
  call_sink adapter config =
      await_jobs w (λ jobs at. begin_side_effect jobs job at) >>= call_if_begun adapter config

  unfoldable pub attempted_with : (probe_token : Option String) → SinkResponse → Attempted
  attempted_with probe_token response = record {
    response = response;
    attempted_sink = true;
    probe_token = probe_token;
  }

  unfoldable pub try_sink :
      (ℕ → DeliveryJob → ResultSinkConfig → Answer)
      → ResultSinkConfig
      → (now : ℕ) → Exec (Option Attempted)
  try_sink adapter config now = permitted now >>= (λ permit.
      let (allowed, probe_token) = permit in
      if not allowed
      then return_value (some (not_made (failure true "sink circuit is open") probe_token))
      else (write_status job attempting w "attempting"
          >> call_sink adapter config
          >>= (λ response. return_value (Option.map (attempted_with probe_token) response))))

  -- a configuration and an adapter, if both are there
  unfoldable pub attempt :
      Option ResultSinkConfig
      → Option (ℕ → DeliveryJob → ResultSinkConfig → Answer)
      → (now : ℕ) → Exec (Option Attempted)
  attempt (some config) (some adapter) now = try_sink adapter config now
  attempt _ _ now =
      return_value
        (some (not_made (failure false "delivery adapter or sink config not found") none))

  unfoldable pub record_for : Attempted → JobStore → (now : ℕ) → JobStore × Unit {0}
  record_for attempted jobs now =
      let (jobs', _) =
        record_sink_circuit_result jobs job.tenant_id job.sink_id attempted.response
          w.circuit_failure_threshold w.circuit_reset_after attempted.probe_token now in
      (jobs', tt)

  unfoldable pub record_circuit_by : Option CircuitBreaker → Attempted → (now : ℕ) → Exec (Unit {0})
  record_circuit_by (some breaker) attempted now = at_once (λ sh.
      let breaker' = record_response breaker job.sink_id attempted.response now in
      (record sh { local_circuit = some breaker' }, tt))
  record_circuit_by none attempted now =
      if attempted.attempted_sink then await_jobs w (record_for attempted) else return_value tt

  unfoldable pub record_circuit : Attempted → (now : ℕ) → Exec (Unit {0})
  record_circuit attempted now s = record_circuit_by s.shared.local_circuit attempted now s

  -- `base_retry_delay * (2 ** max(0, attempt_count - 1))`, where a `timedelta` can hold it
  unfoldable pub retry_delay : Exec ℕ
  retry_delay =
      let delay = w.base_retry_delay * 2 ^ (job.attempt_count - 1) in
      if leb delay w.longest_delay then return_value delay else throw Error.overflow_error

  -- `now + delay`, where a `datetime` can hold it
  unfoldable pub next_attempt : (now delay : ℕ) → Exec ℕ
  next_attempt now delay =
      if leb (now + delay) w.last_instant
      then return_value (now + delay)
      else throw Error.overflow_error

  -- `if side_effect_started: await self._mark_reconciling(job, reason)`
  unfoldable pub mark_if : (started : Bool) → (reason : String) → Exec (Unit {0})
  mark_if true reason = mark_task_reconciling w job reason
  mark_if false reason = return_value tt

  unfoldable pub mark_if_started : (reason : String) → Exec (Unit {0})
  mark_if_started reason s = mark_if s.side_effect_started reason s

  -- `except Exception`, which lets a cancellation through
  unfoldable pub completion_lost : Error → Exec DeliveryJob
  completion_lost e =
      if is_cancelled e then throw e else (mark_if_started "attempt_completion_lost" >> throw e)

  unfoldable pub complete : Attempted → (now : ℕ) → Exec (Unit {0})
  complete attempted now =
      record_circuit attempted now
      >> retry_delay
      >>= (λ delay.
          catch
            (next_attempt now delay >>= (λ next_attempt_at. await_call w (λ sh at.
              let (jobs, answer) =
                record_attempt attempted.response (some next_attempt_at) at sh.jobs job
                  w.max_attempts in
              (record sh { jobs = jobs }, answer))))
            completion_lost)
      >>= (λ updated. write_status updated updated.status w attempted.response.summary)

  unfoldable pub finish : Option Attempted → (now : ℕ) → Exec (Unit {0})
  finish none now = return_value tt
  finish (some attempted) now = complete attempted now

  -- the `try` block
  unfoldable pub deliver_body : Exec (Unit {0})
  deliver_body = await_jobs w (λ jobs at. renew_claim jobs job w.claim_ttl at) >>= (λ renewed.
      if not renewed
      then return_value tt
      else (await_jobs w (λ jobs at. (jobs, get_sink jobs job.tenant_id job.sink_id)) >>= (λ config.
          read_clock w >>= (λ now.
            attempt config (Dict.get job.sink_type w.adapters) now >>= (λ made. finish made now)))))

  -- `if not lease_lost.is_set(): raise`
  unfoldable pub raise_unless : (lost : Bool) → Error → Exec (Unit {0})
  raise_unless true e = return_value tt
  raise_unless false e = throw e

  abbrev cancel_reason : (lost : Bool) → String
  cancel_reason lost = if lost then "lease_lost" else "worker_cancelled"

  unfoldable pub cancelled_with : (reason : String) → Error → Exec (Unit {0})
  cancelled_with reason e =
      if is_cancelled e
      then mark_if_started reason >> (λ s. raise_unless (w.lease_lost s.tick) e s)
      else throw e

  -- `except asyncio.CancelledError`
  unfoldable pub on_cancel : Error → Exec (Unit {0})
  on_cancel e s = cancelled_with (cancel_reason (w.lease_lost s.tick)) e s

  unfoldable pub deliver : Exec (Unit {0})
  deliver s = catch deliver_body on_cancel (record s { side_effect_started = false })

-- `if job is None: return False`
unfoldable pub deliver_found : World → Option DeliveryJob → Exec Bool
deliver_found w none = return_value false
deliver_found w (some job) = deliver w job >> return_value true

unfoldable pub redeliver : World → (tenant_id delivery_id : String) → Exec Bool
redeliver w tenant_id delivery_id s =
    (await_jobs w (λ jobs at.
          begin_redelivery jobs tenant_id delivery_id w.worker_id (w.token s.tick) w.claim_ttl at)
        >>= deliver_found w)
      s
