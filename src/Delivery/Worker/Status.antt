-- ===== src/Delivery/Worker/Status.antt =====
-- `_write_status` and `_mark_reconciling` of ResultDeliveryWorker: a job's status in the history of
-- its session.
use aura_claw.Prelude.{
  ℕ, zero, suc, String, ◌<>◌, Bool, true, false, Option, none, some, List, [], ◌∷◌, leb,
  if◌then◌else◌, option_eq, pair_eq, triple_eq, string_eq, nat_eq, length, Error, Result, ok,
}
use aura_claw.Prelude.Text.{take_chars, decimal}
use aura_claw.Contracts.{NewEvent, CanonicalEvent, Value, Visibility}
use aura_claw.Events.Store.{CommandContext, CommandResult, AppendResult, stream, append}
use aura_claw.Delivery.Types.{DeliveryJob, DeliveryStatus}
use aura_claw.Delivery.Types.DeliveryStatus.{
  pending, attempting, retry_wait, succeeded, failed, dead_lettered, reconciling,
}
use aura_claw.Delivery.Store.{mark_reconciling}
use aura_claw.Delivery.Worker.{
  World, Shared, Payload, Exec, await_call, await_jobs, catch, return_value, throw,
}
use aura_claw.Delivery.Worker.{◌>>=◌}

abbrev status_value : DeliveryStatus → String
status_value pending = "pending"
status_value attempting = "attempting"
status_value retry_wait = "retry_wait"
status_value succeeded = "succeeded"
status_value failed = "failed"
status_value dead_lettered = "dead_lettered"
status_value reconciling = "reconciling"

abbrev pub status_event : DeliveryStatus → Option String
status_event pending = none
status_event attempting = some "delivery.attempting"
status_event retry_wait = some "delivery.retrying"
status_event succeeded = some "delivery.succeeded"
status_event failed = some "delivery.failed"
status_event dead_lettered = some "delivery.dead_lettered"
status_event reconciling = some "delivery.reconciling"

abbrev pub is_conflict : Error → Bool
is_conflict Error.version_conflict = true
is_conflict _ = false

module _ (job : DeliveryJob) (status : DeliveryStatus) where
  unfoldable pub status_context : (expected_version : ℕ) → CommandContext
  status_context expected_version = record {
    command_id =
        "delivery:"
        <> job.delivery_id
        <> ":"
        <> decimal job.attempt_count
        <> ":"
        <> status_value status;
    tenant_id = job.tenant_id;
    actor = record { kind = "delivery"; id = "result-delivery-worker" };
    correlation_id = job.delivery_id;
    expected_version = expected_version;
    operation = "delivery." <> status_value status;
    causation_id = none;
    dept_id = none;
  }

  unfoldable pub status_payload : (summary : String) → Payload
  status_payload summary =
      ("delivery_id", Value.str job.delivery_id)
      ∷ ("sink_id", Value.str job.sink_id)
      ∷ ("status", Value.str (status_value status))
      ∷ ("attempt_count", Value.num job.attempt_count)
      ∷ ("response_summary", Value.str (take_chars 2000 summary))
      ∷ []

  unfoldable pub status_result : CommandResult
  status_result = record {
    request_fingerprint = none;
    body =
        ("delivery_id", Value.str job.delivery_id)
        ∷ ("status", Value.str (status_value status))
        ∷ [];
  }

  module _ (w : World) where
    unfoldable pub load_events : Exec (List (CanonicalEvent Payload))
    load_events =
        await_call w (λ sh now. (sh, ok (stream (job.tenant_id, job.session_id) sh.events)))

    unfoldable pub status_append :
        (type summary : String)
        → (expected_version tick : ℕ) → Shared
        → (now : ℕ) → Shared × Result (AppendResult Payload)
    status_append type summary expected_version tick sh now =
        let event : NewEvent Payload = record {
          type = type;
          payload = status_payload summary;
          visibility = Visibility.user;
        } in
        let (events, answer) =
          append w.govern (w.hex tick) (w.at tick) job.root_session_id job.session_id job.run_id
            (status_context expected_version) (event ∷ []) status_result sh.events in
        (record sh { events = events }, answer)

    unfoldable pub append_status :
        (type summary : String) → (expected_version : ℕ) → Exec (AppendResult Payload)
    append_status type summary expected_version s =
        await_call w (status_append type summary expected_version s.tick) s

    -- `except VersionConflictError: continue`
    unfoldable pub on_conflict : {A : Type 0} → Error → Exec (Option A)
    on_conflict e = if is_conflict e then return_value none else throw e

    -- `relay_once` runs the relay, which is another task.
    unfoldable pub run_relay : Exec (Unit {0})
    run_relay = await_call w (λ sh now. (sh, ok tt))

    unfoldable pub after_append :
        (again : Exec (Unit {0})) → Option (AppendResult Payload) → Exec (Unit {0})
    after_append again none = again
    after_append again (some result) = if result.deduplicated then return_value tt else run_relay

    unfoldable pub try_append :
        (type summary : String) → (expected_version : ℕ) → Exec (Option (AppendResult Payload))
    try_append type summary expected_version =
        catch (append_status type summary expected_version >>= (λ a. return_value (some a)))
          on_conflict

    unfoldable pub write_rounds : (rounds : ℕ) → (type summary : String) → Exec (Unit {0})
    write_rounds zero type summary = throw Error.version_conflict
    write_rounds (suc rounds) type summary =
        let again = write_rounds rounds type summary in
        load_events >>= (λ events.
          if leb (length events) 0
          then return_value tt
          else try_append type summary (length events) >>= after_append again)

    unfoldable pub write_event : (summary : String) → (event_type : Option String) → Exec (Unit {0})
    write_event summary none = return_value tt
    write_event summary (some type) = write_rounds 5 type summary

    unfoldable pub write_status : (summary : String) → Exec (Unit {0})
    write_status summary = write_event summary (status_event status)

module _ (w : World) (job : DeliveryJob) where
  unfoldable pub mark_task_reconciling : (reason : String) → Exec (Unit {0})
  mark_task_reconciling reason =
      await_jobs w (λ jobs now. mark_reconciling jobs job reason)
      >>= (λ marked. if marked then write_status job reconciling w reason else return_value tt)
