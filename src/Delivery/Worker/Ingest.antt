-- ===== src/Delivery/Worker/Ingest.antt =====
-- `ingest_once` of ResultDeliveryWorker: a delivery job for each sink of each event in the outbox.
use aura_claw.Prelude.{
  ℕ, ◌+◌, Bool, true, false, List, [], ◌∷◌, option_eq, pair_eq, triple_eq, string_eq, nat_eq, take,
  Error, ok,
}
use aura_claw.Contracts.{CanonicalEvent}
use aura_claw.Events.Store.{OutboxRecord}
use aura_claw.Events.Relay.{pending_delivery_outbox, mark_outbox_published, mark_outbox_failed}
use aura_claw.Delivery.Types.{DeliveryJob, ResultSinkConfig}
use aura_claw.Delivery.Store.{JobStore, list_sinks, create_job}
use aura_claw.Delivery.Worker.{
  World, Payload, Exec, await_call, await_jobs, catch, return_value, throw,
}
use aura_claw.Delivery.Worker.{◌>>=◌, ◌>>◌}
use aura_claw.Delivery.Worker.Deliver.{is_cancelled}

module _ (w : World) where
  -- `create_job`, with the two readings of the clock
  unfoldable pub create_for :
      CanonicalEvent Payload
      → ResultSinkConfig
      → (tick : ℕ) → JobStore
      → (now : ℕ) → JobStore × DeliveryJob
  create_for event sink tick jobs now =
      create_job w.sha256_hexdigest w.isoformat jobs event sink now (w.clock_again tick)

  unfoldable pub create_jobs : CanonicalEvent Payload → List ResultSinkConfig → Exec (Unit {0})
  create_jobs event [] = return_value tt
  create_jobs event (sink ∷ sinks) =
      (λ s. await_jobs w (create_for event sink s.tick) s) >> create_jobs event sinks

  unfoldable pub sinks_of :
      CanonicalEvent Payload → JobStore → (now : ℕ) → JobStore × List ResultSinkConfig
  sinks_of event jobs now = (jobs, list_sinks jobs event.tenant_id event.session_id event.type)

  abbrev update_outbox :
      (List (OutboxRecord Payload) → List (OutboxRecord Payload)) → Exec (Unit {0})
  update_outbox f =
      await_call w
        (λ sh now. (record sh { events = record sh.events { outbox = f sh.events.outbox } }, ok tt))

  unfoldable pub fail_with : (cancelled : Bool) → Error → Exec Bool
  fail_with true e = throw e
  fail_with false e = return_value false

  -- `except Exception`
  unfoldable pub on_failure : Error → Exec Bool
  on_failure e = fail_with (is_cancelled e) e

  -- true where the event was published
  unfoldable pub settle : OutboxRecord Payload → (created : Bool) → Exec Bool
  settle r true = update_outbox (mark_outbox_published r.outbox_id) >> return_value true
  settle r false = update_outbox (mark_outbox_failed r.outbox_id) >> return_value false

  unfoldable pub create_all : CanonicalEvent Payload → Exec Bool
  create_all event = await_jobs w (sinks_of event) >>= create_jobs event >> return_value true

  -- the body of the loop
  unfoldable pub ingest_record : OutboxRecord Payload → Exec Bool
  ingest_record r = catch (create_all r.event) on_failure >>= settle r

  abbrev count_of : Bool → ℕ
  count_of true = 1
  count_of false = 0

  unfoldable pub ingest_records : List (OutboxRecord Payload) → Exec ℕ
  ingest_records [] = return_value 0
  ingest_records (r ∷ rs) =
      ingest_record r
      >>= (λ published. ingest_records rs >>= (λ n. return_value (count_of published + n)))

  unfoldable pub ingest_once : (limit : ℕ) → Exec ℕ
  ingest_once limit =
      await_call w (λ sh now. (sh, ok (pending_delivery_outbox sh.events.outbox)))
      >>= (λ records. ingest_records (take limit records))
