-- ===== src/Delivery/Worker/Ingested.antt =====
-- Which jobs an event has once `ingest_once` has published it.
use aura_claw.Prelude.{
  ℕ, ◌≡◌, refl, ◌≢◌, inl, inr, Bool, true, false, List, [], ◌∷◌, arith, Option-cases, is_some,
  option_eq, pair_eq, triple_eq, string_eq, nat_eq, All, Error, Result, ok, err,
}
use aura_claw.Prelude.Dict
use aura_claw.Prelude.Dict.{
  Dict, get-put, get-remove, get-put_self, get-remove_self, put-put_self, dict_laws,
}
use aura_claw.Contracts.{CanonicalEvent}
use aura_claw.Events.Store.{OutboxRecord}
use aura_claw.Delivery.Types.{ResultSinkConfig, build_delivery_job, delivery_id_for}
use aura_claw.Delivery.Store.{JobStore, list_sinks, create_job}
use aura_claw.Delivery.Worker.{World, Task, Shared, Payload, proceed, handle, return_value, resumed}
use aura_claw.Delivery.Worker.Deliver.{is_cancelled}
use aura_claw.Delivery.Worker.Runs.{await_call_cases, await_jobs_cases, called}
use aura_claw.Delivery.Worker.Ingest.{
  create_for, create_jobs, sinks_of, create_all, fail_with, on_failure, settle, ingest_record,
}

-- a delivery of the event to the sink is there
pub HasJob : World → CanonicalEvent Payload → JobStore → ResultSinkConfig → Type 0
HasJob w event s sink =
    is_some
      (Dict.get (delivery_id_for w.sha256_hexdigest w.isoformat event.event_id sink.sink_id) s.jobs)
    ≡ true

create_job-HasJob :
    (w : World) (event : CanonicalEvent Payload) (sink : ResultSinkConfig) (tick now : ℕ)
    (s : JobStore)
    → HasJob w event (create_for w event sink tick s now).0 sink
unfolding HasJob create_for create_job build_delivery_job
create_job-HasJob w event sink tick now s =
    let job =
      build_delivery_job w.sha256_hexdigest w.isoformat event sink now (w.clock_again tick) in
    elim (Option-cases (Dict.get job.delivery_id s.jobs)) [
      | inl e ↦ ground (arith, e, get-put_self job.delivery_id job s.jobs)
      | inr (old, e) ↦ ground (arith, e)
    ]

create_job-keeps :
    (w : World) (event : CanonicalEvent Payload) (sink other : ResultSinkConfig) (tick now : ℕ)
    → (s : JobStore) → HasJob w event s other
    → HasJob w event (create_for w event sink tick s now).0 other
unfolding HasJob create_for create_job
create_job-keeps w event sink other tick now s h =
    let job =
      build_delivery_job w.sha256_hexdigest w.isoformat event sink now (w.clock_again tick) in
    elim (Option-cases (Dict.get job.delivery_id s.jobs)) [
      | inl e ↦ ground (
        arith,
        e,
        h,
        get-put (delivery_id_for w.sha256_hexdigest w.isoformat event.event_id other.sink_id)
            job.delivery_id job s.jobs,
      )
      | inr (old, e) ↦ ground (arith, e, h)
    ]

module _ (w : World) (event : CanonicalEvent Payload)
    (others : (sink : ResultSinkConfig) (i : ℕ) (sh : Shared)
      → HasJob w event sh.jobs sink
      → HasJob w event (w.others i sh).jobs sink) where
  create_jobs-keeps :
      (sinks : List ResultSinkConfig) (s : Task) (other : ResultSinkConfig)
      → HasJob w event s.shared.jobs other
      → HasJob w event (create_jobs w event sinks s).0.shared.jobs other
  unfolding create_jobs proceed
  create_jobs-keeps [] s other h = h
  create_jobs-keeps (sink ∷ sinks) s other h =
      await_jobs_cases w (create_for w event sink s.tick) s
        (λ r. HasJob w event (proceed (λ x. create_jobs w event sinks) r).0.shared.jobs other)
        (λ e. others other s.tick s.shared h)
        (create_jobs-keeps sinks (called w (create_for w event sink s.tick) s) other (
          create_job-keeps w event sink other s.tick (w.clock s.tick)
            (w.others s.tick s.shared).jobs (others other s.tick s.shared h)))

  create_jobs-HasJob :
      (sinks : List ResultSinkConfig) (s : Task)
      → (create_jobs w event sinks s).1 ≡ ok tt
      → All (HasJob w event (create_jobs w event sinks s).0.shared.jobs) sinks
  unfolding create_jobs proceed
  create_jobs-HasJob [] s h = tt
  create_jobs-HasJob (sink ∷ sinks) s answer =
      await_jobs_cases w (create_for w event sink s.tick) s
        (λ r.
          (proceed (λ x. create_jobs w event sinks) r).1 ≡ ok tt
          → All (HasJob w event (proceed (λ x. create_jobs w event sinks) r).0.shared.jobs)
              (sink ∷ sinks))
        (λ e h. cc)
        (λ h. (
          create_jobs-keeps sinks (called w (create_for w event sink s.tick) s) sink (
              create_job-HasJob w event sink s.tick (w.clock s.tick)
                (w.others s.tick s.shared).jobs),
          create_jobs-HasJob sinks (called w (create_for w event sink s.tick) s) h,
        ))
        answer

  -- the sinks that the store names when the task asks for them
  abbrev pub asked_sinks : Task → List ResultSinkConfig
  asked_sinks s = list_sinks (resumed w s).shared.jobs event.tenant_id event.session_id event.type

  proceed-HasJob :
      (sinks : List ResultSinkConfig) (r : Task × Result (Unit {0})) {b : Bool}
      → (r.1 ≡ ok tt → All (HasJob w event r.0.shared.jobs) sinks)
      → (proceed (λ x. return_value true) r).1 ≡ ok b
      → All (HasJob w event (proceed (λ x. return_value true) r).0.shared.jobs) sinks
  unfolding proceed
  proceed-HasJob sinks (t, err e) k h = cc
  proceed-HasJob sinks (t, ok tt) k h = k refl

  create_all-HasJob :
      (s : Task) {b : Bool}
      → (create_all w event s).1 ≡ ok b
      → All (HasJob w event (create_all w event s).0.shared.jobs) (asked_sinks s)
  unfolding create_all sinks_of proceed
  create_all-HasJob s {b} =
      await_jobs_cases w (sinks_of w event) s
        (λ r.
          (proceed (λ x. return_value true) (proceed (create_jobs w event) r)).1 ≡ ok b
          → All
              (HasJob w event
                (proceed (λ x. return_value true) (proceed (create_jobs w event) r)).0.shared.jobs)
              (asked_sinks s))
        (λ e h. cc)
        (proceed-HasJob (asked_sinks s)
          (create_jobs w event (asked_sinks s) (called w (sinks_of w event) s))
          (create_jobs-HasJob (asked_sinks s) (called w (sinks_of w event) s)))

  All-keep :
      (sinks : List ResultSinkConfig) (a b : JobStore)
      → ((sink : ResultSinkConfig) → HasJob w event a sink → HasJob w event b sink)
      → All (HasJob w event a) sinks
      → All (HasJob w event b) sinks
  All-keep [] a b k h = tt
  All-keep (sink ∷ sinks) a b k h = (k sink h.0, All-keep sinks a b k h.1)

  settle-keeps :
      (r : OutboxRecord Payload) (created : Bool) (s : Task) (sink : ResultSinkConfig)
      → HasJob w event s.shared.jobs sink
      → HasJob w event (settle w r created s).0.shared.jobs sink
  unfolding settle proceed
  settle-keeps r true s sink h =
      await_call_cases w _ s
        (λ q. HasJob w event (proceed (λ x. return_value true) q).0.shared.jobs sink)
        (λ e. others sink s.tick s.shared h) (others sink s.tick s.shared h)
  settle-keeps r false s sink h =
      await_call_cases w _ s
        (λ q. HasJob w event (proceed (λ x. return_value false) q).0.shared.jobs sink)
        (λ e. others sink s.tick s.shared h) (others sink s.tick s.shared h)

  settle-refuses : (r : OutboxRecord Payload) (s : Task) → (settle w r false s).1 ≢ ok true
  unfolding settle proceed
  settle-refuses r s =
      await_call_cases w _ s (λ q. (proceed (λ x. return_value false) q).1 ≢ ok true) (λ e h. cc)
        (λ h. ground arith)

  failed_refuses :
      (r : OutboxRecord Payload) (cancelled : Bool) (e : Error) (s : Task)
      → (proceed (settle w r) (fail_with w cancelled e s)).1 ≢ ok true
  unfolding proceed fail_with
  failed_refuses r true e s h = cc
  failed_refuses r false e s h = settle-refuses r s h

  handled-HasJob :
      (r : OutboxRecord Payload) (sinks : List ResultSinkConfig) (q : Task × Result Bool)
      → ((b : Bool) → q.1 ≡ ok b → All (HasJob w event q.0.shared.jobs) sinks)
      → (proceed (settle w r) (handle (on_failure w) q)).1 ≡ ok true
      → All (HasJob w event (proceed (settle w r) (handle (on_failure w) q)).0.shared.jobs) sinks
  unfolding proceed handle on_failure
  handled-HasJob r sinks (t, ok b) k h =
      All-keep sinks t.shared.jobs _ (settle-keeps r b t) (k b refl)
  handled-HasJob r sinks (t, err e) k h = absurd (failed_refuses r (is_cancelled e) e t h)

-- A record of the outbox that a round of `ingest_once` publishes has a delivery job for each sink
-- that the store named for its event, however the other tasks change the store, if they take no
-- job of the event away.
pub ingest_record-HasJob :
    (w : World) (r : OutboxRecord Payload) (s : Task)
    → ((sink : ResultSinkConfig) (i : ℕ) (sh : Shared)
        → HasJob w r.event sh.jobs sink
        → HasJob w r.event (w.others i sh).jobs sink)
    → let (s', answer) = ingest_record w r s in
      let jobs = (resumed w s).shared.jobs in
      answer ≡ ok true
      → All
          (HasJob w r.event s'.shared.jobs)
          (list_sinks jobs r.event.tenant_id r.event.session_id r.event.type)
unfolding ingest_record
ingest_record-HasJob w r s others h =
    handled-HasJob w r.event others r (asked_sinks w r.event others s) (create_all w r.event s)
      (λ b e. create_all-HasJob w r.event others s {b = b} e) h
