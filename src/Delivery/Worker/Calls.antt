-- ===== src/Delivery/Worker/Calls.antt =====
-- Which adapters `_deliver` of ResultDeliveryWorker calls, and what it keeps of the job store.
use aura_claw.Prelude.{
  ℕ, ◌≡◌, refl, ap, ◌∙◌, ◌≢◌, ◌⊎◌, inl, inr, Bool, true, false, not, Option, none, some, ◌∷◌, arith,
  Option-cases, option_eq, pair_eq, triple_eq, string_eq, nat_eq, Error, Result, ok, err,
}
use aura_claw.Prelude.Dict
use aura_claw.Prelude.Dict.{
  Dict, get-put, get-remove, get-put_self, get-remove_self, put-put_self, dict_laws,
}
use aura_claw.Delivery.Types.{DeliveryJob, ResultSinkConfig}
use aura_claw.Delivery.Types.DeliveryStatus.{attempting}
use aura_claw.Delivery.Store.{JobStore, begin_side_effect}
use aura_claw.Delivery.Validity.{
  Valid, renew_claim-Valid, begin_side_effect-Valid, mark_reconciling-Valid, record_attempt-Valid,
}
use aura_claw.Delivery.Worker.{World, Task, Shared, Call, Answer, Exec, read_clock, proceed, handle}
use aura_claw.Delivery.Worker.Deliver.{
  call_adapter, call_if_begun, call_sink, try_sink, attempt, deliver_body, deliver,
}
use aura_claw.Delivery.Worker.Runs.{
  IsGuarded, Kept, Quiet, Quietly, Quiet-none, Quiet-await_jobs, write_status-Quiet,
  await_jobs_cases, called,
}
use aura_claw.Delivery.Worker.OneCall.{
  OneCall, Calling, OneCall-Quiet, join_before, join_after, proceed_after, call_next, call_first,
  Calling-if,
}
use aura_claw.Delivery.Worker.Quiet.{permitted-Quiet, on_cancel-Quiet, finish-Quiet}

-- the store in which a side effect begins
begun-IsGuarded :
    (job : DeliveryJob) (call : Call) (s : JobStore) (now : ℕ)
    → (begin_side_effect s job now).1 ≡ true
    → call.jobs ≡ (begin_side_effect s job now).0
    → IsGuarded job call
unfolding begin_side_effect
begun-IsGuarded job call s now h e = elim (Option-cases (Dict.get job.delivery_id s.jobs)) [
  | inl absent ↦ ground (arith, absent)
  | inr (current, present) ↦
      let new = record current { side_effect_started_at = some now } in
      record {
        current = new;
        stored =
            ap (λ jobs. Dict.get job.delivery_id jobs.jobs) e
            ∙ ground (arith, present, h, get-put_self job.delivery_id new s.jobs);
        owner = (ground (arith, present, h), ground (arith, present, h));
        active = ground (arith, present, h);
        begun = (now, refl, ground (arith, present, h));
      }
]

module _ (I : JobStore → Type 0) (job : DeliveryJob) (w : World) (k : Kept I w job) where
  call_adapter-OneCall :
      (adapter : ℕ → DeliveryJob → ResultSinkConfig → Answer) (config : ResultSinkConfig)
      → (jobs : JobStore) (now : ℕ) (t : Task) → t.shared.jobs ≡ (begin_side_effect jobs job now).0
      → (begin_side_effect jobs job now).1 ≡ true
      → OneCall I job t (call_adapter w job adapter config t).0
  unfolding call_adapter
  call_adapter-OneCall adapter config jobs now t e h = record {
    kept = k.by_others t.tick t.shared;
    calls = inr (_, refl, begun-IsGuarded job _ jobs now h e);
  }

  call_if_begun-OneCall :
      (adapter : ℕ → DeliveryJob → ResultSinkConfig → Answer) (config : ResultSinkConfig)
      → (jobs : JobStore) (now : ℕ) (s t : Task) (begun : Bool) → Quiet I s t
      → t.shared.jobs ≡ (begin_side_effect jobs job now).0
      → (begin_side_effect jobs job now).1 ≡ begun
      → OneCall I job s (call_if_begun w job adapter config begun t).0
  unfolding call_if_begun
  call_if_begun-OneCall adapter config jobs now s t true q e h = join_before I job q (
      proceed_after I job t _ (λ response. Quiet-none I) _
        (call_adapter-OneCall adapter config jobs now t e h))
  call_if_begun-OneCall adapter config jobs now s t false q e h = OneCall-Quiet I job q

  call_sink-Calling :
      (adapter : ℕ → DeliveryJob → ResultSinkConfig → Answer) (config : ResultSinkConfig)
      → Calling I job (call_sink w job adapter config)
  unfolding call_sink proceed
  call_sink-Calling adapter config s =
      let jobs = (w.others s.tick s.shared).jobs in
      let op : JobStore → ℕ → JobStore × Bool = λ jobs at. begin_side_effect jobs job at in
      await_jobs_cases w op s
        (λ r. OneCall I job s (proceed (call_if_begun w job adapter config) r).0)
        (λ e. OneCall-Quiet I job (record { kept = k.by_others s.tick s.shared; same = refl }))
        (call_if_begun-OneCall adapter config jobs (w.clock s.tick) s (called w op s) _
          (record {
            kept = λ i. k.by_start jobs (w.clock s.tick) (k.by_others s.tick s.shared i);
            same = refl;
          })
          refl refl)

  try_sink-Calling :
      (adapter : ℕ → DeliveryJob → ResultSinkConfig → Answer) (config : ResultSinkConfig)
      → (now : ℕ) → Calling I job (try_sink w job adapter config now)
  unfolding try_sink
  try_sink-Calling adapter config now =
      call_next I job _ _ (permitted-Quiet I w job k now) (λ permit.
        Calling-if I job (not permit.0) _ _ (λ t. OneCall-Quiet I job (Quiet-none I t))
          (call_first I job _ _
            (call_next I job _ _ (write_status-Quiet I w job k job attempting "attempting")
              (λ x. call_sink-Calling adapter config))
            (λ response. Quiet-none I)))

  attempt-Calling :
      (config : Option ResultSinkConfig)
      → (adapter : Option (ℕ → DeliveryJob → ResultSinkConfig → Answer)) → (now : ℕ)
      → Calling I job (attempt w job config adapter now)
  unfolding attempt
  attempt-Calling (some config) (some adapter) now = try_sink-Calling adapter config now
  attempt-Calling (some config) none now = λ t. OneCall-Quiet I job (Quiet-none I t)
  attempt-Calling none adapter now = λ t. OneCall-Quiet I job (Quiet-none I t)

  read_clock-Quiet : Quietly I (read_clock w)
  unfolding read_clock
  read_clock-Quiet = Quiet-none I

  deliver_body-Calling : Calling I job (deliver_body w job)
  unfolding deliver_body
  deliver_body-Calling =
      call_next I job _ _
        (Quiet-await_jobs I w job k _ (λ jobs at. k.by_renewal jobs w.claim_ttl at))
        (λ renewed.
          Calling-if I job (not renewed) _ _ (λ t. OneCall-Quiet I job (Quiet-none I t))
            (call_next I job _ _ (Quiet-await_jobs I w job k _ (λ jobs at i. i)) (λ config.
              call_next I job _ _ read_clock-Quiet (λ now.
                call_first I job _ _
                  (attempt-Calling config (Dict.get job.sink_type w.adapters) now)
                  (λ made. finish-Quiet I w job k made now)))))

  handle_after :
      (s : Task) (handler : Error → Exec (Unit {0}))
      → ((e : Error) → Quietly I (handler e))
      → (r : Task × Result (Unit {0})) → OneCall I job s r.0
      → OneCall I job s (handle handler r).0
  unfolding handle
  handle_after s handler q (t, err e) c = join_after I job c (q e t)
  handle_after s handler q (t, ok a) c = c

  pub deliver-Calling : Calling I job (deliver w job)
  unfolding deliver
  deliver-Calling s =
      let h =
        handle_after _ _ (on_cancel-Quiet I w job k) _
          (deliver_body-Calling (record s { side_effect_started = false })) in
      record { kept = h.kept; calls = h.calls }

-- A delivery, whatever other tasks do and whichever awaits raise: it calls an adapter at most once,
-- and it does so while the store holds the job, ATTEMPTING, under the claim of the delivery, and
-- with its side effect begun at an instant at which that claim had not run out.
pub deliver-calls :
    (w : World) (job : DeliveryJob) (s : Task)
    → let t = (deliver w job s).0 in
      (t.calls ≡ s.calls) ⊎ ((call : Call) × (t.calls ≡ call ∷ s.calls) × IsGuarded job call)
deliver-calls w job s =
    (deliver-Calling (λ jobs. Unit) job w
      (record {
        by_others = λ i sh u. u;
        by_renewal = λ jobs ttl now u. u;
        by_start = λ jobs now u. u;
        by_marking = λ jobs reason u. u;
        by_recording = λ jobs response next now m u. u;
        by_circuits = λ jobs circuits u. u;
      })
      s).calls

-- A delivery of a job that carries a claim's token keeps the job store valid, however it ends, if
-- the other tasks do: each job is claimed exactly while it is being attempted, complete exactly in
-- a final status, and attempted at least once unless it is PENDING.
pub deliver-Valid :
    (w : World) (job : DeliveryJob) (s : Task)
    → ((i : ℕ) (sh : Shared) → Valid sh.jobs → Valid (w.others i sh).jobs)
    → job.claim_token ≢ none
    → Valid s.shared.jobs
    → Valid (deliver w job s).0.shared.jobs
deliver-Valid w job s others token valid =
    (deliver-Calling Valid job w
        (record {
          by_others = others;
          by_renewal = λ jobs ttl now v. renew_claim-Valid jobs v job ttl now;
          by_start = λ jobs now v. begin_side_effect-Valid jobs v job now;
          by_marking = λ jobs reason v. mark_reconciling-Valid jobs v job reason token;
          by_recording =
              λ jobs response next now m v. record_attempt-Valid jobs v job response next now m;
          by_circuits = λ jobs circuits v. v;
        })
        s).kept
      valid
