-- ===== src/Delivery/Worker/Quiet.antt =====
-- Proofs about the parts of `_deliver` that call no adapter.
use Prim.Native.Nat.{◌^◌}
use aura_claw.Prelude.{
  ℕ, ◌+◌, ◌-◌, ◌*◌, leb, String, refl, Bool, true, false, Option, none, some, option_eq, pair_eq,
  triple_eq, string_eq, nat_eq, Error,
}
use aura_claw.Delivery.Types.{DeliveryJob}
use aura_claw.Delivery.Types.DeliveryStatus.{reconciling}
use aura_claw.Delivery.Store.{JobStore}
use aura_claw.Delivery.Circuit.{acquire_sink_circuit, record_sink_circuit_result}
use aura_claw.Delivery.LocalCircuit.{CircuitBreaker}
use aura_claw.Delivery.Worker.{World, at_once}
use aura_claw.Delivery.Worker.Status.{mark_task_reconciling}
use aura_claw.Delivery.Worker.Deliver.{
  Attempted, permitted_by, acquire_for, mark_if, raise_unless, cancelled_with, record_circuit_by,
  record_for, permitted, record_circuit, mark_if_started, completion_lost, complete, finish,
  retry_delay, next_attempt, on_cancel, is_cancelled,
}
use aura_claw.Delivery.Worker.Runs.{
  Kept, Quietly, Quiet-none, Quiet-if, Quiet->>=, Quiet-catch, Quiet-await, Quiet-await_jobs,
  write_status-Quiet,
}

module _ (I : JobStore → Type 0) (w : World) (job : DeliveryJob) (k : Kept I w job) where
  permitted_by-Quiet :
      (breaker : Option CircuitBreaker) (now : ℕ) → Quietly I (permitted_by w job breaker now)
  unfolding permitted_by
  permitted_by-Quiet (some breaker) now s = unfold at_once in record { kept = λ i. i; same = refl }
  permitted_by-Quiet none now s =
      Quiet-await_jobs I w job k (acquire_for w job s.tick)
        (unfold acquire_for acquire_sink_circuit in λ jobs at i. k.by_circuits jobs _ i) s

  pub permitted-Quiet : (now : ℕ) → Quietly I (permitted w job now)
  unfolding permitted
  permitted-Quiet now s = permitted_by-Quiet s.shared.local_circuit now s

  mark_task_reconciling-Quiet : (reason : String) → Quietly I (mark_task_reconciling w job reason)
  unfolding mark_task_reconciling
  mark_task_reconciling-Quiet reason =
      Quiet->>= I _ _ (Quiet-await_jobs I w job k _ (λ jobs now. k.by_marking jobs reason))
        (λ marked.
          Quiet-if I marked _ _ (write_status-Quiet I w job k job reconciling reason)
            (Quiet-none I))

  mark_if-Quiet : (started : Bool) (reason : String) → Quietly I (mark_if w job started reason)
  unfolding mark_if
  mark_if-Quiet true reason = mark_task_reconciling-Quiet reason
  mark_if-Quiet false reason = Quiet-none I

  mark_if_started-Quiet : (reason : String) → Quietly I (mark_if_started w job reason)
  unfolding mark_if_started
  mark_if_started-Quiet reason s = mark_if-Quiet s.side_effect_started reason s

  completion_lost-Quiet : (e : Error) → Quietly I (completion_lost w job e)
  unfolding completion_lost
  completion_lost-Quiet e =
      Quiet-if I (is_cancelled e) _ _ (Quiet-none I)
        (Quiet->>= I _ _ (mark_if_started-Quiet "attempt_completion_lost") (λ x. Quiet-none I))

  pub raise_unless-Quiet : (lost : Bool) (e : Error) → Quietly I (raise_unless w job lost e)
  unfolding raise_unless
  raise_unless-Quiet true e = Quiet-none I
  raise_unless-Quiet false e = Quiet-none I

  cancelled_with-Quiet : (reason : String) (e : Error) → Quietly I (cancelled_with w job reason e)
  unfolding cancelled_with
  cancelled_with-Quiet reason e =
      Quiet-if I (is_cancelled e) _ _
        (Quiet->>= I _ _ (mark_if_started-Quiet reason)
          (λ x s. raise_unless-Quiet (w.lease_lost s.tick) e s))
        (Quiet-none I)

  pub on_cancel-Quiet : (e : Error) → Quietly I (on_cancel w job e)
  unfolding on_cancel
  on_cancel-Quiet e s = cancelled_with-Quiet _ e s

  record_circuit_by-Quiet :
      (breaker : Option CircuitBreaker) (a : Attempted) (now : ℕ)
      → Quietly I (record_circuit_by w job breaker a now)
  unfolding record_circuit_by
  record_circuit_by-Quiet (some breaker) a now =
      unfold at_once in λ s. record { kept = λ i. i; same = refl }
  record_circuit_by-Quiet none a now =
      Quiet-if I a.attempted_sink _ _
        (Quiet-await_jobs I w job k (record_for w job a)
          (unfold record_for record_sink_circuit_result in λ jobs at i. k.by_circuits jobs _ i))
        (Quiet-none I)

  record_circuit-Quiet : (a : Attempted) (now : ℕ) → Quietly I (record_circuit w job a now)
  unfolding record_circuit
  record_circuit-Quiet a now s = record_circuit_by-Quiet s.shared.local_circuit a now s

  retry_delay-Quiet : Quietly I (retry_delay w job)
  unfolding retry_delay
  retry_delay-Quiet =
      Quiet-if I (leb (w.base_retry_delay * 2 ^ (job.attempt_count - 1)) w.longest_delay) _ _
        (Quiet-none I) (Quiet-none I)

  next_attempt-Quiet : (now delay : ℕ) → Quietly I (next_attempt w job now delay)
  unfolding next_attempt
  next_attempt-Quiet now delay =
      Quiet-if I (leb (now + delay) w.last_instant) _ _ (Quiet-none I) (Quiet-none I)

  complete-Quiet : (a : Attempted) (now : ℕ) → Quietly I (complete w job a now)
  unfolding complete
  complete-Quiet a now =
      Quiet->>= I _ _
        (Quiet->>= I _ _ (Quiet->>= I _ _ (record_circuit-Quiet a now) (λ x. retry_delay-Quiet))
          (λ delay.
            Quiet-catch I _ _
              (Quiet->>= I _ _ (next_attempt-Quiet now delay) (λ next_attempt_at.
                Quiet-await I w job k _
                  (λ sh at. k.by_recording sh.jobs a.response (some next_attempt_at) at _)))
              completion_lost-Quiet))
        (λ updated. write_status-Quiet I w job k updated updated.status a.response.summary)

  pub finish-Quiet : (a : Option Attempted) (now : ℕ) → Quietly I (finish w job a now)
  unfolding finish
  finish-Quiet none now = Quiet-none I
  finish-Quiet (some a) now = complete-Quiet a now
