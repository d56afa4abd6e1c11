-- ===== src/Delivery/Worker/Abandoned.antt =====
-- What `_deliver` of ResultDeliveryWorker leaves of a job whose side effect was interrupted.
use aura_claw.Prelude.{
  ℕ, String, ◌≡◌, refl, sym, ap, subst, Bool, true, false, Option, none, some, arith, if◌then◌else◌,
  option_eq, pair_eq, triple_eq, string_eq, nat_eq, Error, ok, err,
}
use aura_claw.Prelude.Dict
use aura_claw.Prelude.Dict.{
  Dict, get-put, get-remove, get-put_self, get-remove_self, put-put_self, dict_laws,
}
use aura_claw.Prelude.Text.{take_chars}
use aura_claw.Delivery.Types.{DeliveryJob, SinkResponse}
use aura_claw.Delivery.Types.DeliveryStatus.{reconciling}
use aura_claw.Delivery.Store.{
  JobStore, renew_claim, begin_side_effect, mark_reconciling, record_attempt, same_claim,
}
use aura_claw.Delivery.Worker.{
  World, Task, Shared, Exec, await_call, await_jobs, resumed, handle, return_value,
}
use aura_claw.Delivery.Worker.Status.{write_status, mark_task_reconciling}
use aura_claw.Delivery.Worker.Deliver.{
  mark_if, mark_if_started, cancelled_with, on_cancel, deliver_body, deliver,
}
use aura_claw.Delivery.Worker.Runs.{
  Kept, Quiet-none, Quiet-if, Quiet-proceed, write_status-Quiet, called,
}
use aura_claw.Delivery.Worker.Quiet.{raise_unless-Quiet}

-- the job waits for a reconciliation, and no worker holds it
pub record IsAbandoned (job : DeliveryJob) (s : JobStore) : Type 0 where
  pub current : DeliveryJob
  pub stored : Dict.get job.delivery_id s.jobs ≡ some current
  pub waits : current.status ≡ reconciling
  pub owner : current.claimed_by ≡ none
  pub token : current.claim_token ≡ none
  pub expires : current.claim_expires_at ≡ none

module _ (job : DeliveryJob) (token : String) (t : job.claim_token ≡ some token) (s : JobStore)
    (a : IsAbandoned job s) where
  abandoned_renewal : (ttl now : ℕ) → renew_claim s job ttl now ≡ (s, false)
  unfolding renew_claim
  abandoned_renewal ttl now = ground (arith, a.stored, a.token, a.expires, t)

  abandoned_start : (now : ℕ) → begin_side_effect s job now ≡ (s, false)
  unfolding begin_side_effect
  abandoned_start now = ground (arith, a.stored, a.token, a.expires, t)

  abandoned_marking : (reason : String) → mark_reconciling s job reason ≡ (s, false)
  unfolding mark_reconciling
  abandoned_marking reason = ground (arith, a.stored, a.token, t)

  abandoned_recording :
      (response : SinkResponse) (next : Option ℕ) (now max_attempts : ℕ)
      → record_attempt response next now s job max_attempts ≡ (s, err Error.runtime_error)
  unfolding record_attempt
  abandoned_recording response next now m = ground (arith, a.stored, a.token, a.expires, t)

-- a step that changes nothing keeps a property
stays :
    {A : Type 0} (I : JobStore → Type 0) (s : JobStore) (r : JobStore × A) (a : A)
    → r ≡ (s, a)
    → I s
    → I r.0
stays I s r a e i = subst I (sym (ap (λ p. p.0) e)) i

module _ (w : World) (job : DeliveryJob) (token : String) (t : job.claim_token ≡ some token)
    (others : (i : ℕ) (sh : Shared)
      → IsAbandoned job sh.jobs
      → IsAbandoned job (w.others i sh).jobs) where
  IsAbandoned-Kept : Kept (IsAbandoned job) w job
  IsAbandoned-Kept = record {
    by_others = others;
    by_renewal =
        λ s ttl now a. stays (IsAbandoned job) s _ _ (abandoned_renewal job token t s a ttl now) a;
    by_start = λ s now a. stays (IsAbandoned job) s _ _ (abandoned_start job token t s a now) a;
    by_marking =
        λ s reason a. stays (IsAbandoned job) s _ _ (abandoned_marking job token t s a reason) a;
    by_recording = λ s response next now m a.
        stays (IsAbandoned job) s _ _ (abandoned_recording job token t s a response next now m) a;
    by_circuits = λ s circuits a. record {
      current = a.current;
      stored = a.stored;
      waits = a.waits;
      owner = a.owner;
      token = a.token;
      expires = a.expires;
    };
  }

-- the store as the task finds it at its next await: the job is held under the claim of the task,
-- and its side effect has begun
pub record IsInterrupted (w : World) (job : DeliveryJob) (s : Task) : Type 0 where
  pub runs : w.fails s.tick ≡ none
  pub started : s.side_effect_started ≡ true
  pub current : DeliveryJob
  pub stored : Dict.get job.delivery_id (resumed w s).shared.jobs.jobs ≡ some current
  pub holds : same_claim current job ≡ true
  pub started_at : ℕ
  pub begun : current.side_effect_started_at ≡ some started_at

module _ (w : World) (job : DeliveryJob) where
  await_made :
      {A : Type 0} (op : JobStore → ℕ → JobStore × A) (s : Task)
      → w.fails s.tick ≡ none
      → await_jobs w op s ≡ (called w op s, ok (op (resumed w s).shared.jobs (w.clock s.tick)).1)
  unfolding await_jobs await_call
  await_made op s e = rw (e, await_jobs, await_call) refl

  marking-IsAbandoned :
      (s : Task) (reason : String)
      → IsInterrupted w job s
      → IsAbandoned job (mark_reconciling (resumed w s).shared.jobs job reason).0
  unfolding mark_reconciling
  marking-IsAbandoned s reason i =
      let jobs = (resumed w s).shared.jobs in
      let new = record i.current {
        status = reconciling;
        reconciliation_reason = some (take_chars 128 reason);
        claimed_by = none;
        claim_token = none;
        claim_expires_at = none;
      } in
      record {
        current = new;
        stored =
            ground (arith, i.stored, i.holds, i.begun, get-put_self job.delivery_id new jobs.jobs);
        waits = refl;
        owner = refl;
        token = refl;
        expires = refl;
      }

module _ (w : World) (job : DeliveryJob) (token : String) (t : job.claim_token ≡ some token)
    (others : (i : ℕ) (sh : Shared)
      → IsAbandoned job sh.jobs
      → IsAbandoned job (w.others i sh).jobs) where
  marked-IsAbandoned :
      (s : Task) (reason : String)
      → IsInterrupted w job s
      → IsAbandoned job (mark_task_reconciling w job reason s).0.shared.jobs
  unfolding mark_task_reconciling
  marked-IsAbandoned s reason i =
      let op : JobStore → ℕ → JobStore × Bool = λ jobs now. mark_reconciling jobs job reason in
      let k = IsAbandoned-Kept w job token t others in
      let next : Bool → Exec (Unit {0}) =
        λ marked. if marked then write_status job reconciling w reason else return_value tt in
      let r = await_jobs w op s in
      let made = await_made w job op s i.runs in
      (Quiet-proceed (IsAbandoned job) r.0 next
          (λ marked.
            Quiet-if (IsAbandoned job) marked _ _
              (write_status-Quiet (IsAbandoned job) w job k job reconciling reason)
              (Quiet-none (IsAbandoned job)))
          r (Quiet-none (IsAbandoned job) r.0)).kept
        (subst (λ q. IsAbandoned job q.0.shared.jobs) (sym made)
          (marking-IsAbandoned w job s reason i))

  marked_if-IsAbandoned :
      (s : Task) (reason : String)
      → IsInterrupted w job s
      → IsAbandoned job (mark_if_started w job reason s).0.shared.jobs
  unfolding mark_if_started mark_if
  marked_if-IsAbandoned s reason i =
      subst (λ b. IsAbandoned job (mark_if w job b reason s).0.shared.jobs) (sym i.started)
        (marked-IsAbandoned s reason i)

  cancelled-IsAbandoned :
      (s : Task) (reason : String)
      → IsInterrupted w job s
      → IsAbandoned job (cancelled_with w job reason Error.cancelled s).0.shared.jobs
  unfolding cancelled_with
  cancelled-IsAbandoned s reason i =
      let r = mark_if_started w job reason s in
      (Quiet-proceed (IsAbandoned job) r.0 _
          (λ x u.
            raise_unless-Quiet (IsAbandoned job) w job (IsAbandoned-Kept w job token t others)
              (w.lease_lost u.tick) Error.cancelled u)
          r (Quiet-none (IsAbandoned job) r.0)).kept
        (marked_if-IsAbandoned s reason i)

-- A delivery that is cancelled once its side effect has begun leaves the job RECONCILING and
-- without a claim, if the job is still held under the claim of the delivery when `mark_reconciling`
-- is awaited, that await itself does not raise, and the other tasks leave such a job alone; the
-- awaits after it may raise.
pub deliver-IsAbandoned :
    (w : World) (job : DeliveryJob) (token : String) (s : Task)
    → job.claim_token ≡ some token
    → ((i : ℕ) (sh : Shared) → IsAbandoned job sh.jobs → IsAbandoned job (w.others i sh).jobs)
    → let (s', answer) = deliver_body w job (record s { side_effect_started = false }) in
      answer ≡ err Error.cancelled
      → IsInterrupted w job s'
      → IsAbandoned job (deliver w job s).0.shared.jobs
unfolding deliver on_cancel handle
deliver-IsAbandoned w job token s t others h i =
    let (s', answer) = deliver_body w job (record s { side_effect_started = false }) in
    subst (λ r. IsAbandoned job (handle (on_cancel w job) (s', r)).0.shared.jobs) (sym h)
      (cancelled-IsAbandoned w job token t others s' _ i)
