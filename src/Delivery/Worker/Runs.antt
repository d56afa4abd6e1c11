-- ===== src/Delivery/Worker/Runs.antt =====
-- How a delivery task of ResultDeliveryWorker runs: it calls an adapter once at most, and keeps
-- what its steps on the job store keep.
use aura_claw.Prelude.{
  ℕ, zero, suc, String, ◌≡◌, refl, ◌∙◌, inl, inr, Bool, true, false, Option, none, some, leb,
  if◌then◌else◌, Option-cases, option_eq, pair_eq, triple_eq, string_eq, nat_eq, length, Error,
  Result, ok, err,
}
use aura_claw.Prelude.Dict
use aura_claw.Prelude.Dict.{
  Dict, get-put, get-remove, get-put_self, get-remove_self, put-put_self, dict_laws,
}
use aura_claw.Delivery.Types.{DeliveryJob, DeliveryStatus, SinkResponse}
use aura_claw.Delivery.Store.{
  JobStore, renew_claim, begin_side_effect, mark_reconciling, record_attempt, is_attempting,
  is_live,
}
use aura_claw.Events.Store.{AppendResult, stream}
use aura_claw.Delivery.Worker.{
  World, Payload, Task, Shared, Call, Exec, await_call, await_jobs, resumed, proceed, handle, catch,
}
use aura_claw.Delivery.Worker.{◌>>=◌}
use aura_claw.Delivery.Worker.Status
use aura_claw.Delivery.Worker.Status.{
  write_status, mark_task_reconciling, is_conflict, status_event,
}

-- The store holds the job of a call, ATTEMPTING, under the claim of the task; when the side effect
-- began, the claim had not run out.
pub record IsGuarded (job : DeliveryJob) (call : Call) : Type 0 where
  pub current : DeliveryJob
  pub stored : Dict.get job.delivery_id call.jobs.jobs ≡ some current
  pub owner : (current.claimed_by ≡ job.claimed_by) × (current.claim_token ≡ job.claim_token)
  pub active : is_attempting current.status ≡ true
  pub begun :
      (at : ℕ) × (current.side_effect_started_at ≡ some at)
      × (is_live current.claim_expires_at at ≡ true)

-- an await raises, or its call is made
pub await_call_cases :
    (w : World) {A : Type 0} (op : Shared → ℕ → Shared × Result A) (s : Task)
    → (P : Task × Result A → Type 0) → ((e : Error) → P (resumed w s, err e))
    → (let (sh, r) = op (resumed w s).shared (w.clock s.tick) in
        P (record (resumed w s) { shared = sh }, r))
    → P (await_call w op s)
unfolding await_call
await_call_cases w op s P raised made = elim (Option-cases (w.fails s.tick)) [
  | inl e ↦ rw (e, await_call) made
  | inr (raise, e) ↦ rw (e, await_call) (raised raise)
]

-- a task after the call of a method of the job store
abbrev pub called : {A : Type 0} → World → (JobStore → ℕ → JobStore × A) → Task → Task
called w op s =
    let next = resumed w s in
    record next { shared = record next.shared { jobs = (op next.shared.jobs (w.clock s.tick)).0 } }

pub await_jobs_cases :
    (w : World) {A : Type 0} (op : JobStore → ℕ → JobStore × A) (s : Task)
    → (P : Task × Result A → Type 0) → ((e : Error) → P (resumed w s, err e))
    → P (called w op s, ok (op (resumed w s).shared.jobs (w.clock s.tick)).1)
    → P (await_jobs w op s)
unfolding await_jobs
await_jobs_cases w op =
    await_call_cases w
      (λ sh now. let (jobs, a) = op sh.jobs now in (record sh { jobs = jobs }, ok a))

-- what the steps of a task, and the other tasks, keep of the job store
pub record Kept (I : JobStore → Type 0) (w : World) (job : DeliveryJob) : Type 0 where
  pub by_others : (i : ℕ) (sh : Shared) → I sh.jobs → I (w.others i sh).jobs
  pub by_renewal : (s : JobStore) (ttl now : ℕ) → I s → I (renew_claim s job ttl now).0
  pub by_start : (s : JobStore) (now : ℕ) → I s → I (begin_side_effect s job now).0
  pub by_marking : (s : JobStore) (reason : String) → I s → I (mark_reconciling s job reason).0
  pub by_recording :
      (s : JobStore) (response : SinkResponse) (next : Option ℕ) (now max_attempts : ℕ)
      → I s
      → I (record_attempt response next now s job max_attempts).0
  pub by_circuits : (s : JobStore) (circuits : _) → I s → I (record s { circuits = circuits })

module _ (I : JobStore → Type 0) where
  -- no call, and the store as good as it was
  pub record Quiet (s t : Task) : Type 0 where
    pub kept : I s.shared.jobs → I t.shared.jobs
    pub same : t.calls ≡ s.calls

  abbrev pub Quietly : {A : Type 0} → Exec A → Type 0
  Quietly m = (s : Task) → Quiet s (m s).0

  module _ {A : Type 0} where
    Quiet-handle :
        (s : Task) (handler : Error → Exec A)
        → ((e : Error) → Quietly (handler e))
        → (r : Task × Result A) → Quiet s r.0
        → Quiet s (handle handler r).0
    unfolding handle
    Quiet-handle s handler q (t, ok a) h = h
    Quiet-handle s handler q (t, err e) h =
        let k = q e t in record { kept = λ i. k.kept (h.kept i); same = k.same ∙ h.same }

    pub Quiet-catch :
        (m : Exec A) (handler : Error → Exec A)
        → Quietly m
        → ((e : Error) → Quietly (handler e))
        → Quietly (catch m handler)
    Quiet-catch m handler q k s = Quiet-handle s handler k (m s) (q s)

  module _ {A B : Type 0} where
    pub Quiet-proceed :
        (s : Task) (next : A → Exec B)
        → ((a : A) → Quietly (next a))
        → (r : Task × Result A) → Quiet s r.0
        → Quiet s (proceed next r).0
    unfolding proceed
    Quiet-proceed s next q (t, err e) h = h
    Quiet-proceed s next q (t, ok a) h =
        let k = q a t in record { kept = λ i. k.kept (h.kept i); same = k.same ∙ h.same }

    pub Quiet->>= :
        (m : Exec A) (next : A → Exec B)
        → Quietly m
        → ((a : A) → Quietly (next a))
        → Quietly (m >>= next)
    Quiet->>= m next q k s = Quiet-proceed s next k (m s) (q s)

  pub Quiet-none : (s : Task) → Quiet s s
  Quiet-none s = record { kept = λ i. i; same = refl }

  pub Quiet-if :
      {A : Type 0} (test : Bool) (m n : Exec A)
      → Quietly m
      → Quietly n
      → Quietly (if test then m else n)
  Quiet-if true m n p q = p
  Quiet-if false m n p q = q

  module _ (w : World) (job : DeliveryJob) (k : Kept I w job) where
    pub Quiet-await :
        {A : Type 0} (op : Shared → ℕ → Shared × Result A)
        → ((sh : Shared) (now : ℕ) → I sh.jobs → I (op sh now).0.jobs)
        → Quietly (await_call w op)
    Quiet-await op keeps s =
        await_call_cases w op s (λ r. Quiet s r.0)
          (λ e. record { kept = k.by_others s.tick s.shared; same = refl })
          (record {
            kept = λ i. keeps _ (w.clock s.tick) (k.by_others s.tick s.shared i);
            same = refl;
          })

    pub Quiet-await_jobs :
        {A : Type 0} (op : JobStore → ℕ → JobStore × A)
        → ((jobs : JobStore) (now : ℕ) → I jobs → I (op jobs now).0)
        → Quietly (await_jobs w op)
    unfolding await_jobs
    Quiet-await_jobs op keeps =
        Quiet-await (λ sh now. let (jobs, a) = op sh.jobs now in (record sh { jobs = jobs }, ok a))
          (λ sh now. keeps sh.jobs now)

    module _ (j : DeliveryJob) (status : DeliveryStatus) where
      load_events-Quiet : Quietly (Status.load_events j status w)
      unfolding Status.load_events
      load_events-Quiet =
          Quiet-await (λ sh now. (sh, ok (stream (j.tenant_id, j.session_id) sh.events)))
            (λ sh now i. i)

      run_relay-Quiet : Quietly (Status.run_relay j status w)
      unfolding Status.run_relay
      run_relay-Quiet = Quiet-await (λ sh now. (sh, ok tt)) (λ sh now i. i)

      append_status-Quiet :
          (type summary : String) (version : ℕ)
          → Quietly (Status.append_status j status w type summary version)
      unfolding Status.append_status
      append_status-Quiet type summary version s =
          Quiet-await (Status.status_append j status w type summary version s.tick)
            (unfold Status.status_append in λ sh now i. i) s

      on_conflict-Quiet :
          (A : Type 0) (e : Error) → Quietly (Status.on_conflict j status w {A = A} e)
      unfolding Status.on_conflict
      on_conflict-Quiet A e = Quiet-if (is_conflict e) _ _ Quiet-none Quiet-none

      try_append-Quiet :
          (type summary : String) (version : ℕ)
          → Quietly (Status.try_append j status w type summary version)
      unfolding Status.try_append
      try_append-Quiet type summary version =
          Quiet-catch _ (Status.on_conflict j status w)
            (Quiet->>= _ _ (append_status-Quiet type summary version) (λ a. Quiet-none))
            (on_conflict-Quiet _)

      after_append-Quiet :
          (again : Exec (Unit {0}))
          → Quietly again
          → (r : Option (AppendResult Payload)) → Quietly (Status.after_append j status w again r)
      unfolding Status.after_append
      after_append-Quiet again q none = q
      after_append-Quiet again q (some r) = Quiet-if r.deduplicated _ _ Quiet-none run_relay-Quiet

      write_rounds-Quiet :
          (rounds : ℕ) (type summary : String)
          → Quietly (Status.write_rounds j status w rounds type summary)
      unfolding Status.write_rounds
      write_rounds-Quiet zero type summary = Quiet-none
      write_rounds-Quiet (suc n) type summary = Quiet->>= _ _ load_events-Quiet (λ events.
          Quiet-if (leb (length events) 0) _ _ Quiet-none (
            Quiet->>= _ _ (try_append-Quiet type summary (length events))
              (after_append-Quiet _ (write_rounds-Quiet n type summary))))

      write_event-Quiet :
          (summary : String) (event_type : Option String)
          → Quietly (Status.write_event j status w summary event_type)
      unfolding Status.write_event
      write_event-Quiet summary none = Quiet-none
      write_event-Quiet summary (some type) = write_rounds-Quiet 5 type summary

      pub write_status-Quiet : (summary : String) → Quietly (write_status j status w summary)
      unfolding write_status
      write_status-Quiet summary = write_event-Quiet summary (status_event status)
