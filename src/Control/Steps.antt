-- ===== src/Control/Steps.antt =====
-- The runs of InMemoryControlStateStore, one step for each method that changes state.
use aura_claw.Prelude.{
  ℕ, String, refl, Option, option_eq, pair_eq, triple_eq, string_eq, nat_eq, take,
}
use aura_claw.Control.Store.{
  RunnableItem, RuntimeLease, RuntimeAssignment, RuntimeInstance, RuntimeCheckpoint,
  AssignmentStatus, ControlStore,
}
use aura_claw.Control.Queue.{
  enqueue, claim, candidates, reschedule, reserve_capacity, release_capacity,
}
use aura_claw.Control.Leases.{
  acquire_lease, renew_lease, release_lease, save_checkpoint, request_cancel, register_runtime,
  heartbeat,
}
use aura_claw.Control.Assignments.{assign, claim_assignments, renew_assignment_claim}
use aura_claw.Control.Wakes.{
  abandon_stale_assignment, finish_assignment, suspend_assignment, suspend_with_checkpoint,
  wake_assignment,
}
use aura_claw.Control.Recovery.{recover_expired}
use aura_claw.Control.Later.{Later, Later-refl, Later-trans}
use aura_claw.Control.Later.Grants.{
  Later-frame, Later-acquire_lease, Later-renew_lease, Later-release_lease, Later-save_checkpoint,
}
use aura_claw.Control.Later.Frames
use aura_claw.Control.Later.Ends

pub data Step : ControlStore → ControlStore → Type 0 where
  enqueued : {s : ControlStore} (item : RunnableItem) → Step s (enqueue s item).0
  claimed :
      {s : ControlStore} (worker_id : String) (claim_ttl now : ℕ) (token : ℕ → String) (limit : ℕ)
      → Step s (claim worker_id claim_ttl now token limit s).0
  rescheduled :
      {s : ControlStore} (task_id : String) (worker_id claim_token : Option String)
      (delay now again : ℕ)
      → Step s (reschedule s task_id worker_id claim_token delay now again)
  acquired :
      {s : ControlStore} (resource_id owner hex : String) (ttl now : ℕ)
      → Step s (acquire_lease s resource_id owner hex ttl now).0
  renewed :
      {s : ControlStore} (lease : RuntimeLease) (ttl now again : ℕ)
      → Step s (renew_lease s lease ttl now again).0
  released : {s : ControlStore} (lease : RuntimeLease) → Step s (release_lease s lease)
  assigned :
      {s : ControlStore} (task_id : String) (a : RuntimeAssignment) (claim_token : String)
      (now again : ℕ)
      → Step s (assign s task_id a claim_token now again).0
  taken :
      {s : ControlStore} (runtime_id role registration_id : String) (token : ℕ → String)
      (limit now : ℕ)
      → Step s (claim_assignments s runtime_id role registration_id token limit now).0
  kept :
      {s : ControlStore} (task_id runtime_id registration_id token lease_id : String)
      (fencing_token now : ℕ)
      → Step s
          (renew_assignment_claim s task_id runtime_id registration_id token lease_id fencing_token
            now).0
  abandoned :
      {s : ControlStore} (task_id runtime_id lease_id : String) (fencing_token now : ℕ)
      → Step s (abandon_stale_assignment s task_id runtime_id lease_id fencing_token now).0
  finished :
      {s : ControlStore} (task_id : String) (outcome : AssignmentStatus)
      → Step s (finish_assignment s task_id outcome)
  suspended :
      {s : ControlStore} (task_id : String) (reason : AssignmentStatus)
      → Step s (suspend_assignment s task_id reason).0
  parked :
      {s : ControlStore} (task_id : String) (c : RuntimeCheckpoint) (reason : AssignmentStatus)
      (now : ℕ)
      → Step s (suspend_with_checkpoint s task_id c reason now).0
  woken : {s : ControlStore} (task_id : String) → Step s (wake_assignment s task_id).0
  registered :
      {s : ControlStore} (i : RuntimeInstance) (now again : ℕ)
      → Step s (register_runtime s i now again).0
  beaten :
      {s : ControlStore} (runtime_id : String) (fencing_token : Option ℕ) (registration_id : String)
      (now : ℕ)
      → Step s (heartbeat s runtime_id fencing_token registration_id now).0
  reserved :
      {s : ControlStore} (scope : String) (amount limit : ℕ)
      → Step s (reserve_capacity s scope amount limit).0
  freed :
      {s : ControlStore} (scope : String) (amount : ℕ) → Step s (release_capacity s scope amount)
  saved : {s : ControlStore} (c : RuntimeCheckpoint) (now : ℕ) → Step s (save_checkpoint s c now).0
  cancelled :
      {s : ControlStore} (tenant_id session_id run_id : String)
      → Step s (request_cancel s tenant_id session_id run_id)
  recovered : {s : ControlStore} (now : ℕ) → Step s (recover_expired s now).0

pub data Steps : ControlStore → ControlStore → Type 0 where
  stay : {s : ControlStore} → Steps s s
  go : {s t u : ControlStore} → Step s t → Steps t u → Steps s u

Step-Later : {s t : ControlStore} → Step s t → Later s t
unfolding release_capacity claim
Step-Later (enqueued {s} item) = Frames.Later-enqueue s item
Step-Later (claimed {s} worker_id claim_ttl now token limit) =
    Frames.Later-claim_items worker_id claim_ttl now token 0 (take limit (candidates s now)) s
Step-Later (rescheduled {s} task_id worker_id claim_token delay now again) =
    Frames.Later-reschedule s task_id worker_id claim_token delay now again
Step-Later (acquired {s} resource_id owner hex ttl now) =
    Later-acquire_lease s resource_id owner hex ttl now
Step-Later (renewed {s} lease ttl now again) = Later-renew_lease s lease ttl now again
Step-Later (released {s} lease) = Later-release_lease s lease
Step-Later (assigned {s} task_id a claim_token now again) =
    Frames.Later-assign s task_id a claim_token now again
Step-Later (taken {s} runtime_id role registration_id token limit now) =
    Frames.Later-claim_assignments s runtime_id role registration_id token limit now
Step-Later (kept {s} task_id runtime_id registration_id token lease_id fencing_token now) =
    Frames.Later-renew_assignment_claim s task_id runtime_id registration_id token lease_id
      fencing_token now
Step-Later (abandoned {s} task_id runtime_id lease_id fencing_token now) =
    Frames.Later-abandon s task_id runtime_id lease_id fencing_token now
Step-Later (finished {s} task_id outcome) = Ends.Later-finish s task_id outcome
Step-Later (suspended {s} task_id reason) = Ends.Later-suspend s task_id reason
Step-Later (parked {s} task_id c reason now) =
    Ends.Later-suspend_with_checkpoint s task_id c reason now
Step-Later (woken {s} task_id) = Frames.Later-wake s task_id
Step-Later (registered {s} i now again) = Frames.Later-register_runtime s i now again
Step-Later (beaten {s} runtime_id fencing_token registration_id now) =
    Frames.Later-heartbeat s runtime_id fencing_token registration_id now
Step-Later (reserved {s} scope amount limit) = Frames.Later-reserve_capacity s scope amount limit
Step-Later (freed {s} scope amount) = Later-frame s _ refl refl refl
Step-Later (saved {s} c now) = Later-save_checkpoint s c now
Step-Later (cancelled {s} tenant_id session_id run_id) =
    Frames.Later-request_cancel s tenant_id session_id run_id
Step-Later (recovered {s} now) = Ends.Later-recover s now

pub Steps-Later : {s t : ControlStore} → Steps s t → Later s t
Steps-Later (stay {s}) = Later-refl s
Steps-Later (go step rest) = Later-trans (Step-Later step) (Steps-Later rest)
