-- ===== src/Control/Wakes.antt =====
-- The end, the suspension and the waking of an assignment: `abandon_stale_assignment`,
-- `finish_assignment`, `suspend_assignment`, `suspend_with_checkpoint` and `wake_assignment` of
-- InMemoryControlStateStore.
use aura_claw.Prelude.{
  ℕ, String, Bool, true, false, not, ◌&&◌, ◌||◌, Option, none, some, if◌then◌else◌, ◌==◌, contains,
  option_eq, pair_eq, triple_eq, string_eq, nat_eq, Error, Result, ok, err,
}
use aura_claw.Prelude.Dict
use aura_claw.Prelude.Dict.{
  Dict, get-put, get-remove, get-put_self, get-remove_self, put-put_self, dict_laws,
}
use aura_claw.Control.Store.{
  RunnableItem, RuntimeLease, RuntimeAssignment, RuntimeCheckpoint, QueueStatus, AssignmentStatus,
  ControlStore, resource_of, is_waiting, is_acked, is_active, add, discard,
}
use aura_claw.Control.Leases.{holds_token, checkpoint_key, is_newer}
use aura_claw.Control.Assignments.{resource}

abbrev pub is_expired : AssignmentStatus → Bool
is_expired AssignmentStatus.expired = true
is_expired _ = false

-- completed, failed or cancelled, or one that waits
abbrev pub is_over : AssignmentStatus → Bool
is_over AssignmentStatus.completed = true
is_over AssignmentStatus.failed = true
is_over AssignmentStatus.cancelled = true
is_over status = is_waiting status

-- `self._queue[task_id] = (item, "queued", None)` and the claim dropped, for a queued task
unfoldable pub requeue : String → ControlStore → ControlStore
requeue task_id s = elim (Dict.get task_id s.queue) [
  | none ↦ s
  | some (item, _, _) ↦ record s {
    queue = Dict.put task_id (item, QueueStatus.queued, none) s.queue;
    queue_claims = Dict.remove task_id s.queue_claims;
  }
]

abbrev matches : RuntimeAssignment → (runtime_id lease_id : String) → (fencing_token : ℕ) → Bool
matches a runtime_id lease_id fencing_token =
    a.runtime_id == runtime_id && a.lease_id == lease_id && a.fencing_token == fencing_token

-- the assignment marked expired and its start forgotten
unfoldable pub expire : String → RuntimeAssignment → ControlStore → ControlStore
expire task_id a s = record s {
  assignments = Dict.put task_id (a, AssignmentStatus.expired) s.assignments;
  assignment_started_at = Dict.remove task_id s.assignment_started_at;
}

unfoldable pub abandon_stale_assignment :
    ControlStore
    → (task_id runtime_id lease_id : String) → (fencing_token now : ℕ) → ControlStore × Bool
unfolding requeue expire
abandon_stale_assignment s task_id runtime_id lease_id fencing_token now =
    elim (Dict.get task_id s.assignments) [
      | none ↦ (s, false)
      | some (a, status) ↦
          if not (matches a runtime_id lease_id fencing_token)
          then (s, false)
          else if is_expired status || is_over status
          then (s, true)
          else if holds_token (Dict.get (resource a) s.leases) fencing_token now
          then (s, false)
          else (requeue task_id (expire task_id a s), true)
    ]

-- `del` of the lease that the assignment runs under
abbrev pub without_lease :
    RuntimeAssignment → Dict String RuntimeLease → Option RuntimeLease → Dict String RuntimeLease
without_lease a leases none = leases
without_lease a leases (some lease) =
    if lease.lease_id == a.lease_id then Dict.remove (resource a) leases else leases

-- the assignment takes the outcome, and what it held is given back
unfoldable pub close : String → AssignmentStatus → ControlStore → ControlStore
close task_id outcome s = elim (Dict.get task_id s.assignments) [
  | none ↦ s
  | some (a, _) ↦
      (let s' = record s { assignments = Dict.put task_id (a, outcome) s.assignments } in
        if is_over outcome
        then record s' {
          assignment_started_at = Dict.remove task_id s.assignment_started_at;
          leases = without_lease a s.leases (Dict.get (resource a) s.leases);
        }
        else s')
]

-- The queue entry of a task that has ended: acknowledged, or queued again where a wake has come.
unfoldable pub settle : String → (should_wake : Bool) → ControlStore → ControlStore
settle task_id should_wake s = elim (Dict.get task_id s.queue) [
  | none ↦ s
  | some (item, _, owner) ↦
      if should_wake
      then record s {
        queue = Dict.put task_id (item, QueueStatus.queued, none) s.queue;
        queue_claims = Dict.remove task_id s.queue_claims;
      }
      else record s { queue = Dict.put task_id (item, QueueStatus.acked, owner) s.queue }
]

unfoldable pub forget_wake : String → ControlStore → ControlStore
forget_wake task_id s = record s { pending_wakes = discard task_id s.pending_wakes }

unfoldable pub finish_assignment :
    ControlStore → (task_id : String) → (outcome : AssignmentStatus) → ControlStore
unfolding close settle forget_wake
finish_assignment s task_id outcome =
    let should_wake = is_waiting outcome && contains s.pending_wakes task_id in
    forget_wake task_id (settle task_id should_wake (close task_id outcome s))

unfoldable pub suspend_assignment :
    ControlStore
    → (task_id : String) → (reason : AssignmentStatus) → ControlStore × Result (Unit {0})
unfolding finish_assignment
suspend_assignment s task_id reason =
    if is_waiting reason
    then (finish_assignment s task_id reason, ok tt)
    else (s, err Error.value_error)

-- the checkpoint stored, the assignment suspended, and the lease of the session dropped
unfoldable pub park :
    ControlStore
    → (task_id : String) → RuntimeAssignment
    → RuntimeCheckpoint
    → (reason : AssignmentStatus) → ControlStore
park s task_id a c reason = record s {
  checkpoints = Dict.put (checkpoint_key c) c s.checkpoints;
  assignments = Dict.put task_id (a, reason) s.assignments;
  assignment_started_at = Dict.remove task_id s.assignment_started_at;
  leases = Dict.remove (resource_of c.tenant_id c.session_id) s.leases;
}

-- the runtime that suspends has lost the session, or the run has gone on without it
unfoldable pub is_stale : ControlStore → RuntimeAssignment → RuntimeCheckpoint → (now : ℕ) → Bool
is_stale s a c now =
    not (a.run_id == c.run_id)
    || not
        (holds_token (Dict.get (resource_of c.tenant_id c.session_id) s.leases) c.fencing_token now)
    || is_newer (Dict.get (checkpoint_key c) s.checkpoints) c

unfoldable pub suspend_with_checkpoint :
    ControlStore
    → (task_id : String) → RuntimeCheckpoint
    → (reason : AssignmentStatus) → (now : ℕ) → ControlStore × Result (Unit {0})
unfolding is_stale park settle forget_wake
suspend_with_checkpoint s task_id c reason now =
    if not (is_waiting reason)
    then (s, err Error.value_error)
    else elim (Dict.get task_id s.assignments) [
      | none ↦ (s, err Error.fencing_token)
      | some (a, _) ↦ if is_stale s a c now then (s, err Error.fencing_token) else (
        forget_wake task_id
            (settle task_id (contains s.pending_wakes task_id) (park s task_id a c reason)),
        ok tt,
      )
    ]

-- where both the assignment and the queue entry are there
unfoldable pub wake_found :
    ControlStore
    → (task_id : String) → Option (RuntimeAssignment × AssignmentStatus)
    → Option (RunnableItem × QueueStatus × Option String)
    → ControlStore × Bool
unfolding forget_wake
wake_found s task_id none queued = (s, false)
wake_found s task_id (some _) none = (s, false)
wake_found s task_id (some (_, status)) (some (item, state, _)) =
    if is_active status
    then (record s { pending_wakes = add task_id s.pending_wakes }, false)
    else if not (is_waiting status) || not (is_acked state)
    then (s, false)
    else (
      forget_wake task_id (record s {
        queue = Dict.put task_id (item, QueueStatus.queued, none) s.queue;
        queue_claims = Dict.remove task_id s.queue_claims;
      }),
      true,
    )

unfoldable pub wake_assignment : ControlStore → (task_id : String) → ControlStore × Bool
unfolding wake_found
wake_assignment s task_id =
    wake_found s task_id (Dict.get task_id s.assignments) (Dict.get task_id s.queue)
