-- ===== src/Control/Waking.antt =====
-- Proofs about `wake_assignment`, `finish_assignment` and `suspend_with_checkpoint` of
-- InMemoryControlStateStore, in either order.
use aura_claw.Prelude.{
  ℕ, String, ◌≡◌, refl, sym, ap, ◌∙◌, subst, inl, inr, Bool, true, false, Option, none, some, List,
  [], ◌∷◌, ◌++◌, arith, Bool-cases, contains, option_eq, pair_eq, triple_eq, string_eq, nat_eq,
  ==_refl, ok,
}
use aura_claw.Prelude.Dict
use aura_claw.Prelude.Dict.{
  Dict, get-put, get-remove, get-put_self, get-remove_self, put-put_self, dict_laws,
}
use aura_claw.Control.Store.{
  RunnableItem, RuntimeAssignment, RuntimeCheckpoint, QueueStatus, AssignmentStatus, ControlStore,
  is_waiting, is_active, add, discard,
}
use aura_claw.Control.Leases.{checkpoint_key, load_checkpoint}
use aura_claw.Control.Wakes.{
  finish_assignment, suspend_with_checkpoint, is_stale, park, close, settle, forget_wake,
  wake_assignment, wake_found, is_over,
}

contains-append : (x : String) (xs : List String) → contains (xs ++ x ∷ []) x ≡ true
contains-append x [] = ground (arith, ==_refl x)
contains-append x (y ∷ xs) = ground (arith, contains-append x xs)

contains-add : (x : String) (xs : List String) → contains (add x xs) x ≡ true
contains-add x xs = ground (arith, contains-append x xs)

contains-discard : (x : String) (xs : List String) → contains (discard x xs) x ≡ false
contains-discard x [] = refl
contains-discard x (y ∷ xs) = ground (arith, contains-discard x xs)

-- the task is queued, nobody claims it, and no wake of it is pending
pub record Queued (task_id : String) (item : RunnableItem) (s : ControlStore) : Type 0 where
  pub entry : Dict.get task_id s.queue ≡ some (item, QueueStatus.queued, none)
  pub unclaimed : Dict.get task_id s.queue_claims ≡ none
  pub spent : contains s.pending_wakes task_id ≡ false

-- `close` leaves the queue and the pending wakes alone.
close-queue :
    (s : ControlStore) (task_id : String) (outcome : AssignmentStatus)
    → ((close task_id outcome s).queue ≡ s.queue)
      × ((close task_id outcome s).pending_wakes ≡ s.pending_wakes)
unfolding close
close-queue s task_id outcome = (ground arith, ground arith)

Queued-settle :
    (s : ControlStore) (task_id : String) {item : RunnableItem} {status : QueueStatus}
    {owner : Option String}
    → Dict.get task_id s.queue ≡ some (item, status, owner)
    → Queued task_id item (forget_wake task_id (settle task_id true s))
unfolding settle forget_wake
Queued-settle s task_id {item} e =
    rw (settle, e)
      (record {
        entry = Dict.get-put_self task_id (item, QueueStatus.queued, none) s.queue;
        unclaimed = Dict.get-remove_self task_id s.queue_claims;
        spent = contains-discard task_id s.pending_wakes;
      })

-- `close` leaves the queue entry of the task alone.
get-close :
    (s : ControlStore) (task_id : String) (outcome : AssignmentStatus)
    → Dict.get task_id (close task_id outcome s).queue ≡ Dict.get task_id s.queue
get-close s task_id outcome = ap (Dict.get task_id) (close-queue s task_id outcome).0

Queued-finish :
    (s : ControlStore) (task_id : String) (outcome : AssignmentStatus)
    → {item : RunnableItem} {state : QueueStatus} {owner : Option String}
    → Dict.get task_id s.queue ≡ some (item, state, owner)
    → is_waiting outcome ≡ true
    → contains s.pending_wakes task_id ≡ true
    → Queued task_id item (finish_assignment s task_id outcome)
unfolding finish_assignment
Queued-finish s task_id outcome {item} q w pending =
    subst
      (λ b. Queued task_id item (forget_wake task_id (settle task_id b (close task_id outcome s))))
      {x = true} (sym (ground arith))
      (Queued-settle (close task_id outcome s) task_id (get-close s task_id outcome ∙ q))

wake_running :
    (s : ControlStore) (task_id : String) {a : RuntimeAssignment} {status : AssignmentStatus}
    → {item : RunnableItem} {state : QueueStatus} {owner : Option String}
    → Dict.get task_id s.assignments ≡ some (a, status)
    → is_active status ≡ true
    → Dict.get task_id s.queue ≡ some (item, state, owner)
    → wake_assignment s task_id ≡ (record s { pending_wakes = add task_id s.pending_wakes }, false)
unfolding wake_assignment wake_found
wake_running s task_id e active q = rw (wake_assignment, e, q, wake_found, active) refl

-- A wake that comes while the assignment runs is kept, and answered with false. When the
-- assignment is then finished in a waiting state, its task is queued again and the wake is spent.
pub wake_before_suspension :
    (s : ControlStore) (task_id : String) (a : RuntimeAssignment)
    (status outcome : AssignmentStatus)
    → (item : RunnableItem) (state : QueueStatus) (owner : Option String)
    → Dict.get task_id s.assignments ≡ some (a, status)
    → is_active status ≡ true
    → Dict.get task_id s.queue ≡ some (item, state, owner)
    → is_waiting outcome ≡ true
    → ((wake_assignment s task_id).1 ≡ false)
      × Queued task_id item (finish_assignment (wake_assignment s task_id).0 task_id outcome)
wake_before_suspension s task_id a status outcome item state owner e active q w =
    let step = wake_running s task_id e active q in
    (
      ap (λ r. r.1) step,
      subst (λ r. Queued task_id item (finish_assignment r.0 task_id outcome)) (sym step)
          (Queued-finish (record s { pending_wakes = add task_id s.pending_wakes }) task_id outcome
            q w (contains-add task_id s.pending_wakes)),
    )

checkpoints-settle :
    (task_id : String) (should_wake : Bool) (s : ControlStore)
    → (settle task_id should_wake s).checkpoints ≡ s.checkpoints
unfolding settle
checkpoints-settle task_id should_wake s = ground arith

-- A wake that comes while the assignment runs and its task is in the queue is not lost on a
-- suspension with a checkpoint either: where its reason is a waiting state and the checkpoint is of
-- the assignment's run and not stale, it is accepted, the task is queued again, the wake is spent,
-- and the checkpoint is the one that is loaded.
pub wake_before_checkpoint :
    (s : ControlStore) (task_id : String) (a : RuntimeAssignment) (status reason : AssignmentStatus)
    → (item : RunnableItem) (state : QueueStatus) (owner : Option String)
    → (c : RuntimeCheckpoint) (now : ℕ) → Dict.get task_id s.assignments ≡ some (a, status)
    → is_active status ≡ true
    → Dict.get task_id s.queue ≡ some (item, state, owner)
    → is_waiting reason ≡ true
    → is_stale s a c now ≡ false
    → let done = suspend_with_checkpoint (wake_assignment s task_id).0 task_id c reason now in
      (done.1 ≡ ok tt)
      × Queued task_id item done.0
      × (load_checkpoint done.0 c.tenant_id c.session_id c.run_id ≡ some c)
unfolding suspend_with_checkpoint is_stale park load_checkpoint
wake_before_checkpoint s task_id a status reason item state owner c now e active q w fresh =
    let t = record s { pending_wakes = add task_id s.pending_wakes } in
    subst
      (λ r.
        let done = suspend_with_checkpoint r.0 task_id c reason now in
        (done.1 ≡ ok tt)
        × Queued task_id item done.0
        × (load_checkpoint done.0 c.tenant_id c.session_id c.run_id ≡ some c))
      (sym (wake_running s task_id e active q))
      (rw (suspend_with_checkpoint, w, e, fresh, contains-add task_id s.pending_wakes)
        (
          refl,
          Queued-settle (park t task_id a c reason) task_id q,
          ap (Dict.get (checkpoint_key c))
                (checkpoints-settle task_id true (park t task_id a c reason))
              ∙ Dict.get-put_self (checkpoint_key c) c s.checkpoints,
        ))

-- The assignment of the task waits, and the task is out of the queue.
pub record Asleep (task_id : String) (item : RunnableItem) (s : ControlStore) : Type 0 where
  pub assignment : RuntimeAssignment
  pub status : AssignmentStatus
  pub owner : Option String
  pub suspended : Dict.get task_id s.assignments ≡ some (assignment, status)
  pub waits : is_waiting status ≡ true
  pub entry : Dict.get task_id s.queue ≡ some (item, QueueStatus.acked, owner)

close-suspended :
    (s : ControlStore) (task_id : String) (outcome : AssignmentStatus)
    → {a : RuntimeAssignment} {status : AssignmentStatus}
    → Dict.get task_id s.assignments ≡ some (a, status)
    → Dict.get task_id (close task_id outcome s).assignments ≡ some (a, outcome)
unfolding close
close-suspended s task_id outcome {a} e = elim (Bool-cases (is_over outcome)) [
  | inl b ↦ rw (close, e, b) (Dict.get-put_self task_id (a, outcome) s.assignments)
  | inr b ↦ rw (close, e, b) (Dict.get-put_self task_id (a, outcome) s.assignments)
]

Asleep-settle :
    (s : ControlStore) (task_id : String) {a : RuntimeAssignment} {outcome : AssignmentStatus}
    → {item : RunnableItem} {state : QueueStatus} {owner : Option String}
    → Dict.get task_id s.assignments ≡ some (a, outcome)
    → is_waiting outcome ≡ true
    → Dict.get task_id s.queue ≡ some (item, state, owner)
    → Asleep task_id item (forget_wake task_id (settle task_id false s))
unfolding settle forget_wake
Asleep-settle s task_id {a} {outcome} {item} {owner} e w q =
    rw (settle, q)
      (record {
        assignment = a;
        status = outcome;
        owner = owner;
        suspended = e;
        waits = w;
        entry = Dict.get-put_self task_id (item, QueueStatus.acked, owner) s.queue;
      })

Asleep-finish :
    (s : ControlStore) (task_id : String) (outcome : AssignmentStatus)
    → {a : RuntimeAssignment} {status : AssignmentStatus}
    → {item : RunnableItem} {state : QueueStatus} {owner : Option String}
    → Dict.get task_id s.assignments ≡ some (a, status)
    → Dict.get task_id s.queue ≡ some (item, state, owner)
    → is_waiting outcome ≡ true
    → contains s.pending_wakes task_id ≡ false
    → Asleep task_id item (finish_assignment s task_id outcome)
unfolding finish_assignment
Asleep-finish s task_id outcome {item} e q w idle =
    subst
      (λ b. Asleep task_id item (forget_wake task_id (settle task_id b (close task_id outcome s))))
      {x = false} (sym (ground arith))
      (Asleep-settle (close task_id outcome s) task_id (close-suspended s task_id outcome e) w
        (get-close s task_id outcome ∙ q))

Queued-wake :
    (s : ControlStore) (task_id : String) {item : RunnableItem}
    → Asleep task_id item s
    → ((wake_assignment s task_id).1 ≡ true) × Queued task_id item (wake_assignment s task_id).0
unfolding wake_assignment wake_found forget_wake
Queued-wake s task_id {item} h =
    let idle : is_active h.status ≡ false = not_active h.status h.waits in
    rw (wake_assignment, h.suspended, h.entry, wake_found, h.waits, idle)
      (
        refl,
        record {
          entry = Dict.get-put_self task_id (item, QueueStatus.queued, none) s.queue;
          unclaimed = Dict.get-remove_self task_id s.queue_claims;
          spent = contains-discard task_id s.pending_wakes;
        },
      )
  where
    not_active : (status : AssignmentStatus) → is_waiting status ≡ true → is_active status ≡ false
    not_active status w = ground arith

-- A wake that comes after the assignment was finished in a waiting state, with no wake pending, is
-- answered with true, and its task is queued again.
pub wake_after_suspension :
    (s : ControlStore) (task_id : String) (a : RuntimeAssignment)
    (status outcome : AssignmentStatus)
    → (item : RunnableItem) (state : QueueStatus) (owner : Option String)
    → Dict.get task_id s.assignments ≡ some (a, status)
    → Dict.get task_id s.queue ≡ some (item, state, owner)
    → is_waiting outcome ≡ true
    → contains s.pending_wakes task_id ≡ false
    → ((wake_assignment (finish_assignment s task_id outcome) task_id).1 ≡ true)
      × Queued task_id item (wake_assignment (finish_assignment s task_id outcome) task_id).0
wake_after_suspension s task_id a status outcome item state owner e q w idle =
    Queued-wake (finish_assignment s task_id outcome) task_id
      (Asleep-finish s task_id outcome e q w idle)
