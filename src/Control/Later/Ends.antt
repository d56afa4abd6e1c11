-- ===== src/Control/Later/Ends.antt =====
-- Proofs about `Later` for the ends and suspensions of assignments, and for the recovery.
use aura_claw.Prelude.{
  ℕ, String, ◌≡◌, refl, inl, inr, Bool, true, false, ◌&&◌, Option, none, some, List, [], ◌∷◌, arith,
  if◌then◌else◌, Bool-cases, Option-cases, ◌==◌, contains, option_eq, pair_eq, triple_eq, string_eq,
  nat_eq, Error, Result, ok, err,
}
use aura_claw.Prelude.Dict
use aura_claw.Prelude.Dict.{
  Dict, get-put, get-remove, get-put_self, get-remove_self, put-put_self, dict_laws,
}
use aura_claw.Control.Store.{
  RunnableItem, RuntimeLease, RuntimeAssignment, RuntimeCheckpoint, QueueStatus, AssignmentStatus,
  ControlStore, resource_of, is_waiting, is_active,
}
use aura_claw.Control.Leases.{checkpoint_key, is_newer}
use aura_claw.Control.Assignments.{resource}
use aura_claw.Control.Wakes.{
  close, settle, without_lease, forget_wake, park, finish_assignment, suspend_assignment,
  suspend_with_checkpoint, is_stale, expire, is_over,
}
use aura_claw.Control.Recovery.{
  recover_expired, drop_leases, expire_loop, unclaim_loop, claim_over, expired_resources,
}
use aura_claw.Control.Later.{Above, Later, Later-refl, Later-trans, Later-leases, Above-remove}
use aura_claw.Control.Later.Grants.{Later-frame, Later-checkpoint}
use aura_claw.Control.Later.Frames.{Later-requeue}

Above-without_lease :
    (r : String) (n : ℕ) (a : RuntimeAssignment) (leases : Dict String RuntimeLease)
    (found : Option RuntimeLease)
    → Above r n leases
    → Above r n (without_lease a leases found)
Above-without_lease r n a leases none h = h
Above-without_lease r n a leases (some l) h = elim (Bool-cases (l.lease_id == a.lease_id)) [
  | inl b ↦ rw b (Above-remove r n (resource a) leases h)
  | inr b ↦ rw b h
]

Later-close :
    (s : ControlStore) (task_id : String) (outcome : AssignmentStatus)
    → Later s (close task_id outcome s)
unfolding close
Later-close s task_id outcome = elim (Option-cases (Dict.get task_id s.assignments)) [
  | inl e ↦ rw (close, e) (Later-refl s)
  | inr (a, e) ↦ elim (Bool-cases (is_over outcome)) [
    | inl b ↦
        rw (close, e, b)
          (Later-leases s (without_lease a.0 s.leases (Dict.get (resource a.0) s.leases))
            (λ r n h. Above-without_lease r n a.0 s.leases _ h) _ refl refl refl)
    | inr b ↦ rw (close, e, b) (Later-frame s _ refl refl refl)
  ]
]

Later-settle : (s : ControlStore) (task_id : String) (wake : Bool) → Later s (settle task_id wake s)
unfolding settle
Later-settle s task_id wake = Later-frame s _ (ground arith) (ground arith) (ground arith)

Later-forget_wake : (s : ControlStore) (task_id : String) → Later s (forget_wake task_id s)
unfolding forget_wake
Later-forget_wake s task_id = Later-frame s _ refl refl refl

Later-settled :
    {s t : ControlStore} (task_id : String) (wake : Bool)
    → Later s t
    → Later s (forget_wake task_id (settle task_id wake t))
Later-settled {t} task_id wake p =
    Later-trans p (Later-trans (Later-settle t task_id wake) (Later-forget_wake _ task_id))

pub Later-finish :
    (s : ControlStore) (task_id : String) (outcome : AssignmentStatus)
    → Later s (finish_assignment s task_id outcome)
unfolding finish_assignment
Later-finish s task_id outcome = Later-settled task_id _ (Later-close s task_id outcome)

Later-guard :
    (s : ControlStore) (b : Bool) (x y : ControlStore × Result (Unit {0}))
    → Later s x.0
    → Later s y.0
    → Later s (if b then x else y).0
Later-guard s true x y p q = p
Later-guard s false x y p q = q

pub Later-suspend :
    (s : ControlStore) (task_id : String) (reason : AssignmentStatus)
    → Later s (suspend_assignment s task_id reason).0
unfolding suspend_assignment
Later-suspend s task_id reason =
    Later-guard s (is_waiting reason) (finish_assignment s task_id reason, ok tt)
      (s, err Error.value_error) (Later-finish s task_id reason) (Later-refl s)

Later-park :
    (s : ControlStore) (task_id : String) (a : RuntimeAssignment) (c : RuntimeCheckpoint)
    (reason : AssignmentStatus)
    → is_newer (Dict.get (checkpoint_key c) s.checkpoints) c ≡ false
    → Later s (park s task_id a c reason)
unfolding park
Later-park s task_id a c reason b =
    Later-checkpoint s
      (record s {
        assignments = Dict.put task_id (a, reason) s.assignments;
        assignment_started_at = Dict.remove task_id s.assignment_started_at;
        leases = Dict.remove (resource_of c.tenant_id c.session_id) s.leases;
      })
      c b
      (Later-leases s _
        (λ r n h. Above-remove r n (resource_of c.tenant_id c.session_id) s.leases h) _ refl refl
        refl)
      refl

not_newer :
    (s : ControlStore) (a : RuntimeAssignment) (c : RuntimeCheckpoint) (now : ℕ)
    → is_stale s a c now ≡ false
    → is_newer (Dict.get (checkpoint_key c) s.checkpoints) c ≡ false
unfolding is_stale
not_newer s a c now h = ground arith

pub Later-suspend_with_checkpoint :
    (s : ControlStore) (task_id : String) (c : RuntimeCheckpoint) (reason : AssignmentStatus)
    (now : ℕ)
    → Later s (suspend_with_checkpoint s task_id c reason now).0
unfolding suspend_with_checkpoint
Later-suspend_with_checkpoint s task_id c reason now = elim (Bool-cases (is_waiting reason)) [
  | inr w ↦ rw (suspend_with_checkpoint, w) (Later-refl s)
  | inl w ↦ elim (Option-cases (Dict.get task_id s.assignments)) [
    | inl e ↦ rw (suspend_with_checkpoint, w, e) (Later-refl s)
    | inr (a, e) ↦ elim (Bool-cases (is_stale s a.0 c now)) [
      | inl b ↦ rw (suspend_with_checkpoint, w, e, b) (Later-refl s)
      | inr b ↦
          rw (suspend_with_checkpoint, w, e, b)
            (Later-settled task_id _ (Later-park s task_id a.0 c reason (not_newer s a.0 c now b)))
    ]
  ]
]

Above-drop_leases :
    (r : String) (n : ℕ) (rs : List String) (leases : Dict String RuntimeLease)
    → Above r n leases
    → Above r n (drop_leases rs leases)
unfolding drop_leases
Above-drop_leases r n [] leases h = h
Above-drop_leases r n (q ∷ rs) leases h = Above-drop_leases r n rs _ (Above-remove r n q leases h)

Later-expire_loop :
    (resources : List String) (d : Dict String (RuntimeAssignment × AssignmentStatus))
    (s : ControlStore)
    → Later s (expire_loop resources d s).0
unfolding expire_loop expire
Later-expire_loop resources [] s = Later-refl s
Later-expire_loop resources ((task_id, (a, status)) ∷ rest) s =
    elim (Bool-cases (contains resources (resource a) && is_active status)) [
      | inl b ↦
          rw (expire_loop, b)
            (Later-trans
              (Later-trans (Later-frame s (expire task_id a s) refl refl refl)
                (Later-requeue _ task_id))
              (Later-expire_loop resources rest _))
      | inr b ↦ rw (expire_loop, b) (Later-expire_loop resources rest s)
    ]

Later-unclaim_loop :
    (now : ℕ) (d : Dict String (RunnableItem × QueueStatus × Option String)) (s : ControlStore)
    → Later s (unclaim_loop now d s).0
unfolding unclaim_loop
Later-unclaim_loop now [] s = Later-refl s
Later-unclaim_loop now ((task_id, (item, status, owner)) ∷ rest) s =
    elim (Bool-cases (claim_over status (Dict.get task_id s.queue_claims) now)) [
      | inl b ↦
          rw (unclaim_loop, b)
            (Later-trans
              (Later-frame s
                (record s {
                  queue = Dict.put task_id (item, QueueStatus.queued, none) s.queue;
                  queue_claims = Dict.remove task_id s.queue_claims;
                })
                refl refl refl)
              (Later-unclaim_loop now rest _))
      | inr b ↦ rw (unclaim_loop, b) (Later-unclaim_loop now rest s)
    ]

pub Later-recover : (s : ControlStore) (now : ℕ) → Later s (recover_expired s now).0
unfolding recover_expired
Later-recover s now =
    let rs = expired_resources s now in
    Later-trans
      (Later-trans
        (Later-leases s (drop_leases rs s.leases) (λ r n h. Above-drop_leases r n rs s.leases h) _
          refl refl refl)
        (Later-expire_loop rs s.assignments _))
      (Later-unclaim_loop now _ _)
