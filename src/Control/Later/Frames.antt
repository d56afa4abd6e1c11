-- ===== src/Control/Later/Frames.antt =====
-- Proofs about `Later` for the methods of InMemoryControlStateStore that leave leases alone, or
-- that only shorten or extend them.
use aura_claw.Prelude.{
  ℕ, ◌+◌, ◌-◌, String, ◌≡◌, refl, inl, inr, ◌&&◌, Option, none, some, List, [], ◌∷◌, arith, leb,
  Bool-cases, Option-cases, ◌==◌, option_eq, pair_eq, triple_eq, string_eq, nat_eq,
}
use aura_claw.Prelude.Dict
use aura_claw.Prelude.Dict.{
  Dict, get-put, get-remove, get-put_self, get-remove_self, put-put_self, dict_laws,
}
use aura_claw.Control.Store.{
  RunnableItem, RuntimeLease, RuntimeAssignment, RuntimeInstance, QueueStatus, AssignmentStatus,
  ControlStore, assignment_lease_ttl,
}
use aura_claw.Control.Queue.{enqueue, claim_items, fail_assignment, reschedule, reserve_capacity}
use aura_claw.Control.Leases.{request_cancel, register_runtime, heartbeat}
use aura_claw.Control.Assignments.{
  assign, claim_assignments, claim_loop, claim_one, shortened, resource, renew_found, may_renew,
  extended, renew_assignment_claim, claimable, claimed_form,
}
use aura_claw.Control.Wakes.{
  abandon_stale_assignment, requeue, expire, wake_assignment, wake_found, forget_wake,
}
use aura_claw.Control.Later.{
  Above, Later, Later-refl, Later-trans, Later-leases, Above-put, Above-get,
}
use aura_claw.Control.Later.Grants.{Later-frame}

pub Later-enqueue : (s : ControlStore) (item : RunnableItem) → Later s (enqueue s item).0
unfolding enqueue
Later-enqueue s item = Later-frame s _ (ground arith) (ground arith) (ground arith)

pub Later-reserve_capacity :
    (s : ControlStore) (scope : String) (amount limit : ℕ)
    → Later s (reserve_capacity s scope amount limit).0
unfolding reserve_capacity
Later-reserve_capacity s scope amount limit =
    Later-frame s _ (ground arith) (ground arith) (ground arith)

pub Later-request_cancel :
    (s : ControlStore) (tenant_id session_id run_id : String)
    → Later s (request_cancel s tenant_id session_id run_id)
unfolding request_cancel
Later-request_cancel s tenant_id session_id run_id =
    Later-frame s _ (ground arith) (ground arith) (ground arith)

pub Later-register_runtime :
    (s : ControlStore) (i : RuntimeInstance) (now again : ℕ)
    → Later s (register_runtime s i now again).0
unfolding register_runtime
Later-register_runtime s i now again = Later-frame s _ (ground arith) (ground arith) (ground arith)

pub Later-heartbeat :
    (s : ControlStore) (runtime_id : String) (fencing_token : Option ℕ) (registration_id : String)
    (now : ℕ)
    → Later s (heartbeat s runtime_id fencing_token registration_id now).0
unfolding heartbeat
Later-heartbeat s runtime_id fencing_token registration_id now =
    Later-frame s _ (ground arith) (ground arith) (ground arith)

pub Later-reschedule :
    (s : ControlStore) (task_id : String) (worker_id claim_token : Option String)
    (delay now again : ℕ)
    → Later s (reschedule s task_id worker_id claim_token delay now again)
unfolding reschedule fail_assignment
Later-reschedule s task_id worker_id claim_token delay now again =
    Later-frame s _ (ground arith) (ground arith) (ground arith)

pub Later-claim_items :
    (worker_id : String) (claim_ttl now : ℕ) (token : ℕ → String) (i : ℕ)
    (items : List RunnableItem) (s : ControlStore)
    → Later s (claim_items worker_id claim_ttl now token i items s).0
unfolding claim_items
Later-claim_items worker_id claim_ttl now token i [] s = Later-refl s
Later-claim_items worker_id claim_ttl now token i (item ∷ rest) s =
    Later-trans
      {t = record s {
        queue = Dict.put item.task_id (item, QueueStatus.claimed, some worker_id) s.queue;
        queue_claims = Dict.put item.task_id (token i, now + claim_ttl) s.queue_claims;
      }}
      (Later-frame s _ refl refl refl)
      (Later-claim_items worker_id claim_ttl now token (i + 1) rest _)

pub Later-assign :
    (s : ControlStore) (task_id : String) (a : RuntimeAssignment) (claim_token : String)
    (now again : ℕ)
    → Later s (assign s task_id a claim_token now again).0
unfolding assign
Later-assign s task_id a claim_token now again =
    Later-frame s _ (ground arith) (ground arith) (ground arith)

pub Later-requeue : (s : ControlStore) (task_id : String) → Later s (requeue task_id s)
unfolding requeue
Later-requeue s task_id = Later-frame s _ (ground arith) (ground arith) (ground arith)

pub Later-abandon :
    (s : ControlStore) (task_id runtime_id lease_id : String) (fencing_token now : ℕ)
    → Later s (abandon_stale_assignment s task_id runtime_id lease_id fencing_token now).0
unfolding abandon_stale_assignment requeue expire
Later-abandon s task_id runtime_id lease_id fencing_token now =
    Later-frame s _ (ground arith) (ground arith) (ground arith)

pub Later-wake : (s : ControlStore) (task_id : String) → Later s (wake_assignment s task_id).0
unfolding wake_assignment wake_found forget_wake
Later-wake s task_id = Later-frame s _ (ground arith) (ground arith) (ground arith)

Later-claim_one :
    (runtime_id : String) (runtime : RuntimeInstance) (now : ℕ) (s : ControlStore)
    (task_id token : String) (a : RuntimeAssignment)
    → (found : Option RuntimeLease) → Dict.get (resource a) s.leases ≡ found
    → Later s (claim_one runtime_id runtime now s task_id token a found).0
unfolding claim_one claimed_form
Later-claim_one runtime_id runtime now s task_id token a none e = Later-refl s
Later-claim_one runtime_id runtime now s task_id token a (some l) e =
    Later-leases s (Dict.put (resource a) (shortened l now) s.leases)
      (λ r n h. Above-put r n (resource a) _ s.leases (Above-get r n (resource a) l s.leases e h) h)
      _ refl refl refl

pub Later-claim_loop :
    (runtime_id : String) (runtime : RuntimeInstance) (now : ℕ) (token : ℕ → String) (i room : ℕ)
    (d : Dict String (RuntimeAssignment × AssignmentStatus)) (s : ControlStore)
    → Later s (claim_loop runtime_id runtime now token i room d s).0
unfolding claim_loop
Later-claim_loop runtime_id runtime now token i room [] s = Later-refl s
Later-claim_loop runtime_id runtime now token i room ((task_id, (a, status)) ∷ rest) s =
    let first = Later-claim_one runtime_id runtime now s task_id (token i) a _ refl in
    elim (Bool-cases (claimable runtime_id runtime now s a status)) [
      | inr c ↦
          rw (claim_loop, c) (Later-claim_loop runtime_id runtime now token (i + 1) room rest s)
      | inl c ↦ elim (Bool-cases (leb room 1)) [
        | inl b ↦ rw (claim_loop, c, b) first
        | inr b ↦
            rw (claim_loop, c, b)
              (Later-trans first
                (Later-claim_loop runtime_id runtime now token (i + 1) (room - 1) rest _))
      ]
    ]

pub Later-claim_assignments :
    (s : ControlStore) (runtime_id role registration_id : String) (token : ℕ → String)
    (limit now : ℕ)
    → Later s (claim_assignments s runtime_id role registration_id token limit now).0
unfolding claim_assignments
Later-claim_assignments s runtime_id role registration_id token limit now =
    elim (Option-cases (Dict.get runtime_id s.runtimes)) [
      | inl e ↦ rw (claim_assignments, e) (Later-refl s)
      | inr (r, e) ↦
          elim (Bool-cases (r.0.role == role && r.0.registration_id == registration_id)) [
            | inl b ↦
                rw (claim_assignments, e, b)
                  (Later-claim_loop runtime_id r.0 now token 0 limit s.assignments s)
            | inr b ↦ rw (claim_assignments, e, b) (Later-refl s)
          ]
    ]

Above-extended :
    (r : String) (n : ℕ) (a : RuntimeAssignment) (expires_at : ℕ)
    (leases : Dict String RuntimeLease)
    → (found : Option RuntimeLease) → Dict.get (resource a) leases ≡ found
    → Above r n leases
    → Above r n (extended a expires_at leases found)
unfolding extended
Above-extended r n a expires_at leases none e h = h
Above-extended r n a expires_at leases (some l) e h =
    Above-put r n (resource a) _ leases (Above-get r n (resource a) l leases e h) h

Later-renew_found :
    (s : ControlStore) (task_id runtime_id registration_id token lease_id : String)
    → (fencing_token now : ℕ)
    → (a : Option (RuntimeAssignment × AssignmentStatus)) (r : Option (RuntimeInstance × ℕ))
    → Later s
        (renew_found s task_id a r runtime_id registration_id token lease_id fencing_token now).0
unfolding renew_found
Later-renew_found s task_id runtime_id registration_id token lease_id fencing_token now none r =
    Later-refl s
Later-renew_found s task_id runtime_id registration_id token lease_id fencing_token now (some a)
      none =
    Later-refl s
Later-renew_found s task_id runtime_id registration_id token lease_id fencing_token now
      (some (a, status)) (some (r, at)) =
    elim (Bool-cases
      (may_renew s a status r runtime_id registration_id token lease_id fencing_token now)) [
        | inl b ↦
            rw (renew_found, b)
              (Later-leases s
                (extended a (now + assignment_lease_ttl) s.leases (Dict.get (resource a) s.leases))
                (λ q n h.
                  Above-extended q n a (now + assignment_lease_ttl) s.leases
                    (Dict.get (resource a) s.leases) refl h)
                _ refl refl refl)
        | inr b ↦ rw (renew_found, b) (Later-refl s)
      ]

pub Later-renew_assignment_claim :
    (s : ControlStore) (task_id runtime_id registration_id token lease_id : String)
    → (fencing_token now : ℕ)
    → Later s
        (renew_assignment_claim s task_id runtime_id registration_id token lease_id fencing_token
          now).0
unfolding renew_assignment_claim
Later-renew_assignment_claim s task_id runtime_id registration_id token lease_id fencing_token now =
    Later-renew_found s task_id runtime_id registration_id token lease_id fencing_token now
      (Dict.get task_id s.assignments) (Dict.get runtime_id s.runtimes)
