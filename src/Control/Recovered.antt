-- ===== src/Control/Recovered.antt =====
-- Proofs about `recover_expired` of InMemoryControlStateStore.
use aura_claw.Prelude.{
  leb_false→lt, Bool-cases, leb, ◌<◌, ℕ, String, ◌≡◌, refl, sym, ap, ◌∙◌, inl, inr, true, false,
  ◌&&◌, Option, none, some, List, [], ◌∷◌, ◌++◌, arith, leb, Bool-cases, Option-cases, contains,
  option_eq, pair_eq, triple_eq, string_eq, nat_eq, select, Error, err,
}
use aura_claw.Prelude.Dict
use aura_claw.Prelude.Dict.{
  Dict, get-put, get-remove, get-put_self, get-remove_self, put-put_self, dict_laws,
}
use aura_claw.Control.Store.{
  RunnableItem, RuntimeLease, RuntimeAssignment, QueueStatus, AssignmentStatus, ControlStore,
  is_active,
}
use aura_claw.Control.Leases.{assert_fencing}
use aura_claw.Control.Assignments.{resource}
use aura_claw.Control.Wakes.{requeue, expire}
use aura_claw.Control.Recovery.{
  recover_expired, drop_leases, expire_loop, unclaim_loop, claim_over, expired_resources, ran_out,
  lost, is_lost, resources,
}

contains-left :
    (xs ys : List String) (x : String) → contains xs x ≡ true → contains (xs ++ ys) x ≡ true
contains-left [] ys x h = cc
contains-left (y ∷ xs) ys x h = ground (arith, contains-left xs ys x)

contains-ran_out :
    (now : ℕ) (d : Dict String RuntimeLease) (r : String) (l : RuntimeLease)
    → Dict.get r d ≡ some l
    → leb l.expires_at now ≡ true
    → contains (ran_out now d) r ≡ true
unfolding ran_out Dict.get
contains-ran_out now [] r l e h = cc
contains-ran_out now ((q, m) ∷ d) r l e h = ground (arith, contains-ran_out now d r l)

get-drop_leases :
    (rs : List String) (d : Dict String RuntimeLease) (r : String) (l : RuntimeLease)
    → Dict.get r (drop_leases rs d) ≡ some l
    → (Dict.get r d ≡ some l) × (contains rs r ≡ false)
unfolding drop_leases
get-drop_leases [] d r l e = (e, refl)
get-drop_leases (q ∷ rs) d r l e =
    let rest = get-drop_leases rs (Dict.remove q d) r l e in
    let law = Dict.get-remove r q d in
    (ground (arith, rest.0, law), ground (arith, rest.0, rest.1, law))

leases-requeue : (s : ControlStore) (task_id : String) → (requeue task_id s).leases ≡ s.leases
unfolding requeue
leases-requeue s task_id = ground arith

leases-expire_loop :
    (rs : List String) (d : Dict String (RuntimeAssignment × AssignmentStatus)) (s : ControlStore)
    → (expire_loop rs d s).0.leases ≡ s.leases
unfolding expire_loop expire
leases-expire_loop rs [] s = refl
leases-expire_loop rs ((task_id, (a, status)) ∷ rest) s =
    elim (Bool-cases (contains rs (resource a) && is_active status)) [
      | inl b ↦
          rw (expire_loop, b)
            (leases-expire_loop rs rest _ ∙ leases-requeue (expire task_id a s) task_id)
      | inr b ↦ rw (expire_loop, b) (leases-expire_loop rs rest s)
    ]

leases-unclaim_loop :
    (now : ℕ) (d : Dict String (RunnableItem × QueueStatus × Option String)) (s : ControlStore)
    → (unclaim_loop now d s).0.leases ≡ s.leases
unfolding unclaim_loop
leases-unclaim_loop now [] s = refl
leases-unclaim_loop now ((task_id, (item, status, owner)) ∷ rest) s =
    elim (Bool-cases (claim_over status (Dict.get task_id s.queue_claims) now)) [
      | inl b ↦ rw (unclaim_loop, b) (leases-unclaim_loop now rest _)
      | inr b ↦ rw (unclaim_loop, b) (leases-unclaim_loop now rest s)
    ]

leases-recover_expired :
    (s : ControlStore) (now : ℕ)
    → (recover_expired s now).0.leases ≡ drop_leases (expired_resources s now) s.leases
unfolding recover_expired
leases-recover_expired s now =
    leases-unclaim_loop now _ _ ∙ leases-expire_loop (expired_resources s now) s.assignments _

contains-right :
    (xs ys : List String) (x : String) → contains ys x ≡ true → contains (xs ++ ys) x ≡ true
contains-right [] ys x h = h
contains-right (y ∷ xs) ys x h = ground (arith, contains-right xs ys x)

contains-lost :
    (s : ControlStore) (now : ℕ) (d : Dict String (RuntimeAssignment × AssignmentStatus))
    → (task_id : String) (a : RuntimeAssignment) (status : AssignmentStatus)
    → Dict.get task_id d ≡ some (a, status)
    → is_lost s now a status ≡ true
    → contains (resources (select (λ (_, (a, status)). is_lost s now a status) d)) (resource a)
      ≡ true
unfolding Dict.get
contains-lost s now [] task_id a status e h = cc
contains-lost s now ((other, (b, state)) ∷ d) task_id a status e h =
    ground (arith, contains-lost s now d task_id a status)

get-recover_expired :
    (s : ControlStore) (now : ℕ) (r : String) (l : RuntimeLease)
    → Dict.get r (recover_expired s now).0.leases ≡ some l
    → (Dict.get r s.leases ≡ some l) × (contains (expired_resources s now) r ≡ false)
get-recover_expired s now r l e =
    get-drop_leases (expired_resources s now) s.leases r l
      (ap (Dict.get r) (sym (leases-recover_expired s now)) ∙ e)

-- Every lease that is stored after the recovery was stored before, and still runs.
pub recovered_leases :
    (s : ControlStore) (now : ℕ) (r : String) (l : RuntimeLease)
    → Dict.get r (recover_expired s now).0.leases ≡ some l
    → (Dict.get r s.leases ≡ some l) × (now < l.expires_at)
unfolding expired_resources
recovered_leases s now r l e =
    let found = get-recover_expired s now r l e in
    elim (Bool-cases (leb l.expires_at now)) [
      | inr runs ↦ (found.0, leb_false→lt l.expires_at now runs)
      | inl over ↦
          (let there =
              contains-left (ran_out now s.leases) (lost s now) r
                (contains-ran_out now s.leases r l found.0 over) in
            ground (arith, there, found.1))
    ]

-- An assignment whose execution claim or whose runtime is lost is fenced off by the recovery: its
-- session has no lease then, and no token passes `assert_fencing`.
pub lost_fenced :
    (s : ControlStore) (now : ℕ) (task_id : String) (a : RuntimeAssignment)
    (status : AssignmentStatus)
    → Dict.get task_id s.assignments ≡ some (a, status)
    → is_lost s now a status ≡ true
    → (fencing_token again : ℕ)
    → (Dict.get (resource a) (recover_expired s now).0.leases ≡ none)
      × (assert_fencing (recover_expired s now).0 (resource a) fencing_token again
          ≡ err Error.fencing_token)
unfolding expired_resources lost assert_fencing
lost_fenced s now task_id a status e h fencing_token again =
    let there =
      contains-right (ran_out now s.leases) (lost s now) (resource a)
        (contains-lost s now s.assignments task_id a status e h) in
    elim (Option-cases (Dict.get (resource a) (recover_expired s now).0.leases)) [
      | inl none_left ↦ (none_left, rw (assert_fencing, none_left) refl)
      | inr (l, found) ↦ ground (arith, there, (get-recover_expired s now (resource a) l found).1)
    ]
