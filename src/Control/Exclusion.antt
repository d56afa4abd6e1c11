-- ===== src/Control/Exclusion.antt =====
-- Proofs about leases, assignments and capacity of InMemoryControlStateStore.
use aura_claw.Prelude.{
  ◌≢◌, ◌≤◌, ◌-◌, Bool-cases, ltb, ◌∙◌, ℕ, ◌+◌, ◌<◌, String, ◌≡◌, refl, ap, subst, inl, inr, true,
  false, Option, none, some, arith, Option-cases, option_eq, pair_eq, triple_eq, string_eq, nat_eq,
  ==_refl, ok,
}
use aura_claw.Prelude.Dict
use aura_claw.Prelude.Dict.{
  Dict, get-put, get-remove, get-put_self, get-remove_self, put-put_self, dict_laws,
}
use aura_claw.Prelude.Dict.{values}
use aura_claw.Control.Store.{
  RunnableItem, RuntimeLease, RuntimeAssignment, QueueStatus, AssignmentStatus, ControlStore,
}
use aura_claw.Control.Queue.{reserve_capacity, release_capacity, used, used}
use aura_claw.Control.Leases.{counter, new_lease, acquire_lease, release_lease, assert_fencing}
use aura_claw.Control.Assignments.{
  assign, get_assignment, claim_held, lease_fits, is_replaceable, resource,
}

granted_lease :
    (s : ControlStore) (resource_id owner hex : String) (ttl now : ℕ) (lease : RuntimeLease)
    → (acquire_lease s resource_id owner hex ttl now).1 ≡ some lease
    → new_lease resource_id hex owner (counter resource_id s + 1) (now + ttl) ≡ lease
unfolding acquire_lease
granted_lease s resource_id owner hex ttl now lease h = ground arith

-- the state in which the lease has been granted
abbrev grant : ControlStore → RuntimeLease → ControlStore
grant s lease = record s {
  lease_counters = Dict.put lease.resource_id lease.fencing_token s.lease_counters;
  leases = Dict.put lease.resource_id lease s.leases;
}

granted_state :
    (s : ControlStore) (resource_id owner hex : String) (ttl now : ℕ) (lease : RuntimeLease)
    → (acquire_lease s resource_id owner hex ttl now).1 ≡ some lease
    → (acquire_lease s resource_id owner hex ttl now).0
      ≡ grant s (new_lease resource_id hex owner (counter resource_id s + 1) (now + ttl))
unfolding acquire_lease
granted_state s resource_id owner hex ttl now lease h = ground arith

-- In that state: the lease is in force until it runs out, and not after its release.
in_force :
    (s : ControlStore) (lease : RuntimeLease) (owner hex : String) (ttl now : ℕ)
    → now < lease.expires_at
    → (assert_fencing (grant s lease) lease.resource_id lease.fencing_token now ≡ ok tt)
      × (acquire_lease (grant s lease) lease.resource_id owner hex ttl now ≡ (grant s lease, none))
unfolding assert_fencing acquire_lease
in_force s lease owner hex ttl now m =
    let found = Dict.get-put_self lease.resource_id lease s.leases in
    (ground (arith, found), ground (arith, found))

after_release :
    (s : ControlStore) (lease : RuntimeLease) (owner hex : String) (ttl now : ℕ)
    → (acquire_lease (release_lease (grant s lease) lease) lease.resource_id owner hex ttl now).1
      ≡ some (new_lease lease.resource_id hex owner (lease.fencing_token + 1) (now + ttl))
unfolding acquire_lease release_lease
after_release s lease owner hex ttl now =
    let found = Dict.get-put_self lease.resource_id lease s.leases in
    let count = Dict.get-put_self lease.resource_id lease.fencing_token s.lease_counters in
    let gone = Dict.get-remove_self lease.resource_id (Dict.put lease.resource_id lease s.leases) in
    rw (release_lease, found, ==_refl lease.lease_id, acquire_lease, gone)
      (ap
        (λ n. some (
          new_lease lease.resource_id hex owner (elim n [ none ↦ 0 | some n ↦ n ] + 1) (now + ttl)))
        count)

-- While a granted lease runs, its token passes `assert_fencing` and nobody else gets the resource.
pub lease_exclusive :
    (s : ControlStore) (resource_id owner hex : String) (ttl now : ℕ) (lease : RuntimeLease)
    → (acquire_lease s resource_id owner hex ttl now).1 ≡ some lease
    → (owner' hex' : String) (ttl' now' : ℕ) → now' < now + ttl
    → let t = (acquire_lease s resource_id owner hex ttl now).0 in
      (assert_fencing t resource_id lease.fencing_token now' ≡ ok tt)
      × (acquire_lease t resource_id owner' hex' ttl' now' ≡ (t, none))
lease_exclusive s resource_id owner hex ttl now lease h owner' hex' ttl' now' m =
    let new = new_lease resource_id hex owner (counter resource_id s + 1) (now + ttl) in
    let t = (acquire_lease s resource_id owner hex ttl now).0 in
    subst
      (λ l.
        (assert_fencing t resource_id l.fencing_token now' ≡ ok tt)
        × (acquire_lease t resource_id owner' hex' ttl' now' ≡ (t, none)))
      (granted_lease s resource_id owner hex ttl now lease h)
      (rw (granted_state s resource_id owner hex ttl now lease h)
        (in_force s new owner' hex' ttl' now' m))

-- Once a granted lease is released, the next one who asks gets the resource, under the next token.
pub release_frees :
    (s : ControlStore) (resource_id owner hex : String) (ttl now : ℕ) (lease : RuntimeLease)
    → (acquire_lease s resource_id owner hex ttl now).1 ≡ some lease
    → (owner' hex' : String) (ttl' now' : ℕ)
    → let t = release_lease (acquire_lease s resource_id owner hex ttl now).0 lease in
      (acquire_lease t resource_id owner' hex' ttl' now').1
      ≡ some (new_lease resource_id hex' owner' (lease.fencing_token + 1) (now' + ttl'))
release_frees s resource_id owner hex ttl now lease h owner' hex' ttl' now' =
    let new = new_lease resource_id hex owner (counter resource_id s + 1) (now + ttl) in
    let t = (acquire_lease s resource_id owner hex ttl now).0 in
    subst
      (λ l.
        (acquire_lease (release_lease t l) resource_id owner' hex' ttl' now').1
        ≡ some (new_lease resource_id hex' owner' (l.fencing_token + 1) (now' + ttl')))
      (granted_lease s resource_id owner hex ttl now lease h)
      (rw (granted_state s resource_id owner hex ttl now lease h)
        (after_release s new owner' hex' ttl' now'))

used-put :
    (s : ControlStore) (scope : String) (n : ℕ)
    → used scope (record s { capacity = Dict.put scope n s.capacity }) ≡ n
used-put s scope n = rw (used, Dict.get-put_self scope n s.capacity) refl

-- A reservation that is granted leaves the scope within the limit, and giving the same amount back
-- restores what was used before.
pub capacity_bounded :
    (s : ControlStore) (scope : String) (amount limit : ℕ)
    → (reserve_capacity s scope amount limit).1 ≡ true
    → let t = (reserve_capacity s scope amount limit).0 in
      (used scope t ≤ limit) × (used scope (release_capacity t scope amount) ≡ used scope s)
unfolding reserve_capacity release_capacity
capacity_bounded s scope amount limit h = elim (Bool-cases (ltb limit (used scope s + amount))) [
  | inl b ↦ ground arith
  | inr b ↦
      (let t = record s { capacity = Dict.put scope (used scope s + amount) s.capacity } in
        let first = used-put s scope (used scope s + amount) in
        rw (reserve_capacity, b)
          (ground (arith, first), used-put t scope (used scope t - amount) ∙ omega (arith, first)))
]

assign_refused :
    (s : ControlStore) (task_id : String) (a : RuntimeAssignment) (claim_token : String)
    (now again : ℕ)
    → {item : RunnableItem} {owner : Option String}
    → Dict.get task_id s.queue ≡ some (item, QueueStatus.assigned, owner)
    → assign s task_id a claim_token now again ≡ (s, false)
unfolding assign
assign_refused s task_id a claim_token now again e = rw (assign, e) refl

-- the claim of the task is the caller's, and has not run out
pub record IsClaim (s : ControlStore) (task_id claim_token : String) (now : ℕ) : Type 0 where
  pub expires_at : ℕ
  pub stored : Dict.get task_id s.queue_claims ≡ some (claim_token, expires_at)
  pub runs : now < expires_at

-- the lease of the assignment's session is the claim owner's, and is the one it names
pub record IsLease (s : ControlStore) (a : RuntimeAssignment) (owner : Option String) (now : ℕ)
    : Type 0 where
  pub lease : RuntimeLease
  pub stored : Dict.get (resource a) s.leases ≡ some lease
  pub named : (lease.lease_id ≡ a.lease_id) × (lease.fencing_token ≡ a.fencing_token)
  pub owned : some lease.owner ≡ owner
  pub runs : now < lease.expires_at

-- no assignment of the task is to be started or runs
abbrev pub NoneInForce : ControlStore → String → Type 0
NoneInForce s task_id =
    (a : RuntimeAssignment) (status : AssignmentStatus)
    → Dict.get task_id s.assignments ≡ some (a, status)
    → (status ≢ AssignmentStatus.assigned) × (status ≢ AssignmentStatus.running)

claim_held-IsClaim :
    (s : ControlStore) (task_id claim_token : String) (now : ℕ)
    → claim_held (Dict.get task_id s.queue_claims) claim_token now ≡ true
    → IsClaim s task_id claim_token now
claim_held-IsClaim s task_id claim_token now h =
    elim (Option-cases (Dict.get task_id s.queue_claims)) [
      | inl e ↦ absurd (ground (arith, h, e))
      | inr ((token, expires_at), e) ↦ record {
        expires_at = expires_at;
        stored = ground (arith, h, e);
        runs = ground (arith, h, e);
      }
    ]

lease_fits-IsLease :
    (s : ControlStore) (a : RuntimeAssignment) (owner : Option String) (now : ℕ)
    → lease_fits (Dict.get (resource a) s.leases) a owner now ≡ true
    → IsLease s a owner now
lease_fits-IsLease s a owner now h = elim (Option-cases (Dict.get (resource a) s.leases)) [
  | inl e ↦ absurd (ground (arith, h, e))
  | inr (lease, e) ↦ record {
    lease = lease;
    stored = e;
    named = (ground (arith, h, e), ground (arith, h, e));
    owned = ground (arith, h, e);
    runs = ground (arith, h, e);
  }
]

is_replaceable-NoneInForce :
    (s : ControlStore) (task_id : String)
    → is_replaceable (Dict.get task_id s.assignments) ≡ true
    → NoneInForce s task_id
is_replaceable-NoneInForce s task_id h a status e =
    (λ x. ground (arith, h, e, x), λ x. ground (arith, h, e, x))

-- the lease of an assignment that has been accepted still passes
fenced :
    (s : ControlStore) (task_id : String) (a : RuntimeAssignment) (claim_token : String)
    (now again : ℕ) (owner : Option String)
    → IsLease s a owner again
    → assert_fencing (assign s task_id a claim_token now again).0 (resource a) a.fencing_token again
      ≡ ok tt
unfolding assign assert_fencing
fenced s task_id a claim_token now again owner l = ground (arith, l.stored, l.named, l.runs)

-- A task is assigned only where it is claimed, under a claim that the caller names and that has not
-- run out, where the claim's owner holds a live lease of the session, the one that the assignment
-- names by its id and fencing token, and where no assignment of the task is to be started or runs.
-- The assignment is stored then, its fencing token passes `assert_fencing`, and the claim is used
-- up: no other assignment of the task is accepted.
pub assign_authorized :
    (s : ControlStore) (task_id : String) (a : RuntimeAssignment) (claim_token : String)
    (now again : ℕ)
    → let t = (assign s task_id a claim_token now again).0 in
      (assign s task_id a claim_token now again).1 ≡ true
      → (b : RuntimeAssignment) (claim_token' : String) (now' again' : ℕ)
      → ((item : RunnableItem) × (owner : Option String) × (Dict.get task_id s.queue
            ≡ some (item, QueueStatus.claimed, owner))
          × IsClaim s task_id claim_token now
          × IsLease s a owner again)
        × NoneInForce s task_id
        × (get_assignment t task_id ≡ some a)
        × (assert_fencing t (resource a) a.fencing_token again ≡ ok tt)
        × (assign t task_id b claim_token' now' again' ≡ (t, false))
unfolding assign get_assignment
assign_authorized s task_id a claim_token now again h b claim_token' now' again' =
    elim (Option-cases (Dict.get task_id s.queue)) [
      | inl e ↦ absurd (ground (arith, h, e))
      | inr ((item, status, owner), e) ↦
          (let put = Dict.get-put_self task_id (item, QueueStatus.assigned, owner) s.queue in
            let stored = Dict.get-put_self task_id (a, AssignmentStatus.assigned) s.assignments in
            let l = lease_fits-IsLease s a owner again (ground (arith, h, e)) in
            (
              (
                item,
                owner,
                ground (arith, h, e),
                claim_held-IsClaim s task_id claim_token now (ground (arith, h, e)),
                l,
              ),
              is_replaceable-NoneInForce s task_id (ground (arith, h, e)),
              ground (arith, h, e, stored),
              fenced s task_id a claim_token now again owner l,
              assign_refused (assign s task_id a claim_token now again).0 task_id b claim_token'
                  now' again' {item = item} {owner = owner} (ground (arith, h, e, put)),
            ))
    ]
