-- ===== src/Control/Assignments.antt =====
-- Assignments of InMemoryControlStateStore: `assign`, `get_assignment`, `claim_assignments` and
-- `renew_assignment_claim`. An assignment is a value here; the source also mutates the object that the
-- caller of `assign` has handed over.
use aura_claw.Prelude.{
  ℕ, ◌+◌, ◌-◌, min, String, Bool, true, false, not, ◌&&◌, Option, none, some, List, [], ◌∷◌, ltb,
  leb, if◌then◌else◌, is_some, ◌==◌, option_eq, pair_eq, triple_eq, string_eq, nat_eq, Error,
  Result, ok, err,
}
use aura_claw.Prelude.Dict
use aura_claw.Prelude.Dict.{
  Dict, get-put, get-remove, get-put_self, get-remove_self, put-put_self, dict_laws,
}
use aura_claw.Contracts.{Value}
use aura_claw.Control.Store.{
  RuntimeLease, RuntimeAssignment, RuntimeInstance, QueueStatus, AssignmentStatus, ControlStore,
  execution_claim_ttl, assignment_lease_ttl, resource_of, is_waiting, is_claimed, is_running,
  is_assigned, discard,
}
use aura_claw.Control.Leases.{holds_token}

abbrev pub resource : RuntimeAssignment → String
resource a = resource_of a.tenant_id a.session_id

-- `claim[0] == claim_token and claim[1] > now`, for a claim that is there
abbrev pub claim_held : Option (String × ℕ) → String → ℕ → Bool
claim_held none claim_token now = false
claim_held (some (token, expires_at)) claim_token now = token == claim_token && ltb now expires_at

-- the lease under which a task is assigned is that of the claim's owner
abbrev pub lease_fits : Option RuntimeLease → RuntimeAssignment → (owner : Option String) → ℕ → Bool
lease_fits none a owner now = false
lease_fits (some lease) a owner now =
    lease.lease_id == a.lease_id
    && lease.fencing_token == a.fencing_token
    && some lease.owner == owner
    && ltb now lease.expires_at

-- an earlier assignment of the task is over, or waits
abbrev pub is_replaceable : Option (RuntimeAssignment × AssignmentStatus) → Bool
is_replaceable none = true
is_replaceable (some (_, AssignmentStatus.expired)) = true
is_replaceable (some (_, AssignmentStatus.completed)) = true
is_replaceable (some (_, AssignmentStatus.failed)) = true
is_replaceable (some (_, status)) = is_waiting status

-- `now` is read for the claim and `again` for the lease.
unfoldable pub assign :
    ControlStore
    → (task_id : String) → RuntimeAssignment
    → (claim_token : String) → (now again : ℕ) → ControlStore × Bool
assign s task_id a claim_token now again = elim (Dict.get task_id s.queue) [
  | none ↦ (s, false)
  | some (item, status, owner) ↦
      if is_claimed status
        && claim_held (Dict.get task_id s.queue_claims) claim_token now
        && lease_fits (Dict.get (resource a) s.leases) a owner again
        && is_replaceable (Dict.get task_id s.assignments)
      then (
        record s {
          assignments = Dict.put task_id (a, AssignmentStatus.assigned) s.assignments;
          pending_wakes = discard task_id s.pending_wakes;
          queue = Dict.put task_id (item, QueueStatus.assigned, owner) s.queue;
          queue_claims = Dict.remove task_id s.queue_claims;
        },
        true,
      )
      else (s, false)
]

unfoldable pub get_assignment : ControlStore → String → Option RuntimeAssignment
get_assignment s task_id = elim (Dict.get task_id s.assignments) [
  | none ↦ none
  | some (a, _) ↦ some a
]

abbrev is_true : Option Value → Bool
is_true (some (Value.bool b)) = b
is_true _ = false

-- a budget of policy version 2 wants a runtime that governs it
abbrev ungoverned : RuntimeAssignment → RuntimeInstance → Bool
ungoverned a runtime =
    a.budget.policy_version == "2"
    && not (is_true (Dict.get "runtime_governance_v2" runtime.capabilities))

-- the lease of a claim runs no longer than the claim
abbrev pub shortened : RuntimeLease → ℕ → RuntimeLease
shortened lease now = record lease {
  expires_at = min lease.expires_at (now + assignment_lease_ttl);
}

module _ (runtime_id : String) (runtime : RuntimeInstance) (now : ℕ) where
  -- the assignment may be claimed: the tests at the head of the loop's body
  unfoldable pub claimable : ControlStore → RuntimeAssignment → AssignmentStatus → Bool
  claimable s a status =
      a.runtime_id == runtime_id
      && is_assigned status
      && not (ungoverned a runtime)
      && holds_token (Dict.get (resource a) s.leases) a.fencing_token now

  unfoldable pub claimed_form :
      RuntimeAssignment → (token : String) → RuntimeLease → RuntimeAssignment
  claimed_form a token lease = record a {
    execution_claim_token = some token;
    execution_claim_expires_at = some (now + execution_claim_ttl);
    lease_expires_at = some lease.expires_at;
  }

  -- `started_at.setdefault(task_id, now)`
  abbrev started : String → Dict String ℕ → Dict String ℕ
  started task_id d = if is_some (Dict.get task_id d) then d else Dict.put task_id now d

  -- the claim of one assignment, where its lease is there
  unfoldable pub claim_one :
      ControlStore
      → (task_id token : String) → RuntimeAssignment
      → Option RuntimeLease
      → ControlStore × RuntimeAssignment
  unfolding claimed_form
  claim_one s task_id token a none = (s, a)
  claim_one s task_id token a (some lease) =
      let lease' = shortened lease now in
      let a' = claimed_form a token lease' in
      (
        record s {
          leases = Dict.put (resource a) lease' s.leases;
          assignments = Dict.put task_id (a', AssignmentStatus.running) s.assignments;
          assignment_started_at = started task_id s.assignment_started_at;
        },
        a',
      )

  -- The loop, over the entries as they were; `token i` is fresh, and `room` is what `limit` leaves.
  unfoldable pub claim_loop :
      (token : ℕ → String)
      → ℕ
      → (room : ℕ) → Dict String (RuntimeAssignment × AssignmentStatus)
      → ControlStore
      → ControlStore × List (String × RuntimeAssignment)
  unfolding claimable claim_one
  claim_loop token i room [] s = (s, [])
  claim_loop token i room ((task_id, (a, status)) ∷ rest) s = elim (claimable s a status) [
    | false ↦ claim_loop token (i + 1) room rest s
    | true ↦
        (let (t, a') = claim_one s task_id (token i) a (Dict.get (resource a) s.leases) in
          elim (leb room 1) [
            | true ↦ (t, (task_id, a') ∷ [])
            | false ↦
                (let (u, more) = claim_loop token (i + 1) (room - 1) rest t in
                  (u, (task_id, a') ∷ more))
          ])
  ]

unfoldable pub claim_assignments :
    ControlStore
    → (runtime_id role registration_id : String) → (token : ℕ → String) → (limit now : ℕ)
    → ControlStore × List (String × RuntimeAssignment)
unfolding claim_loop
claim_assignments s runtime_id role registration_id token limit now =
    elim (Dict.get runtime_id s.runtimes) [
      | none ↦ (s, [])
      | some (runtime, _) ↦
          if runtime.role == role && runtime.registration_id == registration_id
          then claim_loop runtime_id runtime now token 0 limit s.assignments s
          else (s, [])
    ]

-- the execution claim of a running assignment is the caller's, under a live lease
abbrev pub holds_execution :
    RuntimeAssignment
    → AssignmentStatus
    → Option RuntimeLease
    → (runtime_id execution_claim_token lease_id : String) → (fencing_token now : ℕ) → Bool
holds_execution a status none runtime_id token lease_id fencing_token now = false
holds_execution a status (some lease) runtime_id token lease_id fencing_token now =
    is_running status
    && a.runtime_id == runtime_id
    && a.execution_claim_token == some token
    && not (expired a.execution_claim_expires_at)
    && a.lease_id == lease_id
    && a.fencing_token == fencing_token
    && lease.lease_id == lease_id
    && lease.fencing_token == fencing_token
    && ltb now lease.expires_at
  where
    expired : Option ℕ → Bool
    expired none = true
    expired (some t) = leb t now

unfoldable pub may_renew :
    ControlStore
    → RuntimeAssignment
    → AssignmentStatus
    → RuntimeInstance
    → (runtime_id registration_id execution_claim_token lease_id : String) → (fencing_token now : ℕ)
    → Bool
may_renew s a status runtime runtime_id registration_id token lease_id fencing_token now =
    runtime.registration_id == registration_id
    && holds_execution a status (Dict.get (resource a) s.leases) runtime_id token lease_id
        fencing_token now

unfoldable pub extended :
    RuntimeAssignment
    → (expires_at : ℕ) → Dict String RuntimeLease
    → Option RuntimeLease
    → Dict String RuntimeLease
extended a expires_at leases none = leases
extended a expires_at leases (some lease) =
    Dict.put (resource a) (record lease { expires_at = expires_at }) leases

unfoldable pub renew_found :
    ControlStore
    → (task_id : String) → Option (RuntimeAssignment × AssignmentStatus)
    → Option (RuntimeInstance × ℕ)
    → (runtime_id registration_id execution_claim_token lease_id : String) → (fencing_token now : ℕ)
    → ControlStore × Result RuntimeAssignment
unfolding may_renew extended
renew_found s task_id none runtime runtime_id registration_id token lease_id fencing_token now =
    (s, err Error.lease_conflict)
renew_found s task_id (some _) none runtime_id registration_id token lease_id fencing_token now =
    (s, err Error.lease_conflict)
renew_found s task_id (some (a, status)) (some (runtime, _)) runtime_id registration_id token
      lease_id fencing_token now =
    let expires_at = now + assignment_lease_ttl in
    let a' = record a {
      lease_expires_at = some expires_at;
      execution_claim_expires_at = some (now + execution_claim_ttl);
    } in
    if may_renew s a status runtime runtime_id registration_id token lease_id fencing_token now
    then (
      record s {
        leases = extended a expires_at s.leases (Dict.get (resource a) s.leases);
        assignments = Dict.put task_id (a', status) s.assignments;
        runtimes = Dict.put runtime_id (runtime, now) s.runtimes;
      },
      ok a',
    )
    else (s, err Error.lease_conflict)

unfoldable pub renew_assignment_claim :
    ControlStore
    → (task_id runtime_id registration_id execution_claim_token lease_id : String)
    → (fencing_token now : ℕ) → ControlStore × Result RuntimeAssignment
unfolding renew_found
renew_assignment_claim s task_id runtime_id registration_id token lease_id fencing_token now =
    renew_found s task_id (Dict.get task_id s.assignments) (Dict.get runtime_id s.runtimes)
      runtime_id registration_id token lease_id fencing_token now
