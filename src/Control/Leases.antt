-- ===== src/Control/Leases.antt =====
-- Leases, fencing tokens, checkpoints, runtimes and cancellations of InMemoryControlStateStore.
use aura_claw.Prelude.{
  ℕ, ◌+◌, String, ◌<>◌, Bool, false, not, ◌&&◌, Option, none, some, [], ◌∷◌, ◌++◌, ltb,
  if◌then◌else◌, is_some, ◌==◌, contains, option_eq, pair_eq, triple_eq, string_eq, nat_eq, Error,
  Result, ok, err,
}
use aura_claw.Prelude.Dict
use aura_claw.Prelude.Dict.{
  Dict, get-put, get-remove, get-put_self, get-remove_self, put-put_self, dict_laws,
}
use aura_claw.Control.Store.{
  RuntimeLease, RuntimeCheckpoint, RuntimeInstance, RuntimeAssignment, AssignmentStatus,
  ControlStore, stale_heartbeat_after, resource_of,
}

abbrev pub counter : String → ControlStore → ℕ
counter resource_id s = elim (Dict.get resource_id s.lease_counters) [ none ↦ 0 | some n ↦ n ]

-- there is a lease that has not run out
abbrev pub is_live : Option RuntimeLease → ℕ → Bool
is_live none now = false
is_live (some lease) now = ltb now lease.expires_at

-- `hex` is the fresh `uuid4().hex`.
abbrev pub new_lease : (resource_id hex owner : String) → (token expires_at : ℕ) → RuntimeLease
new_lease resource_id hex owner token expires_at = record {
  resource_id = resource_id;
  lease_id = "lea_" <> hex;
  owner = owner;
  fencing_token = token;
  expires_at = expires_at;
}

unfoldable pub acquire_lease :
    ControlStore
    → (resource_id owner hex : String) → (ttl now : ℕ) → ControlStore × Option RuntimeLease
acquire_lease s resource_id owner hex ttl now =
    let token = counter resource_id s + 1 in
    let lease = new_lease resource_id hex owner token (now + ttl) in
    if is_live (Dict.get resource_id s.leases) now then (s, none) else (
      record s {
        lease_counters = Dict.put resource_id token s.lease_counters;
        leases = Dict.put resource_id lease s.leases;
      },
      some lease,
    )

-- the stored lease is the one that is named, and it has not run out
abbrev pub owned : RuntimeLease → RuntimeLease → ℕ → Bool
owned current lease now =
    current.lease_id == lease.lease_id
    && current.owner == lease.owner
    && current.fencing_token == lease.fencing_token
    && ltb now current.expires_at

unfoldable pub renew_lease :
    ControlStore → RuntimeLease → (ttl now again : ℕ) → ControlStore × Result RuntimeLease
renew_lease s lease ttl now again = elim (Dict.get lease.resource_id s.leases) [
  | none ↦ (s, err Error.lease_conflict)
  | some current ↦
      let renewed = record current { expires_at = again + ttl } in
      if owned current lease now
      then (record s { leases = Dict.put lease.resource_id renewed s.leases }, ok renewed)
      else (s, err Error.lease_conflict)
]

unfoldable pub release_lease : ControlStore → RuntimeLease → ControlStore
release_lease s lease = elim (Dict.get lease.resource_id s.leases) [
  | none ↦ s
  | some current ↦
      if current.lease_id == lease.lease_id
      then record s { leases = Dict.remove lease.resource_id s.leases }
      else s
]

-- a live lease with this fencing token
abbrev pub holds_token : Option RuntimeLease → (fencing_token now : ℕ) → Bool
holds_token none fencing_token now = false
holds_token (some lease) fencing_token now =
    ltb now lease.expires_at && lease.fencing_token == fencing_token

unfoldable pub assert_fencing :
    ControlStore → (resource_id : String) → (fencing_token now : ℕ) → Result (Unit {0})
assert_fencing s resource_id fencing_token now =
    if holds_token (Dict.get resource_id s.leases) fencing_token now
    then ok tt
    else err Error.fencing_token

abbrev pub checkpoint_key : RuntimeCheckpoint → String × String × String
checkpoint_key c = (c.tenant_id, c.session_id, c.run_id)

-- a checkpoint of a later lease is stored
abbrev pub is_newer : Option RuntimeCheckpoint → RuntimeCheckpoint → Bool
is_newer none c = false
is_newer (some previous) c = ltb c.fencing_token previous.fencing_token

unfoldable pub save_checkpoint :
    ControlStore → RuntimeCheckpoint → (now : ℕ) → ControlStore × Result (Unit {0})
save_checkpoint s c now =
    if holds_token (Dict.get (resource_of c.tenant_id c.session_id) s.leases) c.fencing_token now
    then (
      if is_newer (Dict.get (checkpoint_key c) s.checkpoints) c
          then s
          else record s { checkpoints = Dict.put (checkpoint_key c) c s.checkpoints },
      ok tt,
    )
    else (s, err Error.fencing_token)

unfoldable pub load_checkpoint :
    ControlStore → (tenant_id session_id run_id : String) → Option RuntimeCheckpoint
load_checkpoint s tenant_id session_id run_id =
    Dict.get (tenant_id, session_id, run_id) s.checkpoints

unfoldable pub request_cancel : ControlStore → (tenant_id session_id run_id : String) → ControlStore
request_cancel s tenant_id session_id run_id =
    let key : String × String × String = (tenant_id, session_id, run_id) in
    if contains s.cancellations key
    then s
    else record s { cancellations = s.cancellations ++ key ∷ [] }

unfoldable pub is_cancelled : ControlStore → (tenant_id session_id run_id : String) → Bool
is_cancelled s tenant_id session_id run_id =
    contains s.cancellations (tenant_id, session_id, run_id)

-- another registration of the runtime, with a fresh heartbeat; the test is
-- `heartbeat_at > now - stale_heartbeat_after`
abbrev pub is_taken : Option (RuntimeInstance × ℕ) → RuntimeInstance → ℕ → Bool
is_taken none instance' now = false
is_taken (some (current, heartbeat_at)) instance' now =
    not (current.registration_id == instance'.registration_id)
    && ltb now (heartbeat_at + stale_heartbeat_after)

unfoldable pub register_runtime :
    ControlStore → RuntimeInstance → (now again : ℕ) → ControlStore × Result (Unit {0})
register_runtime s instance' now again =
    if is_taken (Dict.get instance'.runtime_id s.runtimes) instance' now
    then (s, err Error.lease_conflict)
    else (
      record s { runtimes = Dict.put instance'.runtime_id (instance', again) s.runtimes },
      ok tt,
    )

-- the fencing token of the runtime's first assignment
first_token : String → Dict String (RuntimeAssignment × AssignmentStatus) → Option ℕ
first_token runtime_id [] = none
first_token runtime_id ((_, (assignment, _)) ∷ rest) =
    let later = first_token runtime_id rest in
    if assignment.runtime_id == runtime_id then some assignment.fencing_token else later

unfoldable pub heartbeat :
    ControlStore
    → (runtime_id : String) → (fencing_token : Option ℕ) → (registration_id : String) → (now : ℕ)
    → ControlStore × Result (Unit {0})
unfolding first_token
heartbeat s runtime_id fencing_token registration_id now = elim (Dict.get runtime_id s.runtimes) [
  | none ↦ (s, err Error.lease_conflict)
  | some (instance', _) ↦
      if not (instance'.registration_id == registration_id)
      then (s, err Error.lease_conflict)
      else if is_some fencing_token && not (first_token runtime_id s.assignments == fencing_token)
      then (s, err Error.fencing_token)
      else (record s { runtimes = Dict.put runtime_id (instance', now) s.runtimes }, ok tt)
]
