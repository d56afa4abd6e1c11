-- ===== src/Control/Fencing.antt =====
-- Proofs about fencing tokens and checkpoints over the runs of InMemoryControlStateStore.
use aura_claw.Prelude.{
  ℕ, ◌+◌, ◌≤◌, ◌<◌, String, ◌≡◌, refl, sym, subst, inl, inr, true, false, some, arith, Option-cases,
  option_eq, pair_eq, triple_eq, string_eq, nat_eq, Error, err,
}
use aura_claw.Prelude.Dict
use aura_claw.Prelude.Dict.{
  Dict, get-put, get-remove, get-put_self, get-remove_self, put-put_self, dict_laws,
}
use aura_claw.Control.Store.{
  RuntimeLease, RuntimeCheckpoint, AssignmentStatus, ControlStore, resource_of, is_waiting,
}
use aura_claw.Control.Leases.{
  counter, new_lease, holds_token, acquire_lease, renew_lease, assert_fencing, save_checkpoint,
  load_checkpoint,
}
use aura_claw.Control.Wakes.{suspend_with_checkpoint, is_stale}
use aura_claw.Control.Later.{Above, Stored, Above-get}
use aura_claw.Control.Steps.{Steps, Steps-Later}

-- What a granted lease says of the state after: its token is the counter.
granted :
    (s : ControlStore) (resource_id owner hex : String) (ttl now : ℕ) {lease : RuntimeLease}
    → (acquire_lease s resource_id owner hex ttl now).1 ≡ some lease
    → (lease.fencing_token ≡ counter resource_id s + 1)
      × (counter resource_id (acquire_lease s resource_id owner hex ttl now).0
          ≡ lease.fencing_token)
unfolding acquire_lease
granted s resource_id owner hex ttl now h =
    let g = Dict.get-put_self resource_id (counter resource_id s + 1) s.lease_counters in
    (ground arith, ground (arith, g))

-- A lease that is granted on a resource has a larger fencing token than every lease granted on it
-- before, whatever happens in between.
pub tokens_increase :
    (s : ControlStore) (resource_id owner hex : String) (ttl now : ℕ) {lease : RuntimeLease}
    → (acquire_lease s resource_id owner hex ttl now).1 ≡ some lease
    → {t : ControlStore} → Steps (acquire_lease s resource_id owner hex ttl now).0 t
    → (owner' hex' : String) (ttl' now' : ℕ) {lease' : RuntimeLease}
    → (acquire_lease t resource_id owner' hex' ttl' now').1 ≡ some lease'
    → lease.fencing_token < lease'.fencing_token
tokens_increase s resource_id owner hex ttl now h {t} steps owner' hex' ttl' now' h' = omega (
  arith,
  (granted s resource_id owner hex ttl now h).1,
  (granted t resource_id owner' hex' ttl' now' h').0,
  (Steps-Later steps).counters resource_id,
)

Above-grant :
    (s : ControlStore) (resource_id owner hex : String) (ttl now : ℕ) {lease : RuntimeLease}
    → (acquire_lease s resource_id owner hex ttl now).1 ≡ some lease
    → (n : ℕ) → n < lease.fencing_token
    → Above resource_id n (acquire_lease s resource_id owner hex ttl now).0.leases
unfolding acquire_lease Above
Above-grant s resource_id owner hex ttl now h n m = λ l e.
    let new = new_lease resource_id hex owner (counter resource_id s + 1) (now + ttl) in
    ground (arith, Dict.get-put_self resource_id new s.leases)

outlived :
    (s : ControlStore) (resource_id owner hex : String) (ttl now : ℕ) {lease : RuntimeLease}
    → (acquire_lease s resource_id owner hex ttl now).1 ≡ some lease
    → {t : ControlStore} → Steps (acquire_lease s resource_id owner hex ttl now).0 t
    → (n : ℕ) → n < lease.fencing_token
    → Above resource_id n t.leases
outlived s resource_id owner hex ttl now h steps n m =
    (Steps-Later steps).above resource_id n
      (omega (arith, (granted s resource_id owner hex ttl now h).1))
      (Above-grant s resource_id owner hex ttl now h n m)

not_held :
    (r : String) (n : ℕ) (d : Dict String RuntimeLease) (now : ℕ)
    → Above r n d
    → holds_token (Dict.get r d) n now ≡ false
unfolding Above
not_held r n d now h = elim (Option-cases (Dict.get r d)) [
  | inl e ↦ rw e refl
  | inr (l, e) ↦ rw e (ground (arith, h l e))
]

-- Once a lease with a larger token has been granted on a resource, a token below it is refused for
-- good, whatever happens later: `assert_fencing` raises on it, and a lease that carries it cannot
-- be renewed.
pub stale_token_refused :
    (s : ControlStore) (resource_id owner hex : String) (ttl now : ℕ) {lease : RuntimeLease}
    → (acquire_lease s resource_id owner hex ttl now).1 ≡ some lease
    → {t : ControlStore} → Steps (acquire_lease s resource_id owner hex ttl now).0 t
    → (old : RuntimeLease) → old.resource_id ≡ resource_id
    → old.fencing_token < lease.fencing_token
    → (ttl' now' again : ℕ)
    → (assert_fencing t resource_id old.fencing_token now' ≡ err Error.fencing_token)
      × (renew_lease t old ttl' now' again ≡ (t, err Error.lease_conflict))
unfolding assert_fencing renew_lease
stale_token_refused s resource_id owner hex ttl now h {t} steps old same m ttl' now' again =
    let above = outlived s resource_id owner hex ttl now h steps old.fencing_token m in
    let above' = subst (λ r. Above r old.fencing_token t.leases) (sym same) above in
    (
      rw (assert_fencing, not_held resource_id old.fencing_token t.leases now' above) refl,
      elim (Option-cases (Dict.get old.resource_id t.leases)) [
        | inl e ↦ rw (renew_lease, e) refl
        | inr (l, e) ↦
            rw (renew_lease, e)
              (ground (
                arith,
                Above-get old.resource_id old.fencing_token old.resource_id l t.leases e above'
                    refl,
              ))
      ],
    )

-- A checkpoint under such a token is refused too, by `save_checkpoint` and by
-- `suspend_with_checkpoint`, and the state stays as it is.
pub stale_checkpoint_refused :
    (s : ControlStore) (c : RuntimeCheckpoint) (owner hex : String) (ttl now : ℕ)
    {lease : RuntimeLease}
    → (acquire_lease s (resource_of c.tenant_id c.session_id) owner hex ttl now).1 ≡ some lease
    → {t : ControlStore}
    → Steps (acquire_lease s (resource_of c.tenant_id c.session_id) owner hex ttl now).0 t
    → c.fencing_token < lease.fencing_token
    → (task_id : String) (reason : AssignmentStatus) → is_waiting reason ≡ true
    → (now' : ℕ)
    → (save_checkpoint t c now' ≡ (t, err Error.fencing_token))
      × (suspend_with_checkpoint t task_id c reason now' ≡ (t, err Error.fencing_token))
unfolding save_checkpoint suspend_with_checkpoint is_stale
stale_checkpoint_refused s c owner hex ttl now h {t} steps m task_id reason w now' =
    let r = resource_of c.tenant_id c.session_id in
    let refused =
      not_held r c.fencing_token t.leases now'
        (outlived s r owner hex ttl now h steps c.fencing_token m) in
    (
      rw (save_checkpoint, refused) refl,
      elim (Option-cases (Dict.get task_id t.assignments)) [
        | inl e ↦ rw (suspend_with_checkpoint, w, e) refl
        | inr (a, e) ↦ rw (suspend_with_checkpoint, is_stale, w, e, refused) (ground arith)
      ],
    )

-- A stored checkpoint is never lost, and never gives way to one of an older lease.
pub checkpoint_kept :
    (s : ControlStore) (tenant_id session_id run_id : String) (c : RuntimeCheckpoint)
    → load_checkpoint s tenant_id session_id run_id ≡ some c
    → {t : ControlStore} → Steps s t
    → (d : RuntimeCheckpoint) × (load_checkpoint t tenant_id session_id run_id ≡ some d)
      × (c.fencing_token ≤ d.fencing_token)
unfolding load_checkpoint Stored
checkpoint_kept s tenant_id session_id run_id c h {t} steps =
    (Steps-Later steps).stored (tenant_id, session_id, run_id) c.fencing_token (c, h, omega arith)
