-- ===== src/Control/Later/Grants.antt =====
-- Proofs about `Later` for the methods of InMemoryControlStateStore that grant, renew and drop
-- leases, and that store checkpoints.
use aura_claw.Prelude.{
  ℕ, ◌+◌, ◌≤◌, String, ◌≡◌, refl, inl, inr, false, some, arith, Bool-cases, Option-cases, ◌==◌,
  option_eq, pair_eq, triple_eq, string_eq, nat_eq,
}
use aura_claw.Prelude.Dict
use aura_claw.Prelude.Dict.{
  Dict, get-put, get-remove, get-put_self, get-remove_self, put-put_self, dict_laws,
}
use aura_claw.Control.Store.{RuntimeLease, RuntimeCheckpoint, ControlStore, resource_of}
use aura_claw.Control.Leases.{
  counter, is_live, new_lease, owned, holds_token, acquire_lease, renew_lease, release_lease,
  save_checkpoint, is_newer, checkpoint_key,
}
use aura_claw.Control.Later.{
  Later, Later-refl, Later-leases, Above-put, Above-remove, Above-get, Stored-put,
}

-- A step that does not touch leases or checkpoints.
pub Later-frame :
    (s t : ControlStore)
    → t.lease_counters ≡ s.lease_counters
    → t.leases ≡ s.leases
    → t.checkpoints ≡ s.checkpoints
    → Later s t
Later-frame s t c l k = Later-leases s s.leases (λ r n h. h) t c l k

pub Later-acquire_lease :
    (s : ControlStore) (resource_id owner hex : String) (ttl now : ℕ)
    → Later s (acquire_lease s resource_id owner hex ttl now).0
unfolding acquire_lease
Later-acquire_lease s resource_id owner hex ttl now =
    let lease = new_lease resource_id hex owner (counter resource_id s + 1) (now + ttl) in
    elim (Bool-cases (is_live (Dict.get resource_id s.leases) now)) [
      | inl b ↦ rw (acquire_lease, b) (Later-refl s)
      | inr b ↦
          rw (acquire_lease, b)
            (record {
              counters = λ r.
                  ground (
                    arith,
                    Dict.get-put r resource_id (counter resource_id s + 1) s.lease_counters,
                  );
              above = λ r n m h. Above-put r n resource_id lease s.leases (λ e. ground arith) h;
              stored = λ k n h. h;
            })
    ]

pub Later-renew_lease :
    (s : ControlStore) (lease : RuntimeLease) (ttl now again : ℕ)
    → Later s (renew_lease s lease ttl now again).0
unfolding renew_lease
Later-renew_lease s lease ttl now again =
    elim (Option-cases (Dict.get lease.resource_id s.leases)) [
      | inl e ↦ rw (e, renew_lease) (Later-refl s)
      | inr (l, e) ↦ elim (Bool-cases (owned l lease now)) [
        | inl b ↦
            rw (renew_lease, e, b)
              (Later-leases s
                (Dict.put lease.resource_id (record l { expires_at = again + ttl }) s.leases)
                (λ r n h.
                  Above-put r n lease.resource_id _ s.leases
                    (Above-get r n lease.resource_id l s.leases e h) h)
                _ refl refl refl)
        | inr b ↦ rw (renew_lease, e, b) (Later-refl s)
      ]
    ]

pub Later-release_lease :
    (s : ControlStore) (lease : RuntimeLease) → Later s (release_lease s lease)
unfolding release_lease
Later-release_lease s lease = elim (Option-cases (Dict.get lease.resource_id s.leases)) [
  | inl e ↦ rw (e, release_lease) (Later-refl s)
  | inr (l, e) ↦ elim (Bool-cases (l.lease_id == lease.lease_id)) [
    | inl b ↦
        rw (e, release_lease, b)
          (Later-leases s (Dict.remove lease.resource_id s.leases)
            (λ r n h. Above-remove r n lease.resource_id s.leases h) _ refl refl refl)
    | inr b ↦ rw (e, release_lease, b) (Later-refl s)
  ]
]

-- The checkpoint that is stored is not of an older lease.
pub is_newer-false :
    (s : ControlStore) (c b : RuntimeCheckpoint)
    → is_newer (Dict.get (checkpoint_key c) s.checkpoints) c ≡ false
    → Dict.get (checkpoint_key c) s.checkpoints ≡ some b
    → b.fencing_token ≤ c.fencing_token
is_newer-false s c b h e = ground arith

pub Later-checkpoint :
    (s t : ControlStore) (c : RuntimeCheckpoint)
    → is_newer (Dict.get (checkpoint_key c) s.checkpoints) c ≡ false
    → Later s t
    → t.checkpoints ≡ s.checkpoints
    → Later s (record t { checkpoints = Dict.put (checkpoint_key c) c s.checkpoints })
Later-checkpoint s t c b later same = record {
  counters = later.counters;
  above = later.above;
  stored = λ k n h.
      Stored-put k n (checkpoint_key c) c s.checkpoints (λ old e. is_newer-false s c old b e) h;
}

pub Later-save_checkpoint :
    (s : ControlStore) (c : RuntimeCheckpoint) (now : ℕ) → Later s (save_checkpoint s c now).0
unfolding save_checkpoint
Later-save_checkpoint s c now =
    elim (Bool-cases (
      holds_token (Dict.get (resource_of c.tenant_id c.session_id) s.leases) c.fencing_token now)) [
        | inr a ↦ rw (save_checkpoint, a) (Later-refl s)
        | inl a ↦ elim (Bool-cases (is_newer (Dict.get (checkpoint_key c) s.checkpoints) c)) [
          | inl b ↦ rw (save_checkpoint, a, b) (Later-refl s)
          | inr b ↦ rw (save_checkpoint, a, b) (Later-checkpoint s s c b (Later-refl s) refl)
        ]
      ]
