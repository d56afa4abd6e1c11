-- ===== src/Control/Recovery.antt =====
-- `recover_expired` of InMemoryControlStateStore: what an expired lease, claim or heartbeat held is
-- given back to the queue. The set of expired resources is a list; only membership is asked of it.
use aura_claw.Prelude.{
  ℕ, ◌+◌, String, Bool, true, false, ◌&&◌, ◌||◌, Option, none, some, List, [], ◌∷◌, ◌++◌, map, leb,
  contains, option_eq, pair_eq, triple_eq, string_eq, nat_eq, select,
}
use aura_claw.Prelude.Dict
use aura_claw.Prelude.Dict.{
  Dict, get-put, get-remove, get-put_self, get-remove_self, put-put_self, dict_laws,
}
use aura_claw.Control.Store.{
  RunnableItem, RuntimeLease, RuntimeAssignment, RuntimeInstance, QueueStatus, AssignmentStatus,
  ControlStore, stale_heartbeat_after, is_claimed, is_running, is_active,
}
use aura_claw.Control.Assignments.{resource}
use aura_claw.Control.Wakes.{requeue, expire}

-- the resources whose lease has run out
unfoldable pub ran_out : ℕ → Dict String RuntimeLease → List String
ran_out now leases = map (λ e. e.0) (select (λ (_, lease). leb lease.expires_at now) leases)

abbrev heartbeat_stale : Option (RuntimeInstance × ℕ) → ℕ → Bool
heartbeat_stale none now = true
heartbeat_stale (some (_, heartbeat_at)) now = leb (heartbeat_at + stale_heartbeat_after) now

abbrev claim_lapsed : Option ℕ → ℕ → Bool
claim_lapsed none now = false
claim_lapsed (some t) now = leb t now

-- An active assignment has lost its execution claim, or its runtime.
unfoldable pub is_lost : ControlStore → (now : ℕ) → RuntimeAssignment → AssignmentStatus → Bool
is_lost s now a status =
    is_active status
    && ((is_running status && claim_lapsed a.execution_claim_expires_at now)
        || heartbeat_stale (Dict.get a.runtime_id s.runtimes) now)

abbrev pub resources : Dict String (RuntimeAssignment × AssignmentStatus) → List String
resources = map (λ (_, (a, _)). resource a)

unfoldable pub lost : ControlStore → ℕ → List String
unfolding is_lost
lost s now = resources (select (λ (_, (a, status)). is_lost s now a status) s.assignments)

unfoldable pub expired_resources : ControlStore → ℕ → List String
unfolding ran_out lost
expired_resources s now = ran_out now s.leases ++ lost s now

unfoldable pub drop_leases : List String → Dict String RuntimeLease → Dict String RuntimeLease
drop_leases [] leases = leases
drop_leases (r ∷ rs) leases = drop_leases rs (Dict.remove r leases)

-- the second loop, over the entries as they were
unfoldable pub expire_loop :
    List String
    → Dict String (RuntimeAssignment × AssignmentStatus)
    → ControlStore
    → ControlStore × ℕ
unfolding requeue expire
expire_loop gone [] s = (s, 0)
expire_loop gone ((task_id, (a, status)) ∷ rest) s =
    elim (contains gone (resource a) && is_active status) [
      | true ↦
          (let (t, n) = expire_loop gone rest (requeue task_id (expire task_id a s)) in (t, n + 1))
      | false ↦ expire_loop gone rest s
    ]

abbrev pub claim_over : QueueStatus → Option (String × ℕ) → ℕ → Bool
claim_over status none now = false
claim_over status (some (_, expires_at)) now = is_claimed status && leb expires_at now

-- the third loop, over the queue as it was
unfoldable pub unclaim_loop :
    ℕ → Dict String (RunnableItem × QueueStatus × Option String) → ControlStore → ControlStore × ℕ
unclaim_loop now [] s = (s, 0)
unclaim_loop now ((task_id, (item, status, _)) ∷ rest) s =
    elim (claim_over status (Dict.get task_id s.queue_claims) now) [
      | true ↦
          (let (t, n) = unclaim_loop now rest (record s {
            queue = Dict.put task_id (item, QueueStatus.queued, none) s.queue;
            queue_claims = Dict.remove task_id s.queue_claims;
          }) in
            (t, n + 1))
      | false ↦ unclaim_loop now rest s
    ]

unfoldable pub recover_expired : ControlStore → (now : ℕ) → ControlStore × ℕ
unfolding expire_loop unclaim_loop expired_resources drop_leases
recover_expired s now =
    let gone = expired_resources s now in
    let s' = record s { leases = drop_leases gone s.leases } in
    let (t, n) = expire_loop gone s.assignments s' in
    let (u, m) = unclaim_loop now t.queue t in (u, n + m)
