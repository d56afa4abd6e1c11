-- ===== src/Control/Queue.antt =====
-- The queue of InMemoryControlStateStore: `enqueue`, `claim` and `reschedule`; and capacity.
use aura_claw.Prelude.{
  ℕ, ◌+◌, ◌-◌, String, Bool, true, false, not, ◌&&◌, ◌||◌, Option, none, some, List, [], ◌∷◌, map,
  ltb, leb, if◌then◌else◌, is_some, ◌==◌, option_eq, pair_eq, triple_eq, string_eq, nat_eq, take,
  select,
}
use aura_claw.Prelude.Dict
use aura_claw.Prelude.Dict.{
  Dict, get-put, get-remove, get-put_self, get-remove_self, put-put_self, dict_laws,
}
use aura_claw.Prelude.Dict.{values}
use aura_claw.Prelude.Sort.{sort}
use aura_claw.Prelude.Text.{text_lt}
use aura_claw.Control.Store.{
  RunnableItem, ClaimedRunnable, QueueStatus, AssignmentStatus, ControlStore, is_claimed, is_queued,
}

unfoldable pub enqueue : ControlStore → RunnableItem → ControlStore × Bool
enqueue s item = elim (Dict.get item.task_id s.queue) [
  | some _ ↦ (s, false)
  | none ↦
      (record s { queue = Dict.put item.task_id (item, QueueStatus.queued, none) s.queue }, true)
]

-- `queue_available_at.get(task_id, now) <= now`
abbrev pub is_available : Option ℕ → ℕ → Bool
is_available none now = true
is_available (some t) now = leb t now

-- the claim's end, or `datetime.min` where there is no claim
abbrev pub claim_passed : Option (String × ℕ) → ℕ → Bool
claim_passed none now = true
claim_passed (some (_, t)) now = leb t now

unfoldable pub is_candidate : ControlStore → ℕ → RunnableItem × QueueStatus × Option String → Bool
is_candidate s now (item, status, _) =
    (is_queued status && is_available (Dict.get item.task_id s.queue_available_at) now)
    || (is_claimed status && claim_passed (Dict.get item.task_id s.queue_claims) now)

-- the sort key `(-priority, task_id)`
before : RunnableItem → RunnableItem → Bool
before a b = ltb b.priority a.priority || (a.priority == b.priority && text_lt a.task_id b.task_id)

unfoldable pub candidates : ControlStore → ℕ → List RunnableItem
unfolding before values sort is_candidate
candidates s now = sort before (map (λ e. e.0) (select (is_candidate s now) (values s.queue)))

module _ (worker_id : String) (claim_ttl now : ℕ) (token : ℕ → String) where
  -- `token i` is the fresh `uuid4().hex` of the round `i`.
  unfoldable pub claim_items :
      ℕ → List RunnableItem → ControlStore → ControlStore × List ClaimedRunnable
  claim_items i [] s = (s, [])
  claim_items i (item ∷ rest) s =
      let expires_at = now + claim_ttl in
      let s' = record s {
        queue = Dict.put item.task_id (item, QueueStatus.claimed, some worker_id) s.queue;
        queue_claims = Dict.put item.task_id (token i, expires_at) s.queue_claims;
      } in
      let (t, more) = claim_items (i + 1) rest s' in
      (
        t,
        record {
          item = item;
          claimed_by = worker_id;
          claim_token = token i;
          claim_expires_at = expires_at;
        }
            ∷ more,
      )

  unfoldable pub claim : (limit : ℕ) → ControlStore → ControlStore × List ClaimedRunnable
  claim limit s = claim_items 0 (take limit (candidates s now)) s

-- the caller holds the task's claim, and it has not run out
abbrev holds_claim :
    (owner : Option String)
    → Option (String × ℕ)
    → (worker_id claim_token : Option String) → ℕ
    → Bool
holds_claim owner none worker_id claim_token now = false
holds_claim owner (some (token, expires_at)) worker_id claim_token now =
    owner == worker_id && some token == claim_token && ltb now expires_at

-- the assignment of a task that is rescheduled has failed
unfoldable pub fail_assignment : String → ControlStore → ControlStore
fail_assignment task_id s = elim (Dict.get task_id s.assignments) [
  | none ↦ s
  | some (assignment, _) ↦ record s {
    assignments = Dict.put task_id (assignment, AssignmentStatus.failed) s.assignments;
  }
]

-- `now` is read for the check, and only where a claim is given; `again` for the delay.
unfoldable pub reschedule :
    ControlStore
    → (task_id : String) → (worker_id claim_token : Option String) → (delay now again : ℕ)
    → ControlStore
unfolding fail_assignment
reschedule s task_id worker_id claim_token delay now again = elim (Dict.get task_id s.queue) [
  | none ↦ fail_assignment task_id s
  | some (item, _, owner) ↦
      if (is_some worker_id || is_some claim_token)
        && not (holds_claim owner (Dict.get task_id s.queue_claims) worker_id claim_token now)
      then s
      else fail_assignment task_id (record s {
        queue = Dict.put task_id (item, QueueStatus.queued, none) s.queue;
        queue_available_at = Dict.put task_id (again + delay) s.queue_available_at;
        queue_claims = Dict.remove task_id s.queue_claims;
      })
]

abbrev pub used : String → ControlStore → ℕ
used scope s = elim (Dict.get scope s.capacity) [ none ↦ 0 | some n ↦ n ]

-- `amount` is not negative here; the source refuses a negative one.
unfoldable pub reserve_capacity : ControlStore → String → (amount limit : ℕ) → ControlStore × Bool
reserve_capacity s scope amount limit =
    if ltb limit (used scope s + amount)
    then (s, false)
    else (record s { capacity = Dict.put scope (used scope s + amount) s.capacity }, true)

unfoldable pub release_capacity : ControlStore → String → (amount : ℕ) → ControlStore
release_capacity s scope amount = record s {
  capacity = Dict.put scope (used scope s - amount) s.capacity;
}
