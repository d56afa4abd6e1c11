-- ===== src/Control/Store.antt =====
-- The records of control/ports.py, and the state of InMemoryControlStateStore. Every method holds
-- the store's lock, so it is one step. A method takes the readings of the clock as arguments, in
-- the order in which it makes them.
use aura_claw.Prelude.{
  ℕ, String, ◌<>◌, Bool, true, false, not, Option, List, [], ◌∷◌, ◌++◌, if◌then◌else◌, ◌==◌,
  contains, option_eq, pair_eq, triple_eq, string_eq, nat_eq, select,
}
use aura_claw.Prelude.Dict.{Dict}
use aura_claw.Contracts.{Value}

pub record RuntimeBudget : Type 0 where
  pub max_steps : ℕ
  pub max_output_tokens : ℕ
  pub max_cost : Option ℕ
  pub policy_version : String

pub record RunnableItem : Type 0 where
  pub task_id : String
  pub tenant_id : String
  pub root_session_id : String
  pub session_id : String
  pub run_id : String
  pub source_version : ℕ
  pub priority : ℕ
  pub queue_partition : String
  pub role : String
  pub required_capability : Dict String Value
  pub deadline : Option ℕ
  pub budget : RuntimeBudget
  pub user_id : Option String
  pub dept_id : Option String

pub record ClaimedRunnable : Type 0 where
  pub item : RunnableItem
  pub claimed_by : String
  pub claim_token : String
  pub claim_expires_at : ℕ

pub record RuntimeLease : Type 0 where
  pub resource_id : String
  pub lease_id : String
  pub owner : String
  pub fencing_token : ℕ
  pub expires_at : ℕ

pub record RuntimeAssignment : Type 0 where
  pub tenant_id : String
  pub root_session_id : String
  pub session_id : String
  pub run_id : String
  pub runtime_id : String
  pub lease_id : String
  pub fencing_token : ℕ
  pub role : String
  pub resource_profile : Dict String Value
  pub deadline : Option ℕ
  pub budget : RuntimeBudget
  pub lease_expires_at : Option ℕ
  -- the LeaseAssertion of contracts/internal.py
  pub lease_assertion : Option Value
  pub user_id : Option String
  pub dept_id : Option String
  pub execution_claim_token : Option String
  pub execution_claim_expires_at : Option ℕ

pub record RuntimeInstance : Type 0 where
  pub runtime_id : String
  pub runtime_type : String
  pub role : String
  pub node_id : String
  pub capabilities : Dict String Value
  pub capacity : ℕ
  pub registration_id : String

pub record RuntimeCheckpoint : Type 0 where
  pub tenant_id : String
  pub session_id : String
  pub run_id : String
  pub fencing_token : ℕ
  pub phase : String
  pub state : Dict String Value
  pub updated_at : ℕ

pub data QueueStatus : Type 0 where
  queued claimed assigned acked : QueueStatus

-- `ended` stands for an outcome of another name.
pub data AssignmentStatus : Type 0 where
  assigned running expired completed failed cancelled : AssignmentStatus
  waiting_children waiting_for_human waiting_for_tool : AssignmentStatus
  ended : String → AssignmentStatus

pub record ControlStore : Type 0 where
  pub queue : Dict String (RunnableItem × QueueStatus × Option String)
  pub queue_claims : Dict String (String × ℕ)
  pub queue_available_at : Dict String ℕ
  pub leases : Dict String RuntimeLease
  pub lease_counters : Dict String ℕ
  pub assignments : Dict String (RuntimeAssignment × AssignmentStatus)
  pub assignment_started_at : Dict String ℕ
  pub pending_wakes : List String
  pub runtimes : Dict String (RuntimeInstance × ℕ)
  pub capacity : Dict String ℕ
  pub checkpoints : Dict (String × String × String) RuntimeCheckpoint
  pub cancellations : List (String × String × String)

abbrev pub init : ControlStore
init = record {
  queue = [];
  queue_claims = [];
  queue_available_at = [];
  leases = [];
  lease_counters = [];
  assignments = [];
  assignment_started_at = [];
  pending_wakes = [];
  runtimes = [];
  capacity = [];
  checkpoints = [];
  cancellations = [];
}

-- the constants of `__init__`, in microseconds
abbrev pub stale_heartbeat_after : ℕ
stale_heartbeat_after = 30_000_000

abbrev pub execution_claim_ttl : ℕ
execution_claim_ttl = 30_000_000

abbrev pub assignment_lease_ttl : ℕ
assignment_lease_ttl = 30_000_000

-- f"session:{tenant_id}:{session_id}"
unfoldable pub resource_of : (tenant_id session_id : String) → String
resource_of tenant_id session_id = "session:" <> (tenant_id <> (":" <> session_id))

-- waiting_children, waiting_for_human or waiting_for_tool
abbrev pub is_waiting : AssignmentStatus → Bool
is_waiting waiting_children = true
is_waiting waiting_for_human = true
is_waiting waiting_for_tool = true
is_waiting _ = false

abbrev pub is_claimed : QueueStatus → Bool
is_claimed claimed = true
is_claimed _ = false

abbrev pub is_queued : QueueStatus → Bool
is_queued queued = true
is_queued _ = false

abbrev pub is_acked : QueueStatus → Bool
is_acked acked = true
is_acked _ = false

abbrev pub is_running : AssignmentStatus → Bool
is_running running = true
is_running _ = false

abbrev pub is_assigned : AssignmentStatus → Bool
is_assigned assigned = true
is_assigned _ = false

-- assigned or running
abbrev pub is_active : AssignmentStatus → Bool
is_active assigned = true
is_active running = true
is_active _ = false

-- `s.add(x)` and `s.discard(x)`, for a set
abbrev pub add : String → List String → List String
add x xs = if contains xs x then xs else xs ++ x ∷ []

abbrev pub discard : String → List String → List String
discard x xs = select (λ y. not (x == y)) xs
