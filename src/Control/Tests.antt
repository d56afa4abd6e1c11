-- ===== src/Control/Tests.antt =====
-- One task through the control store: its lease, its claim, its assignment, its suspension and its
-- recovery.
use aura_claw.Control.Assignments.{get_assignment}
use aura_claw.Control.Leases.{assert_fencing}
use aura_claw.Prelude.{
  ℕ, ◌≤◌, ◌<◌, String, ◌≡◌, refl, true, false, Option, none, some, [], ◌∷◌, arith, option_eq,
  pair_eq, triple_eq, string_eq, nat_eq, Error, ok, err,
}
use aura_claw.Prelude.Dict
use aura_claw.Prelude.Dict.{
  Dict, get-put, get-remove, get-put_self, get-remove_self, put-put_self, dict_laws,
}
use aura_claw.Control.Store.{
  RuntimeBudget, RunnableItem, RuntimeLease, RuntimeAssignment, RuntimeCheckpoint, QueueStatus,
  AssignmentStatus, ControlStore, init, resource_of,
}
use aura_claw.Control.Queue.{reserve_capacity}
use aura_claw.Control.Leases.{
  acquire_lease, release_lease, renew_lease, assert_fencing, save_checkpoint, load_checkpoint,
  new_lease,
}
use aura_claw.Control.Assignments.{assign, resource}
use aura_claw.Control.Wakes.{finish_assignment, suspend_with_checkpoint, wake_assignment, is_stale}
use aura_claw.Control.Recovery.{recover_expired, is_lost}
use aura_claw.Control.Fencing.{
  tokens_increase, stale_token_refused, stale_checkpoint_refused, checkpoint_kept,
}
use aura_claw.Control.Steps.{Steps}
use aura_claw.Control.Steps.Step.{released, saved, recovered}
use aura_claw.Control.Steps.Steps.{stay, go}
use aura_claw.Control.Waking.{
  Queued, wake_before_suspension, wake_before_checkpoint, wake_after_suspension,
}
use aura_claw.Control.Exclusion.{IsClaim, IsLease, NoneInForce, lease_exclusive, assign_authorized}
use aura_claw.Control.Recovered.{lost_fenced}

abbrev lease_of : (hex owner : String) → (token expires_at : ℕ) → RuntimeLease
lease_of hex owner token expires_at = new_lease (resource_of "t" "s") hex owner token expires_at

grants_first :
    (acquire_lease init (resource_of "t" "s") "a" "1" 30 0).1 ≡ some (lease_of "1" "a" 1 30)
unfolding acquire_lease Dict.get
grants_first = refl

abbrev after_first : ControlStore
after_first = (acquire_lease init (resource_of "t" "s") "a" "1" 30 0).0

abbrev after_end : ControlStore
after_end = release_lease after_first (lease_of "1" "a" 1 30)

abbrev ended : Steps after_first after_end
ended = go (released (lease_of "1" "a" 1 30)) stay

grants_second :
    (acquire_lease after_end (resource_of "t" "s") "b" "2" 30 5).1 ≡ some (lease_of "2" "b" 2 35)
unfolding acquire_lease release_lease Dict.get Dict.put Dict.remove resource_of string_eq
grants_second = refl

tokens_increase_example :
    (lease_of "1" "a" 1 30).fencing_token < (lease_of "2" "b" 2 35).fencing_token
tokens_increase_example =
    tokens_increase init (resource_of "t" "s") "a" "1" 30 0 grants_first ended "b" "2" 30 5
      grants_second

abbrev after_second : ControlStore
after_second = (acquire_lease after_end (resource_of "t" "s") "b" "2" 30 5).0

abbrev much_later : ControlStore
much_later = (recover_expired after_second 90).0

abbrev ran : Steps after_second much_later
ran = go (recovered 90) stay

stale_token_refused_example :
    (assert_fencing much_later (resource_of "t" "s") 1 20 ≡ err Error.fencing_token)
    × (renew_lease much_later (lease_of "1" "a" 1 30) 30 20 20
        ≡ (much_later, err Error.lease_conflict))
stale_token_refused_example =
    stale_token_refused after_end (resource_of "t" "s") "b" "2" 30 5 grants_second ran
      (lease_of "1" "a" 1 30) refl (omega arith) 30 20 20

abbrev checkpoint : (token : ℕ) → RuntimeCheckpoint
checkpoint token = record {
  tenant_id = "t";
  session_id = "s";
  run_id = "r";
  fencing_token = token;
  phase = "step";
  state = [];
  updated_at = 1;
}

stale_checkpoint_refused_example :
    (save_checkpoint much_later (checkpoint 1) 20 ≡ (much_later, err Error.fencing_token))
    × (suspend_with_checkpoint much_later "task" (checkpoint 1) AssignmentStatus.waiting_for_tool 20
        ≡ (much_later, err Error.fencing_token))
stale_checkpoint_refused_example =
    stale_checkpoint_refused after_end (checkpoint 1) "b" "2" 30 5 grants_second ran (omega arith)
      "task" AssignmentStatus.waiting_for_tool refl 20

abbrev with_checkpoint : ControlStore
with_checkpoint = record init { checkpoints = (("t", "s", "r"), checkpoint 1) ∷ [] }

has_checkpoint : load_checkpoint with_checkpoint "t" "s" "r" ≡ some (checkpoint 1)
unfolding load_checkpoint Dict.get triple_eq string_eq
has_checkpoint = refl

checkpoint_kept_example :
    (d : RuntimeCheckpoint) × (load_checkpoint
        (save_checkpoint with_checkpoint (checkpoint 2) 5).0
        "t"
        "s"
        "r"
      ≡ some d)
    × (1 ≤ d.fencing_token)
checkpoint_kept_example =
    checkpoint_kept with_checkpoint "t" "s" "r" (checkpoint 1) has_checkpoint
      (go (saved (checkpoint 2) 5) stay)

abbrev budget : RuntimeBudget
budget = record { max_steps = 10; max_output_tokens = 1000; max_cost = none; policy_version = "1" }

abbrev item : RunnableItem
item = record {
  task_id = "task";
  tenant_id = "t";
  root_session_id = "s";
  session_id = "s";
  run_id = "r";
  source_version = 1;
  priority = 0;
  queue_partition = "p";
  role = "root";
  required_capability = [];
  deadline = none;
  budget = budget;
  user_id = none;
  dept_id = none;
}

abbrev work : RuntimeAssignment
work = record {
  tenant_id = "t";
  root_session_id = "s";
  session_id = "s";
  run_id = "r";
  runtime_id = "rt";
  lease_id = "lea_1";
  fencing_token = 1;
  role = "root";
  resource_profile = [];
  deadline = none;
  budget = budget;
  lease_expires_at = none;
  lease_assertion = none;
  user_id = none;
  dept_id = none;
  execution_claim_token = none;
  execution_claim_expires_at = none;
}

-- the task claimed by "a", which holds the session's lease
abbrev before_assign : ControlStore
before_assign = record init {
  queue = ("task", (item, QueueStatus.claimed, some "a")) ∷ [];
  queue_claims = ("task", ("tok", 30)) ∷ [];
  leases = (resource_of "t" "s", lease_of "1" "a" 1 30) ∷ [];
}

is_assigned : (assign before_assign "task" work "tok" 5 6).1 ≡ true
unfolding assign Dict.get string_eq option_eq nat_eq resource_of
is_assigned = refl

assign_authorized_example :
    let s = (assign before_assign "task" work "tok" 5 6).0 in
    ((queued : RunnableItem) × (owner : Option String) × (Dict.get "task" before_assign.queue
        ≡ some (queued, QueueStatus.claimed, owner))
      × IsClaim before_assign "task" "tok" 5
      × IsLease before_assign work owner 6)
    × NoneInForce before_assign "task"
    × (get_assignment s "task" ≡ some work)
    × (assert_fencing s (resource work) work.fencing_token 6 ≡ ok tt)
    × (assign s "task" work "tok" 7 8 ≡ (s, false))
assign_authorized_example =
    assign_authorized before_assign "task" work "tok" 5 6 is_assigned work "tok" 7 8

-- the task runs
abbrev running : ControlStore
running = record before_assign {
  queue = ("task", (item, QueueStatus.assigned, some "a")) ∷ [];
  queue_claims = [];
  assignments = ("task", (work, AssignmentStatus.running)) ∷ [];
}

has_work : Dict.get "task" running.assignments ≡ some (work, AssignmentStatus.running)
unfolding Dict.get string_eq
has_work = refl

has_entry : Dict.get "task" running.queue ≡ some (item, QueueStatus.assigned, some "a")
unfolding Dict.get string_eq
has_entry = refl

wake_before_suspension_example :
    ((wake_assignment running "task").1 ≡ false)
    × Queued "task" item (
        finish_assignment
          (wake_assignment running "task").0
          "task"
          AssignmentStatus.waiting_children)
wake_before_suspension_example =
    wake_before_suspension running "task" work AssignmentStatus.running
      AssignmentStatus.waiting_children item QueueStatus.assigned (some "a") has_work refl has_entry
      refl

is_fresh : is_stale running work (checkpoint 1) 5 ≡ false
unfolding is_stale Dict.get string_eq nat_eq triple_eq resource_of
is_fresh = refl

wake_before_checkpoint_example :
    let done =
      suspend_with_checkpoint
        (wake_assignment running "task").0
        "task"
        (checkpoint 1)
        AssignmentStatus.waiting_children
        5 in
    (done.1 ≡ ok tt)
    × Queued "task" item done.0
    × (load_checkpoint done.0 "t" "s" "r" ≡ some (checkpoint 1))
wake_before_checkpoint_example =
    wake_before_checkpoint running "task" work AssignmentStatus.running
      AssignmentStatus.waiting_children item QueueStatus.assigned (some "a") (checkpoint 1) 5
      has_work refl has_entry refl is_fresh

wake_after_suspension_example :
    let s = finish_assignment running "task" AssignmentStatus.waiting_children in
    ((wake_assignment s "task").1 ≡ true) × Queued "task" item (wake_assignment s "task").0
wake_after_suspension_example =
    wake_after_suspension running "task" work AssignmentStatus.running
      AssignmentStatus.waiting_children item QueueStatus.assigned (some "a") has_work has_entry refl
      refl

lease_exclusive_example :
    (assert_fencing after_first (resource_of "t" "s") 1 20 ≡ ok tt)
    × (acquire_lease after_first (resource_of "t" "s") "b" "2" 30 20 ≡ (after_first, none))
lease_exclusive_example =
    lease_exclusive init (resource_of "t" "s") "a" "1" 30 0 (lease_of "1" "a" 1 30) grants_first "b"
      "2" 30 20 (omega arith)

fits : (reserve_capacity init "tenant" 3 5).1 ≡ true
unfolding reserve_capacity Dict.get
fits = refl

-- no heartbeat of the runtime is known
is_lost-work : is_lost running 10 work AssignmentStatus.running ≡ true
unfolding is_lost Dict.get
is_lost-work = refl

lost_fenced_example :
    (Dict.get (resource work) (recover_expired running 10).0.leases ≡ none)
    × (assert_fencing (recover_expired running 10).0 (resource work) 1 11 ≡ err Error.fencing_token)
lost_fenced_example =
    lost_fenced running 10 "task" work AssignmentStatus.running has_work is_lost-work 1 11

leases_left :
    Dict.get (resource_of "t" "s") (recover_expired after_first 10).0.leases
    ≡ some (lease_of "1" "a" 1 30)
unfolding recover_expired acquire_lease Dict.get Dict.put string_eq resource_of
leases_left = refl
