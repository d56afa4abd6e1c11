-- ===== src/Collaboration/Types.antt =====
-- contracts/collaboration.py, and CollaborationNode of domain/collaboration.py with the events that
-- CollaborationAggregate reads. Amounts of budget are numbers of millionths; the status of a node
-- is one of the texts that the source writes.
use aura_claw.Prelude.{
  ℕ, String, Bool, true, false, not, ◌&&◌, Option, some, List, [], ◌∷◌, ltb, if◌then◌else◌, ◌==◌,
  contains, all, string_eq, Error, Result, ok, err, ◌>>◌, guard,
}
use aura_claw.Prelude.Dict
use aura_claw.Prelude.Dict.{Dict}
use aura_claw.Prelude.Text.{is_truthy, strip}
use aura_claw.Contracts.{Value}

pub data CollaborationRole : Type 0 where
  root coordinator worker reviewer repair : CollaborationRole

-- `CollaborationRole(text)`
unfoldable pub parse_role : String → Result CollaborationRole
parse_role text =
    if text == "root"
    then ok CollaborationRole.root
    else if text == "coordinator"
    then ok CollaborationRole.coordinator
    else if text == "worker"
    then ok CollaborationRole.worker
    else if text == "reviewer"
    then ok CollaborationRole.reviewer
    else if text == "repair"
    then ok CollaborationRole.repair
    else err Error.value_error

-- `role.value`
abbrev pub role_value : CollaborationRole → String
role_value CollaborationRole.root = "root"
role_value CollaborationRole.coordinator = "coordinator"
role_value CollaborationRole.worker = "worker"
role_value CollaborationRole.reviewer = "reviewer"
role_value CollaborationRole.repair = "repair"

abbrev pub is_root : CollaborationRole → Bool
is_root CollaborationRole.root = true
is_root _ = false

abbrev pub is_reviewer : CollaborationRole → Bool
is_reviewer CollaborationRole.reviewer = true
is_reviewer _ = false

pub record CollaborationLimits : Type 0 where
  pub max_depth : ℕ
  pub max_children_per_parent : ℕ
  pub max_children : ℕ
  pub max_budget : ℕ

pub record OutputContract : Type 0 where
  pub version : String
  pub required_fields : List String
  pub require_artifacts : Bool
  pub require_evidence : Bool

abbrev pub publishable_child_result_fields : List String
publishable_child_result_fields =
    "summary" ∷ "result_ref" ∷ "artifact_refs" ∷ "evidence_refs" ∷ "limitations" ∷ []

-- `OutputContract(...)`, with the check of `__post_init__`
unfoldable pub check_contract : OutputContract → Result OutputContract
check_contract contract =
    if all (contains publishable_child_result_fields) contract.required_fields
    then ok contract
    else err Error.value_error

abbrev pub default_contract : OutputContract
default_contract = record {
  version = "1";
  required_fields = "summary" ∷ "result_ref" ∷ [];
  require_artifacts = false;
  require_evidence = false;
}

pub record ChildSpec : Type 0 where
  pub task_key : String
  pub role : CollaborationRole
  pub goal : String
  pub output_contract : OutputContract
  pub dependency_ids : List String
  pub input_refs : List String
  pub tool_permissions : List String
  pub budget : ℕ
  pub runtime_budget : Dict String (Option ℕ)
  pub metadata : Dict String Value

-- not set, or positive
is_positive_at : String → Dict String (Option ℕ) → Bool
is_positive_at key budget = elim (Dict.get key budget) [
  | some (some amount) ↦ ltb 0 amount
  | _ ↦ true
]

-- the checks of `ChildSpec.__post_init__`
unfoldable pub check_spec : ChildSpec → Result (Unit {0})
unfolding is_positive_at
check_spec spec = do
  guard (is_truthy (strip spec.task_key) && is_truthy (strip spec.goal)) Error.value_error
  guard (not (is_root spec.role)) Error.value_error
  guard (ltb 0 spec.budget) Error.value_error
  guard (is_positive_at "max_steps" spec.runtime_budget) Error.value_error
  guard (is_positive_at "max_output_tokens" spec.runtime_budget) Error.value_error
  guard (is_positive_at "max_cost" spec.runtime_budget) Error.value_error

pub data NodeStatus : Type 0 where
  blocked pending runnable running completed failed cancelled : NodeStatus

pub record CollaborationNode : Type 0 where
  pub tenant_id : String
  pub session_id : String
  pub root_session_id : String
  pub parent_session_id : Option String
  pub role : CollaborationRole
  pub goal : String
  pub task_key : String
  pub output_contract : OutputContract
  pub dependency_ids : List String
  pub input_refs : List String
  pub tool_permissions : List String
  pub metadata : Dict String Value
  pub owner : Option String
  pub budget : ℕ
  pub runtime_budget : Dict String (Option ℕ)
  pub status : NodeStatus
  pub result : Option (Dict String Value)
  pub target_session_id : Option Value
  pub run_id : Option String

-- the payload of `child.created`, as far as the aggregate reads it; `none` stands for a key that is
-- absent
pub record ChildCreated : Type 0 where
  pub task_key : String
  pub parent_session_id : String
  pub role : String
  pub goal : String
  pub input_refs : Option (List String)
  pub output_contract : OutputContract
  pub dependency_ids : Option (List String)
  pub tool_permissions : Option (List String)
  pub budget : Option ℕ
  pub runtime_budget : Option (Dict String (Option ℕ))
  pub target_session_id : Option Value
  pub metadata : Option (Dict String Value)

-- An event's type with its payload; `other` is any type that the aggregate passes over.
pub data CollaborationEvent : Type 0 where
  session_created : (goal : String) → CollaborationEvent
  child_created : ChildCreated → CollaborationEvent
  dependency_changed : (dependency_ids : List String) → CollaborationEvent
  run_requested : (run_id : String) → CollaborationEvent
  child_delegated : (owner : String) → CollaborationEvent
  session_handed_off : (owner : String) → CollaborationEvent
  run_started : CollaborationEvent
  child_result_published : (result : Dict String Value) → CollaborationEvent
  review_completed : (review : Dict String Value) → CollaborationEvent
  join_completed : (child_session_ids : List String) → CollaborationEvent
  run_cancelled run_failed other : CollaborationEvent
