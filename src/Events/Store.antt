-- ===== src/Events/Store.antt =====
-- InMemoryEventStore of infrastructure/persistence/memory_event_store.py: its streams, commands and
-- outbox, and `append`. CommandContext is that of contracts/commands.py, AppendResult that of
-- session/ports.py. A command's result is its `_request_fingerprint` and the rest. `append` holds
-- the store's lock, so it is one step.
use aura_claw.Prelude.{
  ℕ, ◌+◌, String, ◌<>◌, Bool, true, false, Option, none, some, List, [], ◌∷◌, ◌++◌, if◌then◌else◌,
  ◌==◌, contains, option_eq, pair_eq, triple_eq, string_eq, nat_eq, length, select, Error, Result,
  ok, err,
}
use aura_claw.Prelude.Dict
use aura_claw.Prelude.Dict.{
  Dict, get-put, get-remove, get-put_self, get-remove_self, put-put_self, dict_laws,
}
use aura_claw.Prelude.Text.{is_truthy}
use aura_claw.Contracts.{Value, Actor, NewEvent, CanonicalEvent}

pub record CommandContext : Type 0 where
  pub command_id : String
  pub tenant_id : String
  pub actor : Actor
  pub correlation_id : String
  pub expected_version : ℕ
  pub operation : String
  pub causation_id : Option String
  pub dept_id : Option String

pub record CommandResult : Type 0 where
  pub request_fingerprint : Option String
  pub body : Dict String Value

pub data Destination : Type 0 where
  projection delivery control : Destination

abbrev pub is_projection : Destination → Bool
is_projection projection = true
is_projection _ = false

pub record OutboxRecord (P : Type 0) : Type 0 where
  pub outbox_id : ℕ
  pub event_id : String
  pub destination : Destination
  pub event : CanonicalEvent P
  pub published : Bool
  pub publish_attempt : ℕ
  pub claimed_by : Option String
  pub claim_token : Option String
  pub claim_expires_at : Option ℕ
  pub poisoned : Bool

pub record AppendResult (P : Type 0) : Type 0 where
  pub events : List (CanonicalEvent P)
  pub command_result : CommandResult
  pub deduplicated : Bool

-- `_snapshots` is left out: no method here touches it.
pub record EventStore (P : Type 0) : Type 0 where
  pub streams : Dict (String × String) (List (CanonicalEvent P))
  pub commands : Dict (String × String × String) CommandResult
  pub outbox : List (OutboxRecord P)

abbrev pub delivery_trigger_events : List String
delivery_trigger_events =
    "approval.requested" ∷ "approval.delegated" ∷ "approval.escalated" ∷ "approval.expired"
    ∷ "approval.cancelled" ∷ "run.completed" ∷ "run.failed" ∷ "run.cancelled"
    ∷ "child.result_published" ∷ []

abbrev pub control_trigger_events : List String
control_trigger_events =
    "skill.invocation.requested" ∷ "run.requested" ∷ "session.resumed" ∷ "approval.approved"
    ∷ "approval.rejected" ∷ "approval.expired" ∷ "approval.cancelled" ∷ "dependency.changed"
    ∷ "child.result_published" ∷ "review.completed" ∷ "run.failed" ∷ "run.cancelled" ∷ []

module _ {P : Type 0} where
  abbrev pub empty_store : EventStore P
  empty_store = record { streams = []; commands = []; outbox = [] }

  -- `self._streams.get(key, [])`
  unfoldable pub stream : String × String → EventStore P → List (CanonicalEvent P)
  stream key s = elim (Dict.get key s.streams) [ none ↦ [] | some events ↦ events ]

  unfoldable pub enlist :
      Destination → CanonicalEvent P → List (OutboxRecord P) → List (OutboxRecord P)
  enlist destination event outbox =
      outbox
      ++ record {
        outbox_id = length outbox + 1;
        event_id = event.event_id;
        destination = destination;
        event = event;
        published = false;
        publish_attempt = 0;
        claimed_by = none;
        claim_token = none;
        claim_expires_at = none;
        poisoned = false;
      }
        ∷ []

  -- what `append` adds to the outbox for one event
  unfoldable pub append_outbox_records :
      List (OutboxRecord P) → CanonicalEvent P → List (OutboxRecord P)
  unfolding enlist
  append_outbox_records outbox event =
      let projected = enlist projection event outbox in
      let delivered =
        if contains delivery_trigger_events event.type
        then enlist delivery event projected
        else projected in
      if contains control_trigger_events event.type
      then enlist control event delivered
      else delivered

  unfoldable pub append_all_records :
      List (OutboxRecord P) → List (CanonicalEvent P) → List (OutboxRecord P)
  append_all_records outbox [] = outbox
  append_all_records outbox (event ∷ rest) =
      append_all_records (append_outbox_records outbox event) rest

  -- the tenant's events of the root Session
  unfoldable pub root_events :
      (tenant_id root_session_id : String)
      → Dict (String × String) (List (CanonicalEvent P))
      → List (CanonicalEvent P)
  root_events tenant_id root_session_id [] = []
  root_events tenant_id root_session_id (((tenant, _), rows) ∷ rest) =
      let more = root_events tenant_id root_session_id rest in
      if tenant == tenant_id
      then select (λ e. e.root_session_id == root_session_id) rows ++ more
      else more

  -- `hex i` is the `uuid4().hex` and `at i` the clock's reading of the event `i`. `govern` of
  -- domain/runtime_budget.py is a parameter.
  module _ (govern : List (CanonicalEvent P) → List (NewEvent P) → Result (List (NewEvent P)))
      (hex : ℕ → String) (at : ℕ → ℕ) (root_session_id session_id : String) (run_id : Option String)
      (context : CommandContext) where
    -- `causation_id or command_id`
    abbrev caused_by : Option String → String
    caused_by none = context.command_id
    caused_by (some id) = if is_truthy id then id else context.command_id

    stored : (offset : ℕ) → NewEvent P → CanonicalEvent P
    stored offset event = record {
      event_id = "evt_" <> hex offset;
      tenant_id = context.tenant_id;
      root_session_id = root_session_id;
      session_id = session_id;
      run_id = run_id;
      aggregate_version = context.expected_version + offset;
      type = event.type;
      occurred_at = at offset;
      actor = context.actor;
      correlation_id = context.correlation_id;
      causation_id = caused_by context.causation_id;
      visibility = event.visibility;
      schema_version = 1;
      payload = event.payload;
    }

    unfoldable pub canonical : (offset : ℕ) → List (NewEvent P) → List (CanonicalEvent P)
    unfolding stored
    canonical offset [] = []
    canonical offset (event ∷ rest) = stored offset event ∷ canonical (offset + 1) rest

    abbrev pub command_key : String × String × String
    command_key = (context.tenant_id, context.operation, context.command_id)

    abbrev pub stream_key : String × String
    stream_key = (context.tenant_id, session_id)

    -- the writes of `append`, unless the governance has refused
    unfoldable pub commit :
        CommandResult
        → EventStore P
        → Result (List (NewEvent P))
        → EventStore P × Result (AppendResult P)
    unfolding canonical stream append_all_records
    commit result s (err e) = (s, err e)
    commit result s (ok events) =
        let events' = canonical 1 events in
        (
          record s {
            streams = Dict.put stream_key (stream stream_key s ++ events') s.streams;
            commands = Dict.put command_key result s.commands;
            outbox = append_all_records s.outbox events';
          },
          ok (record { events = events'; command_result = result; deduplicated = false }),
        )

    -- the store after `self._streams.setdefault(stream_key, [])`
    unfoldable pub opened : EventStore P → EventStore P
    unfolding stream
    opened s = record s { streams = Dict.put stream_key (stream stream_key s) s.streams }

    unfoldable pub append :
        List (NewEvent P)
        → (command_result : CommandResult) → EventStore P
        → EventStore P × Result (AppendResult P)
    unfolding opened commit root_events
    append events result s = elim (Dict.get command_key s.commands) [
      | some previous ↦
          if result.request_fingerprint == previous.request_fingerprint
          then (s, ok (record { events = []; command_result = previous; deduplicated = true }))
          else (s, err Error.version_conflict)
      | none ↦
          if length (stream stream_key s) == context.expected_version
          then commit result (opened s)
              (govern (root_events context.tenant_id root_session_id (opened s).streams) events)
          else (opened s, err Error.version_conflict)
    ]
