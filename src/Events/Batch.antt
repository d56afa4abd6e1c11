-- ===== src/Events/Batch.antt =====
-- `append_batch` of InMemoryEventStore in infrastructure/persistence/memory_event_store.py, with
-- StreamAppend of session/ports.py. It holds the store's lock, so it is one step.
pub mod Streams
pub mod Versions
use aura_claw.Prelude.{
  ℕ, String, Bool, true, false, Option, none, some, List, [], ◌∷◌, ◌++◌, ◌&&◌, not, if◌then◌else◌,
  ◌==◌, contains, all, option_eq, pair_eq, triple_eq, string_eq, nat_eq, length, Error, Result, ok,
  err, ◌>>=◌,
}
use aura_claw.Prelude.Dict
use aura_claw.Prelude.Dict.{Dict}
use aura_claw.Contracts.{NewEvent, CanonicalEvent}
use aura_claw.Events.Store.{
  CommandContext, CommandResult, AppendResult, EventStore, stream, append_all_records, root_events,
  canonical,
}

pub record StreamAppend (P : Type 0) : Type 0 where
  pub session_id : String
  pub run_id : Option String
  pub expected_version : ℕ
  pub events : List (NewEvent P)

-- `len(set(session_ids)) == len(session_ids)`: none stands twice
unfoldable pub unique : List String → Bool
unique [] = true
unique (id ∷ ids) = not (contains ids id) && unique ids

-- `by_stream`, in the order of the appends
abbrev pub ByStream : Type 0 → Type 0
ByStream P = List (String × List (CanonicalEvent P))

module _ {P : Type 0} where
  abbrev pub session_ids : List (StreamAppend P) → List String
  session_ids [] = []
  session_ids (item ∷ rest) = item.session_id ∷ session_ids rest

  -- the events of `by_stream` in their order
  unfoldable pub all_events : ByStream P → List (CanonicalEvent P)
  all_events [] = []
  all_events ((_, events) ∷ rest) = events ++ all_events rest

  unfoldable pub extend : (tenant_id : String) → ByStream P → EventStore P → EventStore P
  extend tenant_id [] s = s
  extend tenant_id ((id, events) ∷ rest) s = extend tenant_id rest (record s {
    streams = Dict.put (tenant_id, id) (stream (tenant_id, id) s ++ events) s.streams;
  })

  -- whether the stream has the version that the append expects
  unfoldable pub is_current : (tenant_id : String) → EventStore P → StreamAppend P → Bool
  is_current tenant_id s item =
      length (stream (tenant_id, item.session_id) s) == item.expected_version

  -- `hex id i` is the `uuid4().hex` and `at id i` the clock's reading of the event `i` of the
  -- Session `id`. `govern` of domain/runtime_budget.py is a parameter.
  module _
      (govern : (session_id root_session_id : String) (run_id : Option String)
        → List (CanonicalEvent P)
        → List (NewEvent P)
        → Result (List (NewEvent P)))
      (hex : String → ℕ → String) (at : String → ℕ → ℕ) (root_session_id : String)
      (context : CommandContext) where
    -- the stored events of one append
    unfoldable pub stored_events : StreamAppend P → List (NewEvent P) → List (CanonicalEvent P)
    stored_events item governed =
        canonical (govern item.session_id root_session_id item.run_id) (hex item.session_id)
          (at item.session_id) root_session_id item.session_id item.run_id
          (record context { expected_version = item.expected_version }) 1 governed

    unfoldable pub prepare : List (CanonicalEvent P) → List (StreamAppend P) → Result (ByStream P)
    prepare past [] = ok []
    prepare past (item ∷ rest) = do
      governed ← govern item.session_id root_session_id item.run_id past item.events
      more ← prepare (past ++ stored_events item governed) rest
      ok ((item.session_id, stored_events item governed) ∷ more)

    -- the writes, once every append has been governed
    unfoldable pub commit_batch :
        CommandResult → EventStore P → Result (ByStream P) → EventStore P × Result (AppendResult P)
    commit_batch result s (err e) = (s, err e)
    commit_batch result s (ok by_stream) = (
      record (extend context.tenant_id by_stream s) {
        commands =
            Dict.put (context.tenant_id, context.operation, context.command_id) result s.commands;
        outbox = append_all_records s.outbox (all_events by_stream);
      },
      ok (record { events = all_events by_stream; command_result = result; deduplicated = false }),
    )

    -- from the store's lock on
    unfoldable pub append_locked :
        List (StreamAppend P)
        → (command_result : CommandResult) → EventStore P
        → EventStore P × Result (AppendResult P)
    append_locked appends result s =
        elim (Dict.get (context.tenant_id, context.operation, context.command_id) s.commands) [
          | some previous ↦
              if result.request_fingerprint == previous.request_fingerprint
              then (s, ok (record { events = []; command_result = previous; deduplicated = true }))
              else (s, err Error.version_conflict)
          | none ↦
              if all (is_current context.tenant_id s) appends
              then commit_batch result s
                  (prepare (root_events context.tenant_id root_session_id s.streams) appends)
              else (s, err Error.version_conflict)
        ]

    unfoldable pub append_batch :
        List (StreamAppend P)
        → (command_result : CommandResult) → EventStore P
        → EventStore P × Result (AppendResult P)
    append_batch [] result s = (s, err Error.value_error)
    append_batch (item ∷ rest) result s =
        if unique (session_ids (item ∷ rest))
        then append_locked (item ∷ rest) result s
        else (s, err Error.value_error)
