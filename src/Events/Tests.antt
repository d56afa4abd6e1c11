-- ===== src/Events/Tests.antt =====
-- Appends, a batch, claims of the outbox, a command repeated, and one from a wrong version.
use aura_claw.Prelude.{
  ℕ, String, ◌≡◌, refl, true, false, Option, none, some, List, [], ◌∷◌, if◌then◌else◌, ◌==◌,
  option_eq, pair_eq, triple_eq, string_eq, nat_eq, Error, Result, ok, err,
}
use aura_claw.Prelude.Dict
use aura_claw.Prelude.Dict.{
  Dict, get-put, get-remove, get-put_self, get-remove_self, put-put_self, dict_laws,
}
use aura_claw.Contracts.{NewEvent, CanonicalEvent, Visibility}
use aura_claw.Events.Store.{
  CommandContext, CommandResult, AppendResult, EventStore, empty_store, stream, canonical, append,
  append_outbox_records,
}
use aura_claw.Events.Batch.{
  StreamAppend, unique, is_current, prepare, stored_events, commit_batch, all_events, extend,
  append_locked, append_batch,
}
use aura_claw.Events.Store.{append_all_records}
use aura_claw.Events.Batch.Versions.{AllOrNothing, append_batch_atomic}
use aura_claw.Events.Append.{Numbered, append-Numbered, append_once}
use aura_claw.Events.Store.{Destination}
use aura_claw.Events.Relay.{claim_outbox_once}
use aura_claw.Events.Barrier.{IsFirst, claim_outbox-IsFirst}
use aura_claw.Prelude.{◌≤◌, max, All, length}
use aura_claw.Events.Outbox.{Grown, append-Grown}

abbrev govern : List (CanonicalEvent ℕ) → List (NewEvent ℕ) → Result (List (NewEvent ℕ))
govern past events = ok events

abbrev hexes : ℕ → String
hexes i = "1"

abbrev instants : ℕ → ℕ
instants i = i

abbrev context_at : ℕ → CommandContext
context_at version = record {
  command_id = "cmd_1";
  tenant_id = "t";
  actor = record { kind = "user"; id = "ann" };
  correlation_id = "c";
  expected_version = version;
  operation = "append";
  causation_id = none;
  dept_id = none;
}

abbrev events : List (NewEvent ℕ)
events =
    record { type = "session.created"; payload = 1; visibility = Visibility.user }
    ∷ record { type = "run.requested"; payload = 2; visibility = Visibility.user }
    ∷ []

abbrev result_of : String → CommandResult
result_of fingerprint = record { request_fingerprint = some fingerprint; body = [] }

abbrev run : ℕ → CommandResult → EventStore ℕ → EventStore ℕ × Result (AppendResult ℕ)
run version result s =
    append govern hexes instants "s" "s" none (context_at version) events result s

abbrev answered : AppendResult ℕ
answered = record {
  events = canonical govern hexes instants "s" "s" none (context_at 0) 1 events;
  command_result = result_of "f";
  deduplicated = false;
}

appends : (run 0 (result_of "f") empty_store).1 ≡ ok answered
unfolding append Dict.get Dict.put stream nat_eq string_eq pair_eq triple_eq
appends = refl

wrong_version : (run 3 (result_of "f") empty_store).1 ≡ err Error.version_conflict
unfolding append Dict.get Dict.put stream nat_eq string_eq pair_eq triple_eq
wrong_version = refl

nothing_yet : (key : String × String) → Numbered 0 (stream key (empty_store {P = ℕ}))
unfolding stream Dict.get
nothing_yet key = tt

append-Numbered_example : Numbered 0 (stream ("t", "s") (run 0 (result_of "f") empty_store).0)
append-Numbered_example =
    append-Numbered govern hexes instants "s" "s" none (context_at 0) events (result_of "f")
      empty_store nothing_yet ("t", "s")

append_once_example :
    let t = (run 0 (result_of "f") empty_store).0 in
    run 7 (result_of "g") t ≡ (
      if (result_of "g").request_fingerprint == (result_of "f").request_fingerprint
      then (t, ok (record { events = []; command_result = result_of "f"; deduplicated = true }))
      else (t, err Error.version_conflict))
append_once_example =
    append_once govern hexes instants "s" "s" none (context_at 0) events (result_of "f") empty_store
      appends hexes instants "s" "s" none (context_at 7) (refl, refl, refl) events (result_of "g")

append-Grown_example :
    Grown govern hexes instants "s" "s" none
      (context_at 0)
      empty_store
      answered.events
      (run 0 (result_of "f") empty_store).0
append-Grown_example =
    append-Grown govern hexes instants "s" "s" none (context_at 0) events (result_of "f")
      empty_store answered appends

claim_outbox-IsFirst_example :
    let outbox = (run 0 (result_of "f") empty_store).0.outbox in
    let claims = (claim_outbox_once Destination.projection "relay" 30 5 hexes 2 outbox).1 in
    (length claims ≤ max 2 1) × All (IsFirst Destination.projection 5 outbox) claims
claim_outbox-IsFirst_example =
    claim_outbox-IsFirst Destination.projection "relay" 30 5 hexes 2
      (run 0 (result_of "f") empty_store).0.outbox

-- the second event of the Session waits for the first
claims_one :
    length
      (claim_outbox_once Destination.projection "relay" 30 5 hexes 2
        (run 0 (result_of "f") empty_store).0.outbox).1
    ≡ 1
unfolding claim_outbox_once append append_outbox_records Dict.get Dict.put stream nat_eq string_eq
    pair_eq triple_eq
claims_one = refl

abbrev govern_all :
    (session_id root_session_id : String) (run_id : Option String)
    → List (CanonicalEvent ℕ)
    → List (NewEvent ℕ)
    → Result (List (NewEvent ℕ))
govern_all session_id root_session_id run_id = govern

abbrev batch : List (StreamAppend ℕ)
batch =
    record { session_id = "a"; run_id = none; expected_version = 0; events = events }
    ∷ record { session_id = "b"; run_id = none; expected_version = 0; events = events }
    ∷ []

abbrev run_batch : List (StreamAppend ℕ) → EventStore ℕ × Result (AppendResult ℕ)
run_batch appends =
    append_batch govern_all (λ id i. "1") (λ id i. i) "a" (context_at 0) appends (result_of "f")
      empty_store

batch_counts :
    (length (run_batch batch).0.outbox ≡ 6) × (length (stream ("t", "b") (run_batch batch).0) ≡ 2)
unfolding append_batch unique append_locked is_current prepare stored_events canonical commit_batch
    all_events extend stream append_all_records append_outbox_records Dict.get Dict.put nat_eq
    string_eq pair_eq triple_eq
batch_counts = (refl, refl)

append_batch_atomic_example :
    AllOrNothing govern_all
      (λ id i. "1")
      (λ id i. i)
      "a"
      (context_at 0)
      empty_store
      (run_batch batch)
    × ((key : String × String) → Numbered 0 (stream key (run_batch batch).0))
append_batch_atomic_example =
    append_batch_atomic govern_all (λ id i. "1") (λ id i. i) "a" (context_at 0) batch
      (result_of "f") empty_store nothing_yet
