-- ===== src/Lib.antt =====
-- AuraClaw runs agents for many tenants. A Session is an aggregate of events; its runs are queued,
-- leased and assigned to runtimes by the control plane; actions that need a human wait for an
-- approval; results are delivered to sinks. This library models those parts as functions on
-- immutable states and proves what each of them promises.
--
-- Prelude: names of the libraries, Boolean tests, dicts, sorting, texts, and exceptions as results.
--
-- Contracts: src/auraclaw/contracts/events.py and the Visibility of contracts/state.py.
--
-- Session: src/auraclaw/domain/session.py (SessionAggregate), with contracts/state.py and
-- contracts/approval_mode.py. Types holds the statuses and the events with what is read of their
-- payloads; Aggregate the fields, `apply`, `_raise`, `from_events` and `replay`; Commands one
-- function for each command, which returns the new Session or the error that is raised; Snapshot
-- the stored document. Raises, Rebuild, Lifecycle and Snapshot.Roundtrip hold the proofs.
--
-- Approval: src/auraclaw/domain/approval.py (ApprovalAggregate) and ApprovalRecord of
-- contracts/tools.py. Aggregate holds `request`, `vote`, `respond` and `validate`; Events
-- `from_events`; Quorum and Events.Rebuild the proofs.
--
-- Delivery: src/auraclaw/infrastructure/delivery/memory_job_store.py (InMemoryDeliveryJobStore),
-- infrastructure/delivery/common.py, contracts/delivery.py, and the records of delivery/ports.py.
-- Store holds the jobs, their claims and attempts; Claim the loop of `claim_due`; Circuit the
-- circuit breaker of a sink; Store.Claims, Claim.Oldest, Claim.Fairness, Circuit.Breaker and Validity
-- the proofs.
-- The hash and the date format of a job are parameters, of which nothing is assumed.
--
-- Delivery.Worker: src/auraclaw/delivery/worker.py (ResultDeliveryWorker), over the job store and the
-- event store. A task is a function on what the tasks share; at each await a parameter says what the
-- other tasks have done meanwhile and another whether the await raises, so a theorem holds for every
-- interleaving. Status is `_write_status`, Deliver `_deliver` and `redeliver`, Ingest `ingest_once`;
-- Delivery.LocalCircuit is its CircuitBreaker. The adapters of the sinks are parameters. Runs, Quiet,
-- OneCall, Calls, Abandoned and Ingested hold the proofs.
--
-- Control: src/auraclaw/infrastructure/persistence/memory_control_store.py
-- (InMemoryControlStateStore) and the records of control/ports.py. Store holds the state; Queue,
-- Leases, Assignments, Wakes and Recovery the operations; Later says how a state may go on, and
-- Fencing, Waking, Exclusion and Recovered hold the proofs. Steps.Step has a constructor for every
-- operation that changes state, and Steps is any sequence of them.
--
-- Events: src/auraclaw/infrastructure/persistence/memory_event_store.py (InMemoryEventStore), with
-- CommandContext of contracts/commands.py, AppendResult and StreamAppend of session/ports.py. Store
-- holds the state and `append`, Batch `append_batch`; Relay what a relay does with the outbox; Append,
-- Governed, Batch.Streams, Batch.Versions, Outbox and Barrier the proofs. The governance of budgets that both call is
-- a parameter, of which nothing is assumed; Budget.Appends puts `govern` there.
--
-- Collaboration: src/auraclaw/domain/collaboration.py (CollaborationAggregate) and
-- contracts/collaboration.py, with the payload of child.created that session/collaboration_service.py
-- writes. Types holds the records and the events; Graph the depth-first search of
-- `validate_dependencies`; Nodes what is read from the nodes and `_refresh_runnable`; Aggregate the
-- validation and staging of a Child and `require_joinable`; Events `apply` and `from_events`.
-- Graph.Search, Refresh, Measures, Depth, Dependencies, Admitted, Admission and Replay hold the proofs.
--
-- Budget: src/auraclaw/domain/runtime_budget.py. Usage holds `usage` and `run_budgets`, Allocation and
-- Govern the two halves of `govern`; Tallies, Charges, Reservations, Sums, Trees and Appends the
-- proofs.
--
-- Policy: src/auraclaw/policy/governance.py (ProductionPolicy). Json holds Python's operations on JSON
-- values, Governance `__post_init__` and `govern`; Limits and Permissions the proofs. The texts of
-- lists and dicts, and the reading of a number from a text, are parameters, of which nothing is
-- assumed.
--
-- How the code is translated. A method that holds its store's lock is one step: a function from the
-- state to the new state and its answer. Readings of the clock are arguments, in the order in which
-- the source takes them, and so are fresh random tokens; instants and spans are numbers of
-- microseconds. A dict is the list of its entries in order of insertion, a set the list of its
-- members. A raised exception is the error of a Result, without its message. Payloads are typed by
-- the kind of their event, with the keys that are read or written. Loops are recursion on the list
-- they go through, except two of Collaboration, which take fuel and give the error `endless` if it
-- runs out: the search, with one more than the Sessions of the graph, for every call puts a Session
-- of the graph on the path or ends; and `depth`, with the number of nodes. Graph.Search and Admitted
-- show that this is enough.
--
-- Not modelled: `select_runtime` and `list_waiting_assignments` of the control store, which change
-- nothing; the snapshots and the loads of the event store; the digests of approvals; `run_once`, the
-- slots of tenants and the heartbeat's loop of the delivery worker, whose metrics are left out with
-- the awaits that write them; the Postgres stores, the network, the model and tool gateways, the
-- projections and the HTTP interfaces. The source mutates an assignment in place; here it is a value,
-- so what the caller of `assign` sees of a later change is not modelled. Numbers that the source
-- declares as int or float are natural ones, so that a negative number, a fraction or NaN does not
-- occur, neither in the budgets and costs of Collaboration and Control nor among the numbers that
-- Policy reads. Of `timedelta` and `datetime` only the retry delay of the delivery worker is bounded.
-- Of the payload of child.created, a key that is read with a default may be absent; of a budget
-- reservation, the keys that are not read are one text that is only compared. The reachable stores of
-- Delivery.Validity leave out a call of `mark_reconciling` with a job that names no claim: the code
-- accepts such a call for a job that is finished.
mod Prelude
pub mod Contracts
pub mod Delivery
pub mod Session
pub mod Approval
pub mod Control
pub mod Events
pub mod Collaboration
pub mod Budget
pub mod Policy
