-- ===== src/Events.antt =====
-- The event store: infrastructure/persistence/memory_event_store.py.
pub mod Store
pub mod Append
pub mod Batch
pub mod Governed
pub mod Outbox
pub mod Relay
pub mod Barrier
mod Tests
