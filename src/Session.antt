-- ===== src/Session.antt =====
-- domain/session.py: the aggregate of one Session, rebuilt from its events.
pub mod Types
pub mod Aggregate
pub mod Commands
pub mod Snapshot
mod Raises
pub mod Rebuild
pub mod Lifecycle
mod Tests
