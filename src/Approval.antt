-- ===== src/Approval.antt =====
-- domain/approval.py: requests for approval, votes on them, and their rebuilding from events.
pub mod Aggregate
pub mod Quorum
pub mod Events
mod Tests
