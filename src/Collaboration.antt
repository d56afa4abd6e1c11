-- ===== src/Collaboration.antt =====
-- The rules of collaboration: domain/collaboration.py.
pub mod Graph
pub mod Types
pub mod Nodes
pub mod Aggregate
pub mod Events
pub mod Refresh
pub mod Dependencies
pub mod Measures
pub mod Depth
pub mod Admitted
pub mod Admission
pub mod Replay
mod Tests
