-- ===== src/Control.antt =====
-- Runtime control: control/ports.py and infrastructure/persistence/memory_control_store.py.
pub mod Store
pub mod Queue
pub mod Leases
pub mod Assignments
pub mod Wakes
pub mod Recovery
pub mod Later
pub mod Steps
pub mod Fencing
pub mod Waking
pub mod Exclusion
pub mod Recovered
mod Tests
