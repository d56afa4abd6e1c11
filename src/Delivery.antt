-- ===== src/Delivery.antt =====
-- Result delivery: contracts/delivery.py and the job store of
-- infrastructure/delivery/memory_job_store.py.
pub mod Types
pub mod Store
pub mod Claim
pub mod Circuit
pub mod Validity
pub mod LocalCircuit
pub mod Worker
mod Tests
