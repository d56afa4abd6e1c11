-- ===== src/Policy.antt =====
-- The policy of the product: policy/governance.py, with PolicyDecision of contracts/tools.py.
pub mod Json
pub mod Governance
pub mod Limits
pub mod Permissions
mod Tests
