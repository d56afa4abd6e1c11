-- ===== src/Budget.antt =====
-- Budgets of runs and of task trees: domain/runtime_budget.py.
pub mod Types
pub mod Usage
pub mod Allocation
pub mod Govern
pub mod Tallies
pub mod Charges
pub mod Reservations
pub mod Appends
pub mod Sums
pub mod Trees
mod Tests
