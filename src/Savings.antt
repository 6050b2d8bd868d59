-- ===== src/Savings.antt =====
-- Savings goals: src/savings-goals/savings-goals.service.ts.
pub mod Rows
pub mod Goals
pub mod Money
pub mod Saved
pub mod Paying
pub mod Withdrawing
pub mod Solvent
mod Tests
