-- ===== src/Payments.antt =====
-- Payments of subscriptions: src/payments/payments.service.ts.
pub mod Rows
pub mod Defs
pub mod World
pub mod Commits
pub mod Orderly
pub mod Racing
pub mod Refunding
pub mod Runs
pub mod Once
mod Tests
