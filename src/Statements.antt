-- ===== src/Statements.antt =====
-- What is read off the ledger: src/accounts/account-balance.service.ts.
pub mod Defs
pub mod Pages
pub mod Closing
pub mod Reconcile
pub mod Rounds
pub mod Repairs
pub mod Summary
pub mod InOut
pub mod Fallen
mod Tests
