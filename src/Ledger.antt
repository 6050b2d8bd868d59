-- ===== src/Ledger.antt =====
-- The ledger: src/accounts/account-balance.service.ts and src/transactions/transactions.service.ts.
pub mod Balance
pub mod Posting
pub mod Voiding
pub mod Inversion
pub mod Settling
pub mod Deltas
pub mod Consistency
pub mod Keys
pub mod Later
pub mod Standing
pub mod Once
pub mod Invariant
pub mod Preserving
pub mod Undo
pub mod Finality
mod Tests
