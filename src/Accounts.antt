-- ===== src/Accounts.antt =====
-- The chart of accounts: src/accounts/accounts.service.ts.
pub mod Defs
pub mod Changes
pub mod Pickers
pub mod Walk
pub mod Tree
pub mod Moves
pub mod Status
pub mod Stranding
mod Tests
