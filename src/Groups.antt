-- ===== src/Groups.antt =====
-- Group expenses: src/group-expenses/group-expenses.service.ts.
pub mod Rows
pub mod Split
pub mod Settlement
pub mod Shares
pub mod Fair
pub mod Balances
pub mod Records
pub mod Links
pub mod Closing
pub mod Requests
mod Tests
