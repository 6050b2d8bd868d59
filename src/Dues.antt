-- ===== src/Dues.antt =====
-- Receivables and payables: src/receivables-payables/receivables-payables.service.ts.
pub mod Defs
pub mod Requests
pub mod Rounds
pub mod Fifo
pub mod Soundness
pub mod Outstanding
pub mod Lookup
pub mod Paying
pub mod Lowering
pub mod Totals
pub mod Applied
pub mod Remaining
pub mod Aging
pub mod Buckets
pub mod AgingTotals
mod Tests
