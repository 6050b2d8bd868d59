-- ===== src/QuickEntries.antt =====
-- Income, expense and transfer: src/quick-entries/quick-entries.service.ts.
pub mod Defs
pub mod Shifts
pub mod Effects
pub mod Pickable
pub mod Spending
mod Tests
