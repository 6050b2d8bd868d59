-- ===== src/Shelves.antt =====
-- The shelves that books and skills share: src/common/shelf.ts.
pub mod Settle
pub mod Laws
pub mod Retry
mod Tests
