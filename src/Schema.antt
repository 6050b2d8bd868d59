-- ===== src/Schema.antt =====
-- The rows of the ledger's tables and what a request carries (prisma/schema.prisma, the DTOs
-- under src/transactions/dto), and the effect of a database transaction.
--
-- A row's id, a key or another text that is only compared is a number, and 0 stands for the empty
-- text. A time is a count of milliseconds since 1970. Columns that nothing here reads are left out.
mod Rows
mod Effect
mod Tables
pub use Rows.*
pub use Effect.*
unfoldable pub use Tables.*
