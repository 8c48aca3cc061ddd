-- ===== src/Sql.antt =====
-- Tables as lists of rows, and lemmas on their statements.
mod Statements
pub mod Counting
pub mod Selecting
pub mod Deleting
pub mod Finding
unfoldable pub use Statements.*
