-- ===== src/Jobs/Sound.antt =====
-- The invariant of the queue's table, and that every method of src/scs/indexing/jobs.py keeps it.
mod Defs
pub mod Reading
mod Update
mod Bulk
mod Settle
mod Admit
mod Reclaimed
mod Recover
pub use Defs.*
pub use Bulk.*
pub use Settle.*
pub use Admit.*
pub use Recover.*
