-- ===== src/Jobs/Laws.antt =====
-- What the methods of src/scs/indexing/jobs.py do, beyond the invariant.
pub mod Merging
pub mod Fetching
pub mod Coalescing
pub mod Claiming
pub mod Settling
pub mod Restoring
pub mod Cancelling
pub mod CancelOne
pub mod Manifests
pub mod Checkpoints
pub mod Stored
pub mod Acknowledging
