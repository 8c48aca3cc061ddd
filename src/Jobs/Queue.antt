-- ===== src/Jobs/Queue.antt =====
-- The methods of `IngestionJobStore` (src/scs/indexing/jobs.py), by what they are for.
pub mod Enqueue
pub mod Claim
pub mod Progress
pub mod Finish
pub mod Cancel
pub mod Reclaim
pub mod Read
