-- ===== src/Jobs.antt =====
-- The durable ingestion queue, src/scs/indexing/jobs.py.
pub mod Record
pub mod Payload
pub mod Manifest
pub mod Rows
pub mod Queue
pub mod Sound
pub mod Steps
pub mod Laws
mod Tests
mod ManifestTests
