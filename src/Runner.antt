-- ===== src/Runner.antt =====
-- The worker of the job queue (src/scs/indexing/runner.py).
pub mod Round
pub mod Ending
pub mod Resume
pub mod Retrying
mod Tests
