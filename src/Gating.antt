-- ===== src/Gating.antt =====
-- The admission of graph reads and deletes (src/scs/graph/gating.py).
pub mod Gate
pub mod Sound
pub mod Moves
pub mod Safety
mod Tests
