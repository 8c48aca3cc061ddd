-- ===== src/Search.antt =====
-- Hybrid code search (src/scs/indexing/search.py).
mod Scores
mod Fusion
mod Service
mod Response
mod Hybrid
mod Scored
mod Pool
mod Ranked
mod Retrieval
mod Answers
mod Fallback
mod Tests
