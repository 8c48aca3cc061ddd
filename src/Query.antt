-- ===== src/Query.antt =====
-- The orchestrated code query (src/scs/orchestration/query.py, src/scs/orchestration/decision.py).
mod Decision
mod Request
mod Evidence
mod Stages
mod Projections
mod Playbooks
mod Execution
mod Orchestrator
mod Runs
mod Permitted
mod Bounded
mod Honest
mod Tests
