-- ===== src/Execution/Runner/Safety.antt =====
-- Proofs about src/agentic_local_app/execution/plan_runner.py.
pub mod Changes
pub mod Ready
pub mod Outcomes
pub mod Stops
