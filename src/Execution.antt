-- ===== src/Execution.antt =====
-- execution/: the payload guard and the plan runner.
pub mod Payload
pub mod Collector
pub mod Runner
