-- ===== src/Resilience.antt =====
-- resilience/: the circuit breaker, the retry controller and the failure manager.
pub mod Breaker
pub mod Retry
pub mod Failure
