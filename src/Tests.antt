-- ===== src/Tests.antt =====
-- The theorems at concrete inputs, and runs of the definitions.
pub mod Domain
pub mod Resilience
pub mod Context
pub mod Persistence
pub mod Execution
pub mod Runner
pub mod Observability
pub mod Lifecycle
pub mod Protocol
pub mod Collector
