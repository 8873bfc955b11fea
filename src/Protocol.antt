-- ===== src/Protocol.antt =====
-- src/agentic_local_app/protocol: the expected messages, the checks of an inbound one, and the records of a plan.
pub mod Cycles
pub mod Expectation
pub mod Inbound
pub mod Records
