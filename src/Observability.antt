-- ===== src/Observability.antt =====
-- src/agentic_local_app/observability: the audit log.
pub mod Audit
