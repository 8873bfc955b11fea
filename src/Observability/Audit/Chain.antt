-- ===== src/Observability/Audit/Chain.antt =====
-- What an intact chain of audit events is.
pub mod Pages
pub mod Append
pub mod Complete
pub mod Roundtrip
use agentic_local_app.Base.{ℕ, ◌+◌, ◌<◌, ◌≡◌, List, [], ◌∷◌}
use agentic_local_app.Observability.Audit.{HashInput, AuditEvent}

-- Sequences are consecutive, every event names the hash of the one before, and carries the hash of
-- what it records.
abbrev pub IsChain : (ℕ → HashInput → ℕ) → ℕ → ℕ → List AuditEvent → Type 0
IsChain chain_hash n previous [] = Unit
IsChain chain_hash n previous (e ∷ es) =
    (e.hashed.sequence ≡ n)
    × (e.hashed.previous_event_hash ≡ previous)
    × (e.event_hash ≡ chain_hash previous e.hashed)
    × IsChain chain_hash (n + 1) e.event_hash es

-- Sequences rise, as the store demands of every append.
abbrev pub Ascends : ℕ → List AuditEvent → Type 0
Ascends low [] = Unit
Ascends low (e ∷ es) = (low < e.hashed.sequence) × Ascends e.hashed.sequence es
