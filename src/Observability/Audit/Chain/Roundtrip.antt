-- ===== src/Observability/Audit/Chain/Roundtrip.antt =====
-- `handle` on any events, then `verify`, of src/agentic_local_app/observability/audit_log.py.
use agentic_local_app.Base.{
  ℕ, suc, ◌+◌, ◌<◌, ◌≡◌, ap, ◌∙◌, List, [], ◌∷◌, arith, ok, err, Result, length,
}
use agentic_local_app.Observability.Audit.{
  HashInput, AuditEvent, AuditStore, AuditLog, Event, AuditVerification, VerifyFault, chain_of,
  handle, verify, valid_after, genesis_hash,
}
use agentic_local_app.Observability.Audit.Chain.{IsChain, Ascends}
use agentic_local_app.Observability.Audit.Chain.Append.{IsLinked, handle-IsLinked}
use agentic_local_app.Observability.Audit.Chain.Pages.{Verified, verify-IsChain}

module _ (chain_hash : ℕ → HashInput → ℕ) where
  -- The events handled in turn, each with the identifier drawn for it; an error leaves the log that
  -- it leaves.
  unfoldable pub handle_all : List (Event × ℕ) → AuditLog → AuditLog
  handle_all [] l = l
  handle_all ((e, id) ∷ es) l = handle_all es (handle chain_hash e id l).0

  handle_all-IsLinked :
      (es : List (Event × ℕ)) (l : AuditLog)
      → IsLinked chain_hash l
      → IsLinked chain_hash (handle_all es l)
  unfolding handle_all
  handle_all-IsLinked [] l h = h
  handle_all-IsLinked ((e, id) ∷ es) l h =
      handle_all-IsLinked es (handle chain_hash e id l).0 (handle-IsLinked chain_hash l e id h)

  IsChain-Ascends :
      (es : List AuditEvent) (low n previous : ℕ)
      → low < n
      → IsChain chain_hash n previous es
      → Ascends low es
  IsChain-Ascends [] low n previous l c = tt
  IsChain-Ascends (e ∷ es) low n previous l c = (
    omega (arith, c.0),
    IsChain-Ascends es e.hashed.sequence (n + 1) e.event_hash (omega (arith, c.0)) c.3,
  )

  Verified-ok :
      (session k : ℕ) (s : AuditStore) (rest : List AuditEvent) (n previous : ℕ)
      (r : Result VerifyFault AuditVerification)
      → IsChain chain_hash n previous rest
      → Verified chain_hash session k s rest 0 n previous r
      → r ≡ ok (valid_after chain_hash (length rest))
  Verified-ok session k s rest n previous (err f) c v = absurd v
  Verified-ok session k s rest n previous (ok a) c ((there, back), (full, only)) =
      ap ok (full (back c) ∙ ap (valid_after chain_hash) (omega arith))

  -- After any events handled by a log whose chains were intact (a new one, for example), in any
  -- sessions, with whatever the store refuses, `verify` finds every session valid, with all of its
  -- events checked, for pages of any positive size.
  pub handle_all-verify :
      (es : List (Event × ℕ)) (l : AuditLog) (session k fuel : ℕ)
      → IsLinked chain_hash l
      → length (chain_of session (handle_all es l).store.audit) < fuel
      → verify chain_hash session (suc k) (handle_all es l).store fuel
        ≡ ok (valid_after chain_hash (length (chain_of session (handle_all es l).store.audit)))
  handle_all-verify es l session k fuel h enough =
      let s : AuditStore = (handle_all es l).store in
      let chain : List AuditEvent = chain_of session s.audit in
      let c : IsChain chain_hash 1 genesis_hash chain =
        (handle_all-IsLinked es l h).chains session in
      Verified-ok session k s chain 1 genesis_hash _ c (
        verify-IsChain chain_hash session k s fuel
          (IsChain-Ascends chain 0 1 genesis_hash (omega arith) c) enough)
