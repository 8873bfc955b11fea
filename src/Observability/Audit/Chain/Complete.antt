-- ===== src/Observability/Audit/Chain/Complete.antt =====
-- An event that the store of src/agentic_local_app/persistence/memory.py accepts.
use agentic_local_app.Base.{
  ℕ, ◌+◌, ◌≡◌, refl, true, false, not, Option, none, some, List, [], ◌∷◌, ◌++◌, arith, ok, Result,
  ap, ◌==◌, any, Option-cases, inl, inr, ◌∙◌, ==_refl,
}
use agentic_local_app.Observability.Audit.{
  HashInput, AuditEvent, AuditStore, AuditError, AuditLog, stored, Event, chain_of, last, last_of,
  has_event, is_gap, follows, chained, sequence_after, handle, append_audit_event, genesis_hash,
  with_chain, cached, put_chain,
}
use agentic_local_app.Observability.Audit.Chain.{IsChain}
use agentic_local_app.Observability.Audit.Chain.Append.{
  IsLinked, last_of-IsLinked, chain_of-put_chain, number_after-length, fresh_number,
  sequence_after-number,
}

module _ (chain_hash : ℕ → HashInput → ℕ) where
  -- The number of the next event is no number of the chain.
  next_is_fresh :
      (es : List AuditEvent)
      → IsChain chain_hash 1 genesis_hash es
      → any (λ o. o.hashed.sequence == sequence_after (last es)) es ≡ false
  next_is_fresh es c = fresh_number chain_hash es 1 genesis_hash (sequence_after (last es)) c (
      omega (
        arith,
        sequence_after-number (last es),
        number_after-length chain_hash es 1 genesis_hash c,
      ))

  no_gap :
      (e : Event) (id : ℕ) (s : AuditStore)
      → is_gap (chained chain_hash e id (last (chain_of e.session_id s.audit))) s ≡ false
  no_gap e id s = gap_of (last (chain_of e.session_id s.audit))
    where
      gap_of : (o : Option AuditEvent) → not (follows (chained chain_hash e id o) o) ≡ false
      gap_of none = refl
      gap_of (some l) = rw (==_refl (l.hashed.sequence + 1)) refl

  append_accepts :
      (e : Event) (id : ℕ) (s : AuditStore)
      → IsChain chain_hash 1 genesis_hash (chain_of e.session_id s.audit)
      → s.closed ≡ false
      → s.fail_next_write ≡ false
      → has_event id s.audit ≡ false
      → let chain = chain_of e.session_id s.audit in
        let a = chained chain_hash e id (last chain) in
        append_audit_event a s ≡ (with_chain e.session_id (chain ++ a ∷ []) s, none)
  unfolding append_audit_event
  append_accepts e id s c opened writes fresh =
      simp (opened, writes, next_is_fresh (chain_of e.session_id s.audit) c, fresh, no_gap e id s)
        refl

  last_of-store : (session : ℕ) (l : AuditLog) → (last_of session l).0.store ≡ l.store
  last_of-store session l = elim (Option-cases (cached session l.cache)) [
    | inr (o, found) ↦ rw (found, last_of) refl
    | inl missing ↦ rw (missing, last_of) refl
  ]

  abbrev pub Appended :
      AuditStore → Event → ℕ → AuditLog × Result AuditError (Option AuditEvent) → Type 0
  Appended s e id r =
      let chain = chain_of e.session_id s.audit in
      let a = chained chain_hash e id (last chain) in
      (r.1 ≡ ok (some a)) × (chain_of e.session_id r.0.store.audit ≡ chain ++ a ∷ [])

  stored-Appended :
      (e : Event) (id : ℕ) (l : AuditLog) (s : AuditStore)
      → l.store ≡ s
      → IsChain chain_hash 1 genesis_hash (chain_of e.session_id s.audit)
      → s.closed ≡ false
      → s.fail_next_write ≡ false
      → has_event id s.audit ≡ false
      → Appended s e id (
          let a = chained chain_hash e id (last (chain_of e.session_id s.audit)) in
          stored chain_hash l a (append_audit_event a l.store))
  stored-Appended e id l s same c opened writes fresh =
      let chain : List AuditEvent = chain_of e.session_id s.audit in
      let a : AuditEvent = chained chain_hash e id (last chain) in
      let put : chain_of e.session_id (put_chain e.session_id (chain ++ a ∷ []) s.audit)
          ≡ chain ++ a ∷ [] =
        ground (arith, chain_of-put_chain e.session_id e.session_id (chain ++ a ∷ []) s.audit) in
      rw (same, append_accepts e id s c opened writes fresh) (refl, put)

  -- From a log whose chains are intact and whose cache is up to date, an audited event with a fresh
  -- identifier is appended to its session's chain whenever the store is open and its test hook is not
  -- set: the store never sees a gap or a number twice.
  pub handle-Appended :
      (l : AuditLog) (e : Event) (id : ℕ)
      → IsLinked chain_hash l
      → e.audited ≡ true
      → l.store.closed ≡ false
      → l.store.fail_next_write ≡ false
      → has_event id l.store.audit ≡ false
      → Appended l.store e id (handle chain_hash e id l)
  unfolding handle
  handle-Appended l e id h audited opened writes fresh =
      let (linked, previous) = last_of-IsLinked chain_hash e.session_id l h in
      let kept : (last_of e.session_id l).0.store ≡ l.store = last_of-store e.session_id l in
      let named : (last_of e.session_id l).1 ≡ last (chain_of e.session_id l.store.audit) =
        previous ∙ ap (λ s. last (chain_of e.session_id s.audit)) kept in
      simp (audited, named)
        (stored-Appended e id (last_of e.session_id l).0 l.store kept (h.chains e.session_id) opened
          writes fresh)
