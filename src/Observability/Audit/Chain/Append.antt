-- ===== src/Observability/Audit/Chain/Append.antt =====
-- `handle` of src/agentic_local_app/observability/audit_log.py and the chains.
use agentic_local_app.Base.{
  ℕ, ◌+◌, ◌≤◌, ◌≡◌, refl, sym, ◌∙◌, ap, Bool, true, false, Option, none, some, List, [], ◌∷◌, ◌++◌,
  arith, length, ◌==◌, any, if◌then◌else◌, Bool-cases, Option-cases, inl, inr,
}
use agentic_local_app.Observability.Audit.{
  HashInput, AuditEvent, AuditStore, AuditError, store_closed, simulated_write_failure,
  audit_append_only_violation, audit_sequence_gap, is_duplicate, is_gap, with_chain, AuditLog,
  Event, chain_of, put_chain, last, last_of, cached, sequence_after, hash_of, chained, stored,
  handle, append_audit_event, genesis_hash,
}
use agentic_local_app.Observability.Audit.Chain.{IsChain}

pub chain_of-put_chain :
    (i session : ℕ) (chain : List AuditEvent) (audit : List (ℕ × List AuditEvent))
    → chain_of i (put_chain session chain audit)
      ≡ (if session == i then chain else chain_of i audit)
chain_of-put_chain i session chain [] = ground arith
chain_of-put_chain i session chain ((s, old) ∷ rest) =
    ground (arith, chain_of-put_chain i session chain rest)

-- The number and the hash that the event after `o` names, in a chain that starts at `n` and `h`.
abbrev pub number_after : ℕ → Option AuditEvent → ℕ
number_after n none = n
number_after n (some e) = e.hashed.sequence + 1

abbrev link_after : ℕ → Option AuditEvent → ℕ
link_after h none = h
link_after h (some e) = e.event_hash

-- Of a chain that is not empty, where it starts does not matter.
number_after-last :
    (f : AuditEvent) (es : List AuditEvent) (n m : ℕ)
    → number_after n (last (f ∷ es)) ≡ number_after m (last (f ∷ es))
number_after-last f [] n m = refl
number_after-last f (g ∷ es) n m = number_after-last g es n m

link_after-last :
    (f : AuditEvent) (es : List AuditEvent) (h i : ℕ)
    → link_after h (last (f ∷ es)) ≡ link_after i (last (f ∷ es))
link_after-last f [] h i = refl
link_after-last f (g ∷ es) h i = link_after-last g es h i

last-append : (es : List AuditEvent) (a : AuditEvent) → last (es ++ a ∷ []) ≡ some a
last-append [] a = refl
last-append (e ∷ []) a = refl
last-append (e ∷ f ∷ es) a = last-append (f ∷ es) a

pub sequence_after-number : (o : Option AuditEvent) → sequence_after o ≡ number_after 1 o
sequence_after-number none = refl
sequence_after-number (some e) = refl

hash_of-link : (o : Option AuditEvent) → hash_of o ≡ link_after genesis_hash o
hash_of-link none = refl
hash_of-link (some e) = refl

some-injective : {A : Type 0} (a b : A) → some a ≡ some b → a ≡ b
some-injective a b h = cc

module _ (chain_hash : ℕ → HashInput → ℕ) where
  IsChain-append :
      (es : List AuditEvent) (n h : ℕ) (a : AuditEvent)
      → IsChain chain_hash n h es
      → a.hashed.sequence ≡ number_after n (last es)
      → a.hashed.previous_event_hash ≡ link_after h (last es)
      → a.event_hash ≡ chain_hash (link_after h (last es)) a.hashed
      → IsChain chain_hash n h (es ++ a ∷ [])
  IsChain-append [] n h a c s p q = (s, p, q, tt)
  IsChain-append (e ∷ []) n h a c s p q = (c.0, c.1, c.2, (ground arith, p, q, tt))
  IsChain-append (e ∷ f ∷ es) n h a c s p q = (
    c.0,
    c.1,
    c.2,
    IsChain-append (f ∷ es) (n + 1) e.event_hash a c.3 (s ∙ number_after-last f es n (n + 1))
        (p ∙ link_after-last f es h e.event_hash)
        (q ∙ ap (λ x. chain_hash x a.hashed) (link_after-last f es h e.event_hash)),
  )

  pub number_after-length :
      (es : List AuditEvent) (n h : ℕ)
      → IsChain chain_hash n h es
      → number_after n (last es) ≡ n + length es
  number_after-length [] n h c = omega arith
  number_after-length (e ∷ []) n h c = omega (arith, c.0)
  number_after-length (e ∷ f ∷ es) n h c = omega (
    arith,
    number_after-last f es n (n + 1),
    number_after-length (f ∷ es) (n + 1) e.event_hash c.3,
  )

  pub fresh_number :
      (es : List AuditEvent) (n h m : ℕ)
      → IsChain chain_hash n h es
      → n + length es ≤ m
      → any (λ o. o.hashed.sequence == m) es ≡ false
  fresh_number [] n h m c l = refl
  fresh_number (e ∷ es) n h m c l =
      ground (arith, c.0, fresh_number es (n + 1) e.event_hash m c.3 (omega (arith, l)))

  -- Every chain of the store is intact, and the cache holds the last event of each session it names.
  pub record IsLinked (l : AuditLog) : Type 0 where
    pub chains : (session : ℕ) → IsChain chain_hash 1 genesis_hash (chain_of session l.store.audit)
    pub recent :
        (session : ℕ) (e : Option AuditEvent)
        → cached session l.cache ≡ some e
        → e ≡ last (chain_of session l.store.audit)

  pub last_of-IsLinked :
      (session : ℕ) (l : AuditLog)
      → IsLinked l
      → IsLinked (last_of session l).0
        × ((last_of session l).1 ≡ last (chain_of session (last_of session l).0.store.audit))
  last_of-IsLinked session l h = elim (Option-cases (cached session l.cache)) [
    | inr (e, found) ↦ rw (found, last_of) (h, h.recent session e found)
    | inl missing ↦
        rw (missing, last_of)
          (record { chains = h.chains; recent = λ i e q. ground (arith, h.recent i e) }, refl)
  ]

  -- The error paths of `append_audit_event` leave every chain as it is.
  touched-IsLinked :
      (l : AuditLog) (session : ℕ) (fails : Bool)
      → IsLinked l
      → IsLinked (record l {
        store = record l.store {
          audit = put_chain session (chain_of session l.store.audit) l.store.audit;
          fail_next_write = fails;
        };
      })
  touched-IsLinked l session fails h = record {
    chains = λ i. rw (same i) (h.chains i);
    recent = λ i e q. h.recent i e q ∙ ap last (sym (same i));
  }
    where
      same :
          (i : ℕ)
          → chain_of i (put_chain session (chain_of session l.store.audit) l.store.audit)
            ≡ chain_of i l.store.audit
      same i =
          ground
            (arith, chain_of-put_chain i session (chain_of session l.store.audit) l.store.audit)

  appended-IsLinked :
      (l : AuditLog) (e : Event) (id : ℕ)
      → IsLinked l
      → let chain = chain_of e.session_id l.store.audit in
        let a = chained chain_hash e id (last chain) in
        IsLinked (record {
          store = record l.store { audit = put_chain e.session_id (chain ++ a ∷ []) l.store.audit };
          cache = (e.session_id, some a) ∷ l.cache;
        })
  appended-IsLinked l e id h = record {
    chains = λ i. rw (put i) (elim (Bool-cases (e.session_id == i)) [
      | inl here ↦ rw here longer
      | inr there ↦ rw there (h.chains i)
    ]);
    recent = λ i o q. elim (Bool-cases (e.session_id == i)) [
      | inl here ↦
          rw (put i, here) (sym (some-injective _ _ (rw here at q)) ∙ sym (last-append chain a))
      | inr there ↦ rw (put i, there) (h.recent i o (rw there at q))
    ];
  }
    where
      chain : List AuditEvent
      chain = chain_of e.session_id l.store.audit

      a : AuditEvent
      a = chained chain_hash e id (last chain)

      longer : IsChain chain_hash 1 genesis_hash (chain ++ a ∷ [])
      longer =
          IsChain-append chain 1 genesis_hash a (h.chains e.session_id)
            (sequence_after-number (last chain)) (hash_of-link (last chain))
            (ap (λ x. chain_hash x a.hashed) (hash_of-link (last chain)))

      put :
          (i : ℕ)
          → chain_of i (put_chain e.session_id (chain ++ a ∷ []) l.store.audit)
            ≡ (if e.session_id == i then chain ++ a ∷ [] else chain_of i l.store.audit)
      put i = chain_of-put_chain i e.session_id (chain ++ a ∷ []) l.store.audit

  -- What `append_audit_event` answers leaves a linked log.
  record IsStored (l : AuditLog) (a : AuditEvent) (x : AuditStore × Option AuditError)
      : Type 0 where
    pub linked : IsLinked (stored chain_hash l a x).0

  IsStored-if :
      (l : AuditLog) (a : AuditEvent) (b : Bool) (x y : AuditStore × Option AuditError)
      → IsStored l a x
      → IsStored l a y
      → IsStored l a (if b then x else y)
  IsStored-if l a true x y p q = p
  IsStored-if l a false x y p q = q

  append-IsStored :
      (l : AuditLog) (e : Event) (id : ℕ)
      → IsLinked l
      → let a = chained chain_hash e id (last (chain_of e.session_id l.store.audit)) in
        IsStored l a (append_audit_event a l.store)
  unfolding append_audit_event
  append-IsStored l e id h =
      let a : AuditEvent = chained chain_hash e id (last (chain_of e.session_id l.store.audit)) in
      let chain : List AuditEvent = chain_of e.session_id l.store.audit in
      let kept : AuditStore = with_chain e.session_id chain l.store in
      let longer : AuditStore = with_chain e.session_id (chain ++ a ∷ []) l.store in
      let touched : IsLinked (record l { store = kept }) =
        touched-IsLinked l e.session_id l.store.fail_next_write h in
      IsStored-if l a l.store.closed (l.store, some store_closed) _
        (record { linked = record { chains = h.chains; recent = h.recent } })
        (IsStored-if l a l.store.fail_next_write
          (record l.store { fail_next_write = false }, some simulated_write_failure) _
          (record { linked = record { chains = h.chains; recent = h.recent } })
          (IsStored-if l a (is_duplicate a l.store) (kept, some audit_append_only_violation)
            (if is_gap a l.store then (kept, some audit_sequence_gap) else (longer, none))
            (record { linked = touched })
            (IsStored-if l a (is_gap a l.store) (kept, some audit_sequence_gap) (longer, none)
              (record { linked = touched }) (record { linked = appended-IsLinked l e id h }))))

  -- From a log whose chains are intact and whose cache is up to date, `handle` leaves such a log,
  -- whether the event is audited or not, appended, or refused by the store.
  pub handle-IsLinked :
      (l : AuditLog) (e : Event) (id : ℕ) → IsLinked l → IsLinked (handle chain_hash e id l).0
  unfolding handle
  handle-IsLinked l e id h = elim (Bool-cases e.audited) [
    | inr skipped ↦ rw skipped h
    | inl audited ↦
        let (linked, previous) = last_of-IsLinked e.session_id l h in
        rw (audited, previous) ((append-IsStored (last_of e.session_id l).0 e id linked).linked)
  ]
