-- ===== src/Observability/Audit.antt =====
-- src/agentic_local_app/observability/audit_log.py, with the audit events of persistence/memory.py. Texts,
-- payloads and hashes are numbers; `chain_hash` (SHA-256 of canonical JSON) is a parameter of
-- the definitions that use it. The time of a verification is left out.
pub mod Chain
use agentic_local_app.Base.{
  ℕ, zero, suc, ◌+◌, Bool, true, false, not, ◌&&◌, ◌||◌, Option, none, some, List, [], ◌∷◌, ◌++◌,
  if◌then◌else◌, ◌==◌, ltb, any, length, take, Result, ok, err, is_some, get_or,
}

pub record Event : Type 0 where
  pub event_type : ℕ
  pub audited : Bool
  pub timestamp : ℕ
  pub session_id : ℕ
  pub conversation_id : Option ℕ
  pub cycle_id : Option ℕ
  pub plan_id : Option ℕ
  pub task_id : Option ℕ
  pub payload : ℕ

-- The dictionary that is hashed.
pub record HashInput : Type 0 where
  pub event_id : ℕ
  pub sequence : ℕ
  pub previous_event_hash : ℕ
  pub session_id : ℕ
  pub conversation_id : Option ℕ
  pub cycle_id : Option ℕ
  pub plan_id : Option ℕ
  pub task_id : Option ℕ
  pub event_type : ℕ
  pub timestamp : ℕ
  pub payload : ℕ

pub record AuditEvent : Type 0 where
  pub hashed : HashInput
  pub event_hash : ℕ

-- `audit_hash_input`: the record carries the same fields, less the hash.
abbrev pub audit_hash_input : AuditEvent → HashInput
audit_hash_input e = e.hashed

abbrev pub genesis_hash : ℕ
genesis_hash = 0

pub data AuditError : Type 0 where
  store_closed simulated_write_failure audit_append_only_violation audit_sequence_gap : AuditError

-- The part of `InMemoryConversationStore` that the audit events use: `_audit` by session.
pub record AuditStore : Type 0 where
  pub audit : List (ℕ × List AuditEvent)
  pub fail_next_write : Bool
  pub closed : Bool

-- `self._audit.get(session_id, [])`
abbrev pub chain_of : ℕ → List (ℕ × List AuditEvent) → List AuditEvent
chain_of session [] = []
chain_of session ((s, chain) ∷ rest) = if s == session then chain else chain_of session rest

-- `self._audit.setdefault(session_id, [])`, then the new chain in its place
abbrev pub put_chain : ℕ → List AuditEvent → List (ℕ × List AuditEvent) → List (ℕ × List AuditEvent)
put_chain session chain [] = (session, chain) ∷ []
put_chain session chain ((s, old) ∷ rest) =
    if s == session then (s, chain) ∷ rest else (s, old) ∷ put_chain session chain rest

abbrev pub last : List AuditEvent → Option AuditEvent
last [] = none
last (e ∷ []) = some e
last (e ∷ f ∷ es) = last (f ∷ es)

abbrev pub has_event : ℕ → List (ℕ × List AuditEvent) → Bool
has_event id [] = false
has_event id ((s, chain) ∷ rest) = any (λ e. e.hashed.event_id == id) chain || has_event id rest

abbrev pub follows : AuditEvent → Option AuditEvent → Bool
follows e none = true
follows e (some l) = e.hashed.sequence == l.hashed.sequence + 1

-- The two tests of `append_audit_event`, and the store with the session's chain in place.
abbrev pub is_duplicate : AuditEvent → AuditStore → Bool
is_duplicate e s =
    any (λ o. o.hashed.sequence == e.hashed.sequence) (chain_of e.hashed.session_id s.audit)
    || has_event e.hashed.event_id s.audit

abbrev pub is_gap : AuditEvent → AuditStore → Bool
is_gap e s = not (follows e (last (chain_of e.hashed.session_id s.audit)))

abbrev pub with_chain : ℕ → List AuditEvent → AuditStore → AuditStore
with_chain session chain s = record s { audit = put_chain session chain s.audit }

-- The store after the call, and the error that it raised, if any.
unfoldable pub append_audit_event : AuditEvent → AuditStore → AuditStore × Option AuditError
append_audit_event e s =
    let chain = chain_of e.hashed.session_id s.audit in
    if s.closed
    then (s, some store_closed)
    else if s.fail_next_write
    then (record s { fail_next_write = false }, some simulated_write_failure)
    else if is_duplicate e s
    then (with_chain e.hashed.session_id chain s, some audit_append_only_violation)
    else if is_gap e s
    then (with_chain e.hashed.session_id chain s, some audit_sequence_gap)
    else (with_chain e.hashed.session_id (chain ++ e ∷ []) s, none)

-- `rows = [e for e in chain if after_sequence is None or e.sequence > after_sequence]`
abbrev pub above : Option ℕ → List AuditEvent → List AuditEvent
above none es = es
above (some n) [] = []
above (some n) (e ∷ es) =
    if ltb n e.hashed.sequence then e ∷ above (some n) es else above (some n) es

unfoldable pub list_audit_events : ℕ → Option ℕ → ℕ → AuditStore → List AuditEvent
list_audit_events session after limit s = take limit (above after (chain_of session s.audit))

-- `_last`, the cache by session.
pub record AuditLog : Type 0 where
  pub store : AuditStore
  pub cache : List (ℕ × Option AuditEvent)

abbrev pub cached : ℕ → List (ℕ × Option AuditEvent) → Option (Option AuditEvent)
cached session [] = none
cached session ((s, e) ∷ rest) = if s == session then some e else cached session rest

-- `_last_of`
abbrev pub last_of : ℕ → AuditLog → AuditLog × Option AuditEvent
last_of session l = elim (cached session l.cache) [
  | some e ↦ (l, e)
  | none ↦
      let e = last (chain_of session l.store.audit) in
      (record l { cache = (session, e) ∷ l.cache }, e)
]

pub data Reason : Type 0 where
  sequence_gap previous_hash_mismatch hash_mismatch : Reason

pub record AuditVerification : Type 0 where
  pub valid : Bool
  pub checked : ℕ
  pub first_broken_sequence : Option ℕ
  pub reason : Option Reason

-- A page walked: the first break, or `checked`, `expected_sequence` and `previous_hash` after it.
pub data PageResult : Type 0 where
  broken : AuditVerification → PageResult
  intact : ℕ → ℕ → ℕ → PageResult

-- `page[-1]` of an empty page is an `IndexError`.
pub data VerifyFault : Type 0 where
  index_error out_of_fuel : VerifyFault

abbrev pub sequence_after : Option AuditEvent → ℕ
sequence_after none = 1
sequence_after (some e) = e.hashed.sequence + 1

abbrev pub hash_of : Option AuditEvent → ℕ
hash_of none = genesis_hash
hash_of (some e) = e.event_hash

module _ (chain_hash : ℕ → HashInput → ℕ) where
  abbrev pub recompute_hash : AuditEvent → ℕ
  recompute_hash e = chain_hash e.hashed.previous_event_hash (audit_hash_input e)

  -- The event that `handle` appends after `previous`.
  abbrev pub chained : Event → ℕ → Option AuditEvent → AuditEvent
  chained e event_id previous =
      let hashed : HashInput = record {
        event_id = event_id;
        sequence = sequence_after previous;
        previous_event_hash = hash_of previous;
        session_id = e.session_id;
        conversation_id = e.conversation_id;
        cycle_id = e.cycle_id;
        plan_id = e.plan_id;
        task_id = e.task_id;
        event_type = e.event_type;
        timestamp = e.timestamp;
        payload = e.payload;
      } in
      record { hashed = hashed; event_hash = chain_hash (hash_of previous) hashed }

  abbrev pub stored :
      AuditLog
      → AuditEvent
      → AuditStore × Option AuditError
      → AuditLog × Result AuditError (Option AuditEvent)
  stored l a (s, some error) = (record l { store = s }, err error)
  stored l a (s, none) =
      (record { store = s; cache = (a.hashed.session_id, some a) ∷ l.cache }, ok (some a))

  unfoldable pub handle : Event → ℕ → AuditLog → AuditLog × Result AuditError (Option AuditEvent)
  unfolding append_audit_event
  handle e event_id l =
      if not e.audited
      then (l, ok none)
      else (let (l', previous) = last_of e.session_id l in
          let a = chained e event_id previous in stored l' a (append_audit_event a l'.store))

  -- `_check_link`
  unfoldable pub check_link : AuditEvent → ℕ → ℕ → Option Reason
  check_link e expected_sequence previous_hash =
      if not (e.hashed.sequence == expected_sequence)
      then some sequence_gap
      else if not (e.hashed.previous_event_hash == previous_hash)
      then some previous_hash_mismatch
      else if not (recompute_hash e == e.event_hash)
      then some hash_mismatch
      else none

  -- The `for` loop over a page.
  unfoldable pub check_page : List AuditEvent → ℕ → ℕ → ℕ → PageResult
  check_page [] checked expected previous = intact checked expected previous
  check_page (e ∷ es) checked expected previous = elim (check_link e expected previous) [
    | some reason ↦ broken (record {
      valid = false;
      checked = checked;
      first_broken_sequence = some e.hashed.sequence;
      reason = some reason;
    })
    | none ↦ check_page es (checked + 1) (expected + 1) e.event_hash
  ]

  abbrev pub valid_after : ℕ → AuditVerification
  valid_after checked = record {
    valid = true;
    checked = checked;
    first_broken_sequence = none;
    reason = none;
  }

  module _ (session page_size : ℕ) (s : AuditStore) where
    -- The `while` loop, on fuel.
    unfoldable pub verify_from : ℕ → Option ℕ → ℕ → ℕ → ℕ → Result VerifyFault AuditVerification
    verify_from zero after checked expected previous = err out_of_fuel
    verify_from (suc fuel) after checked expected previous =
        let page = list_audit_events session after page_size s in
        elim (check_page page checked expected previous) [
          | broken v ↦ ok v
          | intact c e p ↦
              if ltb (length page) page_size then ok (valid_after c) else elim (last page) [
                | none ↦ err index_error
                | some l ↦ verify_from fuel (some l.hashed.sequence) c e p
              ]
        ]

    unfoldable pub verify : ℕ → Result VerifyFault AuditVerification
    verify fuel = verify_from fuel none 0 1 genesis_hash
