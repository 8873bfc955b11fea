-- ===== src/Tests/Observability.antt =====
-- The audit log at concrete inputs, with a hash that can be computed by hand.
use agentic_local_app.Base.{List, ℕ, ◌+◌, ◌≡◌, refl, true, false, none, some, [], ◌∷◌, arith, ok}
use agentic_local_app.Observability.Audit.{
  HashInput, AuditEvent, valid_after, AuditStore, AuditLog, Event, chain_of, handle, check_page,
  verify, genesis_hash, chained, list_audit_events, check_link, verify_from, append_audit_event,
}
use agentic_local_app.Observability.Audit.Chain.Pages.{Verified, verify-IsChain}
use agentic_local_app.Observability.Audit.Chain.Complete.{Appended, handle-Appended}
use agentic_local_app.Observability.Audit.Chain.Roundtrip.{handle_all, handle_all-verify}
use agentic_local_app.Observability.Audit.Chain.Append.{IsLinked, handle-IsLinked}

abbrev hash : ℕ → HashInput → ℕ
hash previous h = previous + h.sequence + h.payload

abbrev event : ℕ → Event
event payload = record {
  event_type = 4;
  audited = true;
  timestamp = 100;
  session_id = 7;
  conversation_id = some 8;
  cycle_id = none;
  plan_id = none;
  task_id = none;
  payload = payload;
}

abbrev first_event : AuditEvent
first_event = chained hash (event 20) 1 none

abbrev second_event : AuditEvent
second_event = chained hash (event 30) 2 (some first_event)

abbrev third_event : AuditEvent
third_event = chained hash (event 40) 3 (some second_event)

abbrev store : AuditStore
store = record {
  audit = (7, first_event ∷ second_event ∷ third_event ∷ []) ∷ [];
  fail_next_write = false;
  closed = false;
}

verify-IsChain_example :
    Verified hash 7 1 store
      (first_event ∷ second_event ∷ third_event ∷ [])
      0
      1
      genesis_hash
      (verify hash 7 2 store 4)
verify-IsChain_example =
    verify-IsChain hash 7 1 store 4 (omega arith, (omega arith, (omega arith, tt))) (omega arith)

verify_run :
    verify hash 7 2 store 4
    ≡ ok (record { valid = true; checked = 3; first_broken_sequence = none; reason = none })
unfolding verify verify_from check_page check_link list_audit_events
verify_run = refl

abbrev empty_log : AuditLog
empty_log = record {
  store = record { audit = []; fail_next_write = false; closed = false };
  cache = [];
}

empty_log-IsLinked : IsLinked hash empty_log
empty_log-IsLinked = record { chains = λ i. tt; recent = λ i e q. cc }

handle-IsLinked_example : IsLinked hash (handle hash (event 20) 1 empty_log).0
handle-IsLinked_example = handle-IsLinked hash empty_log (event 20) 1 empty_log-IsLinked

handle_run : chain_of 7 (handle hash (event 20) 1 empty_log).0.store.audit ≡ first_event ∷ []
unfolding handle append_audit_event
handle_run = refl

handle-Appended_example :
    Appended hash empty_log.store (event 20) 1 (handle hash (event 20) 1 empty_log)
handle-Appended_example =
    handle-Appended hash empty_log (event 20) 1 empty_log-IsLinked refl refl refl refl

-- The second event has an identifier that is taken, and is refused.
abbrev events : List (Event × ℕ)
events = (event 20, 1) ∷ (event 30, 1) ∷ (event 40, 2) ∷ []

handle_all-verify_example :
    verify hash 7 1 (handle_all hash events empty_log).store 3 ≡ ok (valid_after hash 2)
unfolding handle_all handle append_audit_event
handle_all-verify_example =
    handle_all-verify hash events empty_log 7 0 3 empty_log-IsLinked (omega arith)
