-- ===== src/Persistence/Store.antt =====
-- src/agentic_local_app/persistence/memory.py: the sessions and conversations of
-- `InMemoryConversationStore`, and its transactions. The snapshot of a transaction is the pair of
-- dictionaries; the flags are no part of it.
pub mod Refines
use agentic_local_app.Base.{
  ℕ, Bool, true, false, Option, List, [], if◌then◌else◌, ◌==◌, is_in, Result, ok, err,
}
use agentic_local_app.Domain.States.{ConversationState}
use agentic_local_app.Domain.Values.{conversation_state_enum}
use agentic_local_app.Persistence.Blobs.{PersistenceError, store_closed, simulated_write_failure}
use agentic_local_app.Persistence.Records.{SessionRecord, ConversationRecord}
use agentic_local_app.Persistence.Rows
use agentic_local_app.Persistence.Rows.{select}

pub record Store : Type 0 where
  pub sessions : List SessionRecord
  pub conversations : List ConversationRecord
  pub fail_next_write : Bool
  pub closed : Bool

abbrev pub session_key : SessionRecord → ℕ
session_key s = s.session_id

abbrev pub conversation_key : ConversationRecord → ℕ
conversation_key c = c.conversation_id

-- The store after a call, and what the call returned or raised.
abbrev pub Written : Type 0 → Type 0
Written A = Store × Result PersistenceError A

-- `_write_guard`, then the write.
abbrev pub guarded : (Store → Store) → Store → Written (Unit {0})
guarded write s =
    if s.closed
    then (s, err store_closed)
    else if s.fail_next_write
    then (record s { fail_next_write = false }, err simulated_write_failure)
    else (write s, ok tt)

unfoldable pub save_session : SessionRecord → Store → Written (Unit {0})
save_session r = guarded (λ s. record s { sessions = Rows.put session_key r s.sessions })

unfoldable pub save_conversation : ConversationRecord → Store → Written (Unit {0})
save_conversation r =
    guarded (λ s. record s { conversations = Rows.put conversation_key r s.conversations })

unfoldable pub get_session : ℕ → Store → Option SessionRecord
get_session id s = Rows.get session_key id s.sessions

unfoldable pub get_conversation : ℕ → Store → Option ConversationRecord
get_conversation id s = Rows.get conversation_key id s.conversations

unfoldable pub list_conversations : ℕ → Store → List ConversationRecord
list_conversations session s = select (λ c. c.session_id == session) s.conversations

unfoldable pub find_conversations_in_states :
    List ConversationState → Store → List ConversationRecord
find_conversations_in_states states s = select (λ c. is_in c.status states) s.conversations

-- A statement of a block and the next one: an exception skips what follows.
infixl 5 ◌then◌
abbrev pub ◌then◌ :
    (Store → Written (Unit {0})) → (Store → Written (Unit {0})) → Store → Written (Unit {0})
(a then b) s = let (s', r) = a s in elim r [ ok _ ↦ b s' | err e ↦ (s', err e) ]

-- `with store.transaction(): ...`: an exception that escapes restores the dictionaries.
unfoldable pub transaction : (Store → Written (Unit {0})) → Store → Written (Unit {0})
transaction body s =
    if s.closed
    then (s, err store_closed)
    else (let (s', r) = body s in
        elim r [
          | ok _ ↦ (s', ok tt)
          | err e ↦ (record s' { sessions = s.sessions; conversations = s.conversations }, err e)
        ])

-- Each collection is emptied.
unfoldable pub reset : Store → Written (Unit {0})
reset = guarded (λ s. record s { sessions = []; conversations = [] })

unfoldable pub close : Store → Store
close s = record s { closed = true }
