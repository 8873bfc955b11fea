-- ===== src/Lifecycle.antt =====
-- src/agentic_local_app/lifecycle/conversation_lifecycle.py: the class ConversationLifecycleManager. A step
-- reads the clock, a fresh identifier and whether the bus lets the event through from an `Env`; the
-- events published are listed newest first; `skills` and `effort`, which are only traced, are left out.
pub mod Sessions
pub mod Conversations
pub mod Steps
pub mod History
pub mod Branches
use agentic_local_app.Base.{
  ℕ, Bool, true, false, Option, none, some, List, ◌∷◌, if◌then◌else◌, Result, ok, err,
}
use agentic_local_app.Domain.States.{SessionState, ConversationState, ContextWindowState}
use agentic_local_app.Domain.Transitions.{InvalidTransition}
use agentic_local_app.Persistence.Blobs.{PersistenceError}
use agentic_local_app.Persistence.Records.{SessionBudget, SessionRecord, ConversationRecord}
use agentic_local_app.Persistence.Store.{Store, Written}

-- The events, with the payload that a reader of the bus sees.
pub data LifecycleEvent : Type 0 where
  session_created : ℕ → ℕ → SessionBudget → LifecycleEvent
  session_state_changed : ℕ → SessionState → SessionState → Option ℕ → LifecycleEvent
  conversation_created : ℕ → ℕ → Option ℕ → ContextWindowState → LifecycleEvent
  conversation_state_changed :
      ℕ → ℕ → ConversationState → ConversationState → Option ℕ → LifecycleEvent
  context_window_state_changed :
      ℕ → ℕ → ContextWindowState → ContextWindowState → Option ℕ → ℕ → LifecycleEvent

pub data LifecycleError : Type 0 where
  key_error : ℕ → LifecycleError
  managed_field unknown_field foreign_parent : LifecycleError
  invalid_session : InvalidTransition SessionState → LifecycleError
  invalid_conversation : InvalidTransition ConversationState → LifecycleError
  invalid_window : InvalidTransition ContextWindowState → LifecycleError
  persistence : PersistenceError → LifecycleError
  bus_failed : LifecycleError

pub record Manager : Type 0 where
  pub store : Store
  pub events : List LifecycleEvent

pub record Env : Type 0 where
  pub now : ℕ
  pub fresh_id : ℕ
  pub bus_accepts : Bool

abbrev pub Call : Type 0 → Type 0
Call A = Manager × Result LifecycleError A

-- `_publish`: a critical subscriber may raise.
abbrev pub publish : {A : Type 0} → Env → LifecycleEvent → A → Manager → Call A
publish env event a m =
    if env.bus_accepts then (record m { events = event ∷ m.events }, ok a) else (m, err bus_failed)

-- Persist, then publish, then return the record.
abbrev pub persist_publish :
    {A : Type 0} → Env → (Store → Written (Unit {0})) → LifecycleEvent → A → Manager → Call A
persist_publish env write event a m =
    let (s, r) = write m.store in
    elim r [
      | ok _ ↦ publish env event a (record m { store = s })
      | err e ↦ (record m { store = s }, err (persistence e))
    ]

-- Persist, without an event.
abbrev pub persist : {A : Type 0} → (Store → Written (Unit {0})) → A → Manager → Call A
persist write a m =
    let (s, r) = write m.store in
    elim r [
      | ok _ ↦ (record m { store = s }, ok a)
      | err e ↦ (record m { store = s }, err (persistence e))
    ]
