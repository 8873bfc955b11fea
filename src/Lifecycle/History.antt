-- ===== src/Lifecycle/History.antt =====
-- src/agentic_local_app/lifecycle/conversation_lifecycle.py: any sequence of calls of the manager.
use mathlib.Core.Path.{subst}
use agentic_local_app.Base.{
  ℕ, ◌≡◌, refl, Bool, true, false, Option, none, some, List, [], ◌∷◌, arith, ◌⊎◌, inl, inr, ◌∙◌,
}
use agentic_local_app.Domain.States.{SessionState, ConversationState, ContextWindowState}
use agentic_local_app.Domain.Values.{
  session_state_enum, conversation_state_enum, context_window_state_enum,
}
use agentic_local_app.Domain.Transitions.{
  session_transitions, conversation_transitions, context_window_transitions, can_transition,
  is_terminal,
}
use agentic_local_app.Persistence.Records.{SessionBudget, SessionRecord, ConversationRecord}
use agentic_local_app.Persistence.Store.{get_session, get_conversation}
use agentic_local_app.Lifecycle.{Manager, Env}
use agentic_local_app.Lifecycle.Sessions.{
  SessionUpdate, create_session, transition_session, update_session,
}
use agentic_local_app.Lifecycle.Conversations.{
  ConversationUpdate, create_conversation, transition_conversation, update_conversation,
  interrupt_conversation, transition_context_window,
}
use agentic_local_app.Lifecycle.Steps.{SessionMoves, ConversationMoves, StoreMoves}
use agentic_local_app.Lifecycle.Steps.SessionSteps.{transition_session-Moved, update_session-Moved}
use agentic_local_app.Lifecycle.Steps.ConversationSteps.{
  transition_conversation-Moved, update_conversation-Moved, interrupt_conversation-Moved,
  transition_context_window-Moved,
}
use agentic_local_app.Lifecycle.Steps.Creation.{create_session-Moved, create_conversation-Moved}

-- The public methods of the manager, with their arguments.
pub data Method : Type 0 where
  creates_session : ℕ → ℕ → ℕ → SessionBudget → Bool → Method
  moves_session : ℕ → SessionState → Option ℕ → List SessionUpdate → Method
  updates_session : ℕ → List SessionUpdate → Method
  creates_conversation : ℕ → Option ℕ → ContextWindowState → Method
  moves_conversation : ℕ → ConversationState → Option ℕ → List ConversationUpdate → Method
  updates_conversation : ℕ → List ConversationUpdate → Method
  interrupts_conversation : ℕ → ℕ → Method
  moves_window : ℕ → ContextWindowState → Option ℕ → Method

-- The manager after a call, whether it returned or raised.
abbrev pub perform : Env → Method → Manager → Manager
perform env (creates_session goal message user budget auto) m =
    (create_session env goal message user budget auto m).0
perform env (moves_session id to reason us) m = (transition_session env id to reason us m).0
perform env (updates_session id us) m = (update_session env id us m).0
perform env (creates_conversation id parent window) m =
    (create_conversation env id parent window m).0
perform env (moves_conversation id to reason us) m =
    (transition_conversation env id to reason us m).0
perform env (updates_conversation id us) m = (update_conversation env id us m).0
perform env (interrupts_conversation id reason) m = (interrupt_conversation env id reason m).0
perform env (moves_window id to reason) m = (transition_context_window env id to reason m).0

abbrev pub perform_all : List (Env × Method) → Manager → Manager
perform_all [] m = m
perform_all ((env, method) ∷ rest) m = perform_all rest (perform env method m)

-- The identifier generator never gives an identifier that is in the store.
abbrev pub IsFresh : Env → Manager → Type 0
IsFresh env m =
    (get_session env.fresh_id m.store ≡ none) × (get_conversation env.fresh_id m.store ≡ none)

abbrev pub AreFresh : List (Env × Method) → Manager → Type 0
AreFresh [] m = Unit
AreFresh ((env, method) ∷ rest) m = IsFresh env m × AreFresh rest (perform env method m)

perform-StoreMoves :
    (env : Env) (method : Method) (m : Manager)
    → IsFresh env m
    → StoreMoves m.store (perform env method m).store
perform-StoreMoves env (creates_session goal message user budget auto) m fresh =
    create_session-Moved env goal message user budget auto m fresh.0
perform-StoreMoves env (moves_session id to reason us) m fresh =
    transition_session-Moved env id to reason us m
perform-StoreMoves env (updates_session id us) m fresh = update_session-Moved env id us m
perform-StoreMoves env (creates_conversation id parent window) m fresh =
    create_conversation-Moved env id parent window m fresh.1
perform-StoreMoves env (moves_conversation id to reason us) m fresh =
    transition_conversation-Moved env id to reason us m
perform-StoreMoves env (updates_conversation id us) m fresh = update_conversation-Moved env id us m
perform-StoreMoves env (interrupts_conversation id reason) m fresh =
    interrupt_conversation-Moved env id reason m
perform-StoreMoves env (moves_window id to reason) m fresh =
    transition_context_window-Moved env id to reason m

-- Steps along the rows of a table.
pub data Reaches {S : Type 0} (allowed : S → S → Bool) : S → S → Type 0 where
  stays : {s : S} → Reaches allowed s s
  moves : {s t u : S} → allowed s t ≡ true → Reaches allowed t u → Reaches allowed s u

abbrev pub SessionReaches : SessionRecord → Option SessionRecord → Type 0
SessionReaches s none = ⊥
SessionReaches s (some t) = Reaches (can_transition session_transitions) s.status t.status

abbrev pub ConversationReaches : ConversationRecord → Option ConversationRecord → Type 0
ConversationReaches c none = ⊥
ConversationReaches c (some d) =
    Reaches (can_transition conversation_transitions) c.status d.status
    × Reaches (can_transition context_window_transitions) c.context_window_state
        d.context_window_state
    × (d.session_id ≡ c.session_id)

-- A step, or none, before the others.
before :
    {S : Type 0} (allowed : S → S → Bool) {s t u : S}
    → (t ≡ s) ⊎ (allowed s t ≡ true)
    → Reaches allowed t u
    → Reaches allowed s u
before allowed {u = u} (inl e) rest = subst (λ x. Reaches allowed x u) e rest
before allowed (inr step) rest = moves step rest

later_session :
    (s : SessionRecord) (next last : Option SessionRecord)
    → SessionMoves (some s) next
    → ((t : SessionRecord) → next ≡ some t → SessionReaches t last)
    → SessionReaches s last
later_session s none last h k = elim h [ ]
later_session s (some t) none h k = k t refl
later_session s (some t) (some u) h k = before (can_transition session_transitions) h (k t refl)

later_conversation :
    (c : ConversationRecord) (next last : Option ConversationRecord)
    → ConversationMoves (some c) next
    → ((d : ConversationRecord) → next ≡ some d → ConversationReaches d last)
    → ConversationReaches c last
later_conversation c none last h k = elim h [ ]
later_conversation c (some d) none h k = k d refl
later_conversation c (some d) (some e) (h, w, o) k =
    let (h', w', o') = k d refl in
    (
      before (can_transition conversation_transitions) h h',
      before (can_transition context_window_transitions) w w',
      o' ∙ o,
    )

-- Whatever calls are made with fresh identifiers, in any order and whatever the bus and the store answer, a
-- session that was stored is still stored, and its status has moved along the rows of the session table only.
pub history-SessionReaches :
    (calls : List (Env × Method)) (m : Manager) (id : ℕ) (s : SessionRecord)
    → AreFresh calls m
    → get_session id m.store ≡ some s
    → SessionReaches s (get_session id (perform_all calls m).store)
history-SessionReaches [] m id s fresh found = rw found stays
history-SessionReaches ((env, method) ∷ rest) m id s (fresh, fresh') found =
    later_session s (get_session id (perform env method m).store) _
      (subst (λ x. SessionMoves x (get_session id (perform env method m).store)) found
        ((perform-StoreMoves env method m fresh).sessions id))
      (λ t. history-SessionReaches rest (perform env method m) id t fresh')

-- Whatever calls are made with fresh identifiers, in any order and whatever the bus and the store answer, a
-- conversation that was stored is still stored, under the same session; its status and the state of its window
-- have moved along the rows of their tables only.
pub history-ConversationReaches :
    (calls : List (Env × Method)) (m : Manager) (id : ℕ) (c : ConversationRecord)
    → AreFresh calls m
    → get_conversation id m.store ≡ some c
    → ConversationReaches c (get_conversation id (perform_all calls m).store)
history-ConversationReaches [] m id c fresh found = rw found (stays, stays, refl)
history-ConversationReaches ((env, method) ∷ rest) m id c (fresh, fresh') found =
    later_conversation c (get_conversation id (perform env method m).store) _
      (subst (λ x. ConversationMoves x (get_conversation id (perform env method m).store)) found
        ((perform-StoreMoves env method m fresh).conversations id))
      (λ d. history-ConversationReaches rest (perform env method m) id d fresh')

-- From a state without a successor nothing is reached.
terminal_stays :
    {S : Type 0} (allowed : S → S → Bool) {s t : S}
    → ((u : S) → allowed s u ≡ false)
    → Reaches allowed s t
    → t ≡ s
terminal_stays allowed none_allowed stays = refl
terminal_stays allowed none_allowed (moves {t = u} step rest) = ground (arith, none_allowed u, step)

-- The status of a conversation that is closed or failed.
abbrev pub HasStatus : ConversationState → Option ConversationRecord → Type 0
HasStatus s none = ⊥
HasStatus s (some c) = c.status ≡ s

has_status :
    (c : ConversationRecord) (last : Option ConversationRecord)
    → is_terminal conversation_transitions c.status ≡ true
    → ConversationReaches c last
    → HasStatus c.status last
has_status c none t h = h
has_status c (some d) t (h, w, o) =
    terminal_stays (can_transition conversation_transitions) (none_from c.status t) h
  where
    none_from :
        (s : ConversationState)
        → is_terminal conversation_transitions s ≡ true
        → (u : ConversationState) → can_transition conversation_transitions s u ≡ false
    none_from s h u = ground arith

-- A conversation in a terminal status keeps it through any calls that are made with fresh identifiers.
pub terminal_conversation_stays :
    (calls : List (Env × Method)) (m : Manager) (id : ℕ) (c : ConversationRecord)
    → AreFresh calls m
    → get_conversation id m.store ≡ some c
    → is_terminal conversation_transitions c.status ≡ true
    → HasStatus c.status (get_conversation id (perform_all calls m).store)
terminal_conversation_stays calls m id c fresh found terminal =
    has_status c _ terminal (history-ConversationReaches calls m id c fresh found)
