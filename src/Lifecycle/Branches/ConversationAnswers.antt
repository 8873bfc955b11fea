-- ===== src/Lifecycle/Branches/ConversationAnswers.antt =====
-- src/agentic_local_app/lifecycle/conversation_lifecycle.py: the answers about a conversation.
use agentic_local_app.Lifecycle.Branches.Answers.{
  ConversationAt, ConversationWithId, WindowAt, ConversationAnswer, IsNewOf, Answers, Writes-map,
  conversation_refused, conversation_published, conversation_persisted, checked,
  create_session-Answers, conversation_id_found, session_id_found, update_session-Answers,
  transition_session-Answers,
}
use agentic_local_app.Base.{
  ℕ, ◌≡◌, refl, ◌∙◌, false, Option, some, List, [], if◌then◌else◌, any, is_in, inl, inr, Bool-cases,
  Option-cases,
}
use agentic_local_app.Domain.States.{ConversationState, ContextWindowState}
use agentic_local_app.Domain.Values.{
  session_state_enum, conversation_state_enum, context_window_state_enum,
}
use agentic_local_app.Domain.Transitions.{
  conversation_transitions, context_window_transitions, can_transition, active_conversation_states,
}
use agentic_local_app.Persistence.Records.{SessionRecord, ConversationRecord}
use agentic_local_app.Persistence.Store.{
  save_session, save_conversation, get_session, get_conversation, transaction, ◌then◌,
}
use agentic_local_app.Lifecycle.{
  Manager, Env, key_error, managed_field, unknown_field, persist_publish, persist,
  conversation_state_changed,
}
use agentic_local_app.Lifecycle.Conversations
use agentic_local_app.Lifecycle.Conversations.{
  ConversationUpdate, create_conversation, transition_conversation, update_conversation,
  interrupt_conversation, transition_context_window, commit_conversation_transition,
}
use agentic_local_app.Lifecycle.Steps.ConversationSteps.{
  with_updates-conversation, transitioned-conversation,
}
use agentic_local_app.Lifecycle.History.{
  Method, creates_session, moves_session, updates_session, creates_conversation, moves_conversation,
  updates_conversation, interrupts_conversation, moves_window,
}
use agentic_local_app.Lifecycle.Branches.{
  Answer, refused_at_once, persist_publish-Answer, IsSession, IsConversation, transaction-Writes,
}

commit-Answer :
    (env : Env) (current : ConversationRecord) (id : ℕ) (to : ConversationState) (reason : Option ℕ)
    (us : List ConversationUpdate) (m : Manager)
    → current.conversation_id ≡ id
    → any Conversations.is_managed us ≡ false
    → ConversationAnswer
        (ConversationAt id to)
        m
        (commit_conversation_transition env current to reason us m)
unfolding commit_conversation_transition
commit-Answer env current id to reason us m known plain =
    let (same, status, window, owner) = transitioned-conversation env.now to us current plain in
    let next : ConversationRecord = Conversations.transitioned env.now to us current in
    let event =
      conversation_state_changed current.session_id current.conversation_id current.status to
        reason in
    checked (λ c s. IsConversation c s × ConversationAt id to c) m false
      (any Conversations.is_invalid us) unknown_field unknown_field
      (persist_publish env (save_conversation next) event next m)
      (λ _. conversation_published (ConversationAt id to) m env event next (same ∙ known, status))

transition_found-Answers :
    (env : Env) (current : ConversationRecord) (id : ℕ) (to : ConversationState) (reason : Option ℕ)
    (us : List ConversationUpdate) (m : Manager)
    → current.conversation_id ≡ id
    → ConversationAnswer
        (ConversationAt id to)
        m
        (Conversations.transition_found env current to reason us m)
transition_found-Answers env current id to reason us m known =
    elim (Bool-cases (any Conversations.is_managed us)) [
      | inl e ↦
          rw (e, Conversations.transition_found)
            (conversation_refused (ConversationAt id to) m managed_field)
      | inr e ↦ elim (Bool-cases (can_transition conversation_transitions current.status to)) [
        | inl p ↦
            rw (e, p, Conversations.transition_found)
              (commit-Answer env current id to reason us m known e)
        | inr p ↦ rw (e, p, Conversations.transition_found) ((refl, refl), refl)
      ]
    ]

transition_conversation-Answers :
    (env : Env) (id : ℕ) (to : ConversationState) (reason : Option ℕ) (us : List ConversationUpdate)
    (m : Manager)
    → Answers env (moves_conversation id to reason us) m
unfolding transition_conversation
transition_conversation-Answers env id to reason us m =
    elim (Option-cases (get_conversation id m.store)) [
      | inl p ↦
          rw (p, transition_conversation)
            (conversation_refused (ConversationAt id to) m (key_error id))
      | inr (current, p) ↦
          rw (p, transition_conversation)
            (transition_found-Answers env current id to reason us m
              (conversation_id_found id m.store current p))
    ]

update_conversation-Answers :
    (env : Env) (id : ℕ) (us : List ConversationUpdate) (m : Manager)
    → Answers env (updates_conversation id us) m
unfolding update_conversation
update_conversation-Answers env id us m = elim (Option-cases (get_conversation id m.store)) [
  | inl p ↦
      rw (p, update_conversation) (conversation_refused (ConversationWithId id) m (key_error id))
  | inr (current, p) ↦
      let next : ConversationRecord = record (Conversations.with_updates us current) {
        updated_at = env.now;
      } in
      rw (p, update_conversation)
        (checked (λ c s. IsConversation c s × ConversationWithId id c) m _ _ managed_field
          unknown_field (persist (save_conversation next) next m)
          (λ plain. conversation_persisted (ConversationWithId id) m next (
            (with_updates-conversation us current plain).0
            ∙ conversation_id_found id m.store current p)))
]

interrupt_found-Answers :
    (env : Env) (current : ConversationRecord) (id reason : ℕ) (m : Manager)
    → current.conversation_id ≡ id
    → ConversationAnswer
        (ConversationAt id ConversationState.interrupted)
        m
        (Conversations.interrupt_found env current reason m)
interrupt_found-Answers env current id reason m known =
    elim (Bool-cases (is_in current.status active_conversation_states)) [
      | inr e ↦ rw (e, Conversations.interrupt_found) ((refl, refl), refl)
      | inl e ↦
          elim (Bool-cases (
            can_transition conversation_transitions current.status ConversationState.interrupted)) [
              | inl p ↦
                  rw (e, p, Conversations.interrupt_found)
                    (commit-Answer env current id ConversationState.interrupted (some reason) [] m
                      known refl)
              | inr p ↦ rw (e, p, Conversations.interrupt_found) ((refl, refl), refl)
            ]
    ]

interrupt_conversation-Answers :
    (env : Env) (id reason : ℕ) (m : Manager) → Answers env (interrupts_conversation id reason) m
unfolding interrupt_conversation
interrupt_conversation-Answers env id reason m = elim (Option-cases (get_conversation id m.store)) [
  | inl p ↦
      rw (p, interrupt_conversation)
        (conversation_refused (ConversationAt id ConversationState.interrupted) m (key_error id))
  | inr (current, p) ↦
      rw (p, interrupt_conversation)
        (interrupt_found-Answers env current id reason m
          (conversation_id_found id m.store current p))
]

transition_context_window-Answers :
    (env : Env) (id : ℕ) (to : ContextWindowState) (reason : Option ℕ) (m : Manager)
    → Answers env (moves_window id to reason) m
unfolding transition_context_window
transition_context_window-Answers env id to reason m =
    elim (Option-cases (get_conversation id m.store)) [
      | inl p ↦
          rw (p, transition_context_window) (conversation_refused (WindowAt id to) m (key_error id))
      | inr (current, p) ↦
          elim (Bool-cases
            (can_transition context_window_transitions current.context_window_state to)) [
              | inl q ↦
                  rw (p, q, transition_context_window, Conversations.window_found)
                    (conversation_published (WindowAt id to) m env _ _
                      (conversation_id_found id m.store current p, refl))
              | inr q ↦
                  rw (p, q, transition_context_window, Conversations.window_found)
                    ((refl, refl), refl)
            ]
    ]

create_for-Answers :
    (env : Env) (session : SessionRecord) (id : ℕ) (parent : Option ℕ) (window : ContextWindowState)
    (m : Manager)
    → session.session_id ≡ id
    → Answer (IsNewOf id env.fresh_id) m (Conversations.create_for env session parent window m)
create_for-Answers env session id parent window m known =
    elim (Option-cases (Conversations.parent_refusal session parent m.store)) [
      | inr (e, p) ↦
          rw (p, Conversations.create_for) (refused_at_once (IsNewOf id env.fresh_id) m e)
      | inl p ↦
          let conversation : ConversationRecord =
            Conversations.new_conversation env session parent window in
          let updated : SessionRecord = record session {
            current_conversation_id = some env.fresh_id;
            updated_at = env.now;
          } in
          rw (p, Conversations.create_for)
            (persist_publish-Answer (IsNewOf id env.fresh_id) m env
              (transaction (save_conversation conversation then save_session updated)) _
              conversation
              (Writes-map (λ t. IsConversation conversation t × IsSession updated t)
                (IsNewOf id env.fresh_id conversation) m.store _
                (λ t h. (h.0, known, (refl, refl), (updated, rw⁻¹ known h.1, refl)))
                (transaction-Writes conversation updated m.store)))
    ]

create_conversation-Answers :
    (env : Env) (id : ℕ) (parent : Option ℕ) (window : ContextWindowState) (m : Manager)
    → Answers env (creates_conversation id parent window) m
unfolding create_conversation
create_conversation-Answers env id parent window m = elim (Option-cases (get_session id m.store)) [
  | inl p ↦ rw (p, create_conversation) (refused_at_once (IsNewOf id env.fresh_id) m (key_error id))
  | inr (session, p) ↦
      rw (p, create_conversation)
        (create_for-Answers env session id parent window m (session_id_found id m.store session p))
]

-- A method that returns gives the record that is now stored, under the identifier and with the status or the
-- window state that were asked for; a new conversation is stored together with the session that points to it.
-- A method that raises leaves every row and the events as they were, unless it is the bus that failed: then
-- the events are as they were.
pub perform-Answers : (env : Env) (method : Method) (m : Manager) → Answers env method m
perform-Answers env (creates_session goal message user budget auto) m =
    create_session-Answers env goal message user budget auto m
perform-Answers env (moves_session id to reason us) m =
    transition_session-Answers env id to reason us m
perform-Answers env (updates_session id us) m = update_session-Answers env id us m
perform-Answers env (creates_conversation id parent window) m =
    create_conversation-Answers env id parent window m
perform-Answers env (moves_conversation id to reason us) m =
    transition_conversation-Answers env id to reason us m
perform-Answers env (updates_conversation id us) m = update_conversation-Answers env id us m
perform-Answers env (interrupts_conversation id reason) m =
    interrupt_conversation-Answers env id reason m
perform-Answers env (moves_window id to reason) m =
    transition_context_window-Answers env id to reason m
