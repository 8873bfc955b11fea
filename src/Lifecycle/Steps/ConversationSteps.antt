-- ===== src/Lifecycle/Steps/ConversationSteps.antt =====
-- One call of the manager of src/agentic_local_app/lifecycle/conversation_lifecycle.py: its conversations.
use agentic_local_app.Base.{
  ℕ, ◌≡◌, refl, ◌∙◌, true, false, Option, some, List, [], ◌∷◌, arith, inl, inr, any, err,
  Bool-cases, Option-cases, is_in,
}
use agentic_local_app.Domain.States.{ConversationState, ContextWindowState}
use agentic_local_app.Domain.Values.{
  session_state_enum, conversation_state_enum, context_window_state_enum,
}
use agentic_local_app.Domain.Transitions.{
  conversation_transitions, can_transition, active_conversation_states, context_window_transitions,
}
use agentic_local_app.Persistence.Records.{ConversationRecord}
use agentic_local_app.Persistence.Store.{Store, get_conversation, save_conversation}
use agentic_local_app.Lifecycle.{Manager, Env, Call, unknown_field, managed_field, persist}
use agentic_local_app.Lifecycle.Conversations
use agentic_local_app.Lifecycle.Conversations.{
  ConversationUpdate, create_conversation, transition_conversation, update_conversation,
  interrupt_conversation, transition_context_window, commit_conversation_transition,
}
use agentic_local_app.Lifecycle.Steps.{
  ConversationMoves, StoreMoves, StoreMoves-refl, persist_publish-store, either,
  save_conversation-StoreMoves, persist-store, checked-Moved, found_conversation, neither,
}

-- A conversation that is written in the place of one that was found.
rewritten :
    (st : Store) (current next : ConversationRecord)
    → get_conversation current.conversation_id st ≡ some current
    → next.conversation_id ≡ current.conversation_id
    → ConversationMoves (some current) (some next)
    → ConversationMoves (get_conversation next.conversation_id st) (some next)
rewritten st current next found same h = rw (same, found) h

abbrev pub Keeps : ConversationRecord → ConversationRecord → Type 0
Keeps c d =
    (d.conversation_id ≡ c.conversation_id)
    × (d.status ≡ c.status)
    × (d.context_window_state ≡ c.context_window_state)
    × (d.session_id ≡ c.session_id)

set_field-conversation :
    (u : ConversationUpdate) (c : ConversationRecord)
    → Conversations.is_managed u ≡ false
    → Keeps c (Conversations.set_field u c)
set_field-conversation u c h = ground (arith, h)

pub with_updates-conversation :
    (us : List ConversationUpdate) (c : ConversationRecord)
    → any Conversations.is_managed us ≡ false
    → Keeps c (Conversations.with_updates us c)
with_updates-conversation [] c h = (refl, refl, refl, refl)
with_updates-conversation (u ∷ us) c h =
    let (plain, rest) = neither (Conversations.is_managed u) (any Conversations.is_managed us) h in
    let (i, s, w, o) = set_field-conversation u c plain in
    let (i', s', w', o') = with_updates-conversation us (Conversations.set_field u c) rest in
    (i' ∙ i, s' ∙ s, w' ∙ w, o' ∙ o)

pub transitioned-conversation :
    (now : ℕ) (to : ConversationState) (us : List ConversationUpdate) (c : ConversationRecord)
    → any Conversations.is_managed us ≡ false
    → let d = Conversations.transitioned now to us c in
      (d.conversation_id ≡ c.conversation_id)
      × (d.status ≡ to)
      × (d.context_window_state ≡ c.context_window_state)
      × (d.session_id ≡ c.session_id)
transitioned-conversation now to us c h = ground (arith, with_updates-conversation us c h)

commit-Moved :
    (env : Env) (current : ConversationRecord) (to : ConversationState) (reason : Option ℕ)
    (us : List ConversationUpdate) (m : Manager)
    → get_conversation current.conversation_id m.store ≡ some current
    → can_transition conversation_transitions current.status to ≡ true
    → any Conversations.is_managed us ≡ false
    → StoreMoves m.store (commit_conversation_transition env current to reason us m).0.store
unfolding commit_conversation_transition
commit-Moved env current to reason us m found allowed plain =
    let next : ConversationRecord = Conversations.transitioned env.now to us current in
    let (same, status, window, owner) = transitioned-conversation env.now to us current plain in
    either (λ (x : Call ConversationRecord). StoreMoves m.store x.0.store) false
      (any Conversations.is_invalid us) (m, err unknown_field) (m, err unknown_field) _
      (StoreMoves-refl m.store) (StoreMoves-refl m.store)
      (rw persist_publish-store (
        save_conversation-StoreMoves next m.store
          (rewritten m.store current next found same (inr (rw status allowed), inl window, owner))))

transition_found-Moved :
    (env : Env) (current : ConversationRecord) (to : ConversationState) (reason : Option ℕ)
    (us : List ConversationUpdate) (m : Manager)
    → get_conversation current.conversation_id m.store ≡ some current
    → StoreMoves m.store (Conversations.transition_found env current to reason us m).0.store
transition_found-Moved env current to reason us m found =
    elim (Bool-cases (any Conversations.is_managed us)) [
      | inl e ↦ rw (e, Conversations.transition_found) (StoreMoves-refl m.store)
      | inr e ↦ elim (Bool-cases (can_transition conversation_transitions current.status to)) [
        | inl p ↦
            rw (e, p, Conversations.transition_found)
              (commit-Moved env current to reason us m found p e)
        | inr p ↦ rw (e, p, Conversations.transition_found) (StoreMoves-refl m.store)
      ]
    ]

pub transition_conversation-Moved :
    (env : Env) (id : ℕ) (to : ConversationState) (reason : Option ℕ) (us : List ConversationUpdate)
    (m : Manager)
    → StoreMoves m.store (transition_conversation env id to reason us m).0.store
unfolding transition_conversation
transition_conversation-Moved env id to reason us m =
    elim (Option-cases (get_conversation id m.store)) [
      | inl p ↦ rw (p, transition_conversation) (StoreMoves-refl m.store)
      | inr (current, p) ↦
          rw (p, transition_conversation)
            (transition_found-Moved env current to reason us m
              (found_conversation id m.store current p))
    ]

pub update_conversation-Moved :
    (env : Env) (id : ℕ) (us : List ConversationUpdate) (m : Manager)
    → StoreMoves m.store (update_conversation env id us m).0.store
unfolding update_conversation
update_conversation-Moved env id us m = elim (Option-cases (get_conversation id m.store)) [
  | inl p ↦ rw (p, update_conversation) (StoreMoves-refl m.store)
  | inr (current, p) ↦
      let next : ConversationRecord = record (Conversations.with_updates us current) {
        updated_at = env.now;
      } in
      rw (p, update_conversation)
        (checked-Moved m _ _ managed_field unknown_field (persist (save_conversation next) next m)
          (λ plain.
            let (same, status, window, owner) = with_updates-conversation us current plain in
            rw persist-store (
              save_conversation-StoreMoves next m.store (
                rewritten m.store current next (found_conversation id m.store current p) same
                  (inl status, inl window, owner)))))
]

interrupt_found-Moved :
    (env : Env) (current : ConversationRecord) (reason : ℕ) (m : Manager)
    → get_conversation current.conversation_id m.store ≡ some current
    → StoreMoves m.store (Conversations.interrupt_found env current reason m).0.store
interrupt_found-Moved env current reason m found =
    elim (Bool-cases (is_in current.status active_conversation_states)) [
      | inr e ↦ rw (e, Conversations.interrupt_found) (StoreMoves-refl m.store)
      | inl e ↦
          elim (Bool-cases (
            can_transition conversation_transitions current.status ConversationState.interrupted)) [
              | inl p ↦
                  rw (e, p, Conversations.interrupt_found)
                    (commit-Moved env current ConversationState.interrupted (some reason) [] m found
                      p refl)
              | inr p ↦ rw (e, p, Conversations.interrupt_found) (StoreMoves-refl m.store)
            ]
    ]

pub interrupt_conversation-Moved :
    (env : Env) (id reason : ℕ) (m : Manager)
    → StoreMoves m.store (interrupt_conversation env id reason m).0.store
unfolding interrupt_conversation
interrupt_conversation-Moved env id reason m = elim (Option-cases (get_conversation id m.store)) [
  | inl p ↦ rw (p, interrupt_conversation) (StoreMoves-refl m.store)
  | inr (current, p) ↦
      rw (p, interrupt_conversation)
        (interrupt_found-Moved env current reason m (found_conversation id m.store current p))
]

window_found-Moved :
    (env : Env) (current : ConversationRecord) (to : ContextWindowState) (reason : Option ℕ)
    (m : Manager)
    → get_conversation current.conversation_id m.store ≡ some current
    → StoreMoves m.store (Conversations.window_found env current to reason m).0.store
window_found-Moved env current to reason m found =
    elim (Bool-cases (can_transition context_window_transitions current.context_window_state to)) [
      | inr p ↦ rw (p, Conversations.window_found) (StoreMoves-refl m.store)
      | inl p ↦
          let next : ConversationRecord = record current {
            context_window_state = to;
            updated_at = env.now;
          } in
          rw (p, Conversations.window_found, persist_publish-store)
            (save_conversation-StoreMoves next m.store
              (rewritten m.store current next found refl (inl refl, inr p, refl)))
    ]

pub transition_context_window-Moved :
    (env : Env) (id : ℕ) (to : ContextWindowState) (reason : Option ℕ) (m : Manager)
    → StoreMoves m.store (transition_context_window env id to reason m).0.store
unfolding transition_context_window
transition_context_window-Moved env id to reason m =
    elim (Option-cases (get_conversation id m.store)) [
      | inl p ↦ rw (p, transition_context_window) (StoreMoves-refl m.store)
      | inr (current, p) ↦
          rw (p, transition_context_window)
            (window_found-Moved env current to reason m (found_conversation id m.store current p))
    ]
