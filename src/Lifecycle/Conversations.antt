-- ===== src/Lifecycle/Conversations.antt =====
-- src/agentic_local_app/lifecycle/conversation_lifecycle.py: the conversations.
use agentic_local_app.Base.{
  ℕ, Bool, true, false, not, Option, none, some, List, [], ◌∷◌, if◌then◌else◌, ◌==◌, ◌is◌, is_in,
  any, err,
}
use agentic_local_app.Domain.States.{ConversationState, ContextWindowState}
use agentic_local_app.Domain.Values.{conversation_state_enum, context_window_state_enum}
use agentic_local_app.Domain.Transitions.{
  conversation_transitions, context_window_transitions, active_conversation_states,
  assert_transition,
}
use agentic_local_app.Persistence.Records.{SessionRecord, ConversationRecord}
use agentic_local_app.Persistence.Store.{
  Store, ◌then◌, save_session, save_conversation, get_session, get_conversation, transaction,
}
use agentic_local_app.Lifecycle.{
  conversation_created, conversation_state_changed, context_window_state_changed, LifecycleError,
  key_error, managed_field, unknown_field, foreign_parent, invalid_conversation, invalid_window,
  Manager, Env, Call, persist_publish, persist,
}

-- One keyword of `**updates`: a plain field, one of `_CONVERSATION_MANAGED_FIELDS` (`status` to
-- `updated_at`), or a name or a value that the record's validation rejects.
pub data ConversationUpdate : Type 0 where
  context_bytes protocol_error_count last_model_response_state : ℕ → ConversationUpdate
  auto_close_on_final_answer final_answer_received : Bool → ConversationUpdate
  parent_conversation_id remote_conversation_id current_cycle_id current_plan_id
        last_completed_plan_id last_outbound_message_id last_inbound_message_id get_cursor
        closure_reason interrupted_at :
      Option ℕ → ConversationUpdate
  status : ConversationState → ConversationUpdate
  context_window_state : ContextWindowState → ConversationUpdate
  conversation_id session_id created_at updated_at : ℕ → ConversationUpdate
  invalid : ConversationUpdate

abbrev pub is_managed : ConversationUpdate → Bool
is_managed (status x) = true
is_managed (context_window_state x) = true
is_managed (conversation_id x) = true
is_managed (session_id x) = true
is_managed (created_at x) = true
is_managed (updated_at x) = true
is_managed _ = false

abbrev pub is_invalid : ConversationUpdate → Bool
is_invalid invalid = true
is_invalid _ = false

abbrev sets_interrupted : ConversationUpdate → Bool
sets_interrupted (interrupted_at t) = true
sets_interrupted _ = false

abbrev pub set_field : ConversationUpdate → ConversationRecord → ConversationRecord
set_field (context_bytes x) c = record c { context_bytes = x }
set_field (protocol_error_count x) c = record c { protocol_error_count = x }
set_field (last_model_response_state x) c = record c { last_model_response_state = x }
set_field (auto_close_on_final_answer x) c = record c { auto_close_on_final_answer = x }
set_field (final_answer_received x) c = record c { final_answer_received = x }
set_field (parent_conversation_id x) c = record c { parent_conversation_id = x }
set_field (remote_conversation_id x) c = record c { remote_conversation_id = x }
set_field (current_cycle_id x) c = record c { current_cycle_id = x }
set_field (current_plan_id x) c = record c { current_plan_id = x }
set_field (last_completed_plan_id x) c = record c { last_completed_plan_id = x }
set_field (last_outbound_message_id x) c = record c { last_outbound_message_id = x }
set_field (last_inbound_message_id x) c = record c { last_inbound_message_id = x }
set_field (get_cursor x) c = record c { get_cursor = x }
set_field (closure_reason x) c = record c { closure_reason = x }
set_field (interrupted_at x) c = record c { interrupted_at = x }
set_field (status x) c = record c { status = x }
set_field (context_window_state x) c = record c { context_window_state = x }
set_field (conversation_id x) c = record c { conversation_id = x }
set_field (session_id x) c = record c { session_id = x }
set_field (created_at x) c = record c { created_at = x }
set_field (updated_at x) c = record c { updated_at = x }
set_field invalid c = c

abbrev pub with_updates : List ConversationUpdate → ConversationRecord → ConversationRecord
with_updates [] c = c
with_updates (u ∷ us) c = with_updates us (set_field u c)

-- The record that `create_conversation` writes.
abbrev pub new_conversation :
    Env → SessionRecord → Option ℕ → ContextWindowState → ConversationRecord
new_conversation env session parent window = record {
  conversation_id = env.fresh_id;
  session_id = session.session_id;
  parent_conversation_id = parent;
  remote_conversation_id = none;
  status = ConversationState.new;
  auto_close_on_final_answer = session.auto_close_on_final_answer;
  context_window_state = window;
  context_bytes = 0;
  protocol_error_count = 0;
  last_model_response_state = 0;
  current_cycle_id = none;
  current_plan_id = none;
  last_completed_plan_id = none;
  final_answer_received = false;
  last_outbound_message_id = none;
  last_inbound_message_id = none;
  get_cursor = none;
  session_budget = session.budget;
  closure_reason = none;
  interrupted_at = none;
  created_at = env.now;
  updated_at = env.now;
}

-- The check of the parent.
abbrev pub parent_refusal : SessionRecord → Option ℕ → Store → Option LifecycleError
parent_refusal session none s = none
parent_refusal session (some id) s = elim (get_conversation id s) [
  | none ↦ some (key_error id)
  | some parent ↦ if parent.session_id == session.session_id then none else some foreign_parent
]

abbrev pub create_for :
    Env → SessionRecord → Option ℕ → ContextWindowState → Manager → Call ConversationRecord
create_for env session parent window m = elim (parent_refusal session parent m.store) [
  | some e ↦ (m, err e)
  | none ↦
      let conversation = new_conversation env session parent window in
      let updated = record session {
        current_conversation_id = some env.fresh_id;
        updated_at = env.now;
      } in
      persist_publish env (transaction (save_conversation conversation then save_session updated))
        (conversation_created session.session_id env.fresh_id parent window) conversation m
]

-- `create_conversation`
unfoldable pub create_conversation :
    Env → ℕ → Option ℕ → ContextWindowState → Manager → Call ConversationRecord
unfolding get_session get_conversation save_session save_conversation transaction
create_conversation env id parent window m = elim (get_session id m.store) [
  | none ↦ (m, err (key_error id))
  | some session ↦ create_for env session parent window m
]

abbrev pub stamped :
    ℕ → ConversationState → List ConversationUpdate → ConversationRecord → ConversationRecord
stamped now to updates c =
    if to is ConversationState.interrupted
    then (if any sets_interrupted updates then c else record c { interrupted_at = some now })
    else c

-- The record that a transition writes.
abbrev pub transitioned :
    ℕ → ConversationState → List ConversationUpdate → ConversationRecord → ConversationRecord
transitioned now to updates current =
    stamped now to updates (record (with_updates updates current) { status = to; updated_at = now })

-- `_commit_conversation_transition`
unfoldable pub commit_conversation_transition :
    Env
    → ConversationRecord
    → ConversationState
    → Option ℕ
    → List ConversationUpdate
    → Manager
    → Call ConversationRecord
unfolding save_conversation
commit_conversation_transition env current to reason updates m =
    let conversation = transitioned env.now to updates current in
    if any is_invalid updates
    then (m, err unknown_field)
    else persist_publish env (save_conversation conversation)
        (conversation_state_changed current.session_id current.conversation_id current.status to
          reason)
        conversation m

abbrev pub transition_found :
    Env
    → ConversationRecord
    → ConversationState
    → Option ℕ
    → List ConversationUpdate
    → Manager
    → Call ConversationRecord
transition_found env current to reason updates m =
    if any is_managed updates
    then (m, err managed_field)
    else elim (assert_transition conversation_transitions current.status to) [
      | some e ↦ (m, err (invalid_conversation e))
      | none ↦ commit_conversation_transition env current to reason updates m
    ]

-- `transition_conversation`
unfoldable pub transition_conversation :
    Env
    → ℕ
    → ConversationState
    → Option ℕ
    → List ConversationUpdate
    → Manager
    → Call ConversationRecord
unfolding get_conversation commit_conversation_transition
transition_conversation env id to reason updates m = elim (get_conversation id m.store) [
  | none ↦ (m, err (key_error id))
  | some current ↦ transition_found env current to reason updates m
]

-- `update_conversation`
unfoldable pub update_conversation :
    Env → ℕ → List ConversationUpdate → Manager → Call ConversationRecord
unfolding get_conversation save_conversation
update_conversation env id updates m = elim (get_conversation id m.store) [
  | none ↦ (m, err (key_error id))
  | some current ↦
      let conversation = record (with_updates updates current) { updated_at = env.now } in
      if any is_managed updates
      then (m, err managed_field)
      else if any is_invalid updates
      then (m, err unknown_field)
      else persist (save_conversation conversation) conversation m
]

abbrev pub interrupt_found : Env → ConversationRecord → ℕ → Manager → Call ConversationRecord
interrupt_found env current reason m =
    if not (is_in current.status active_conversation_states)
    then (
      m,
      err (
          invalid_conversation
            (record { current = current.status; target = ConversationState.interrupted })),
    )
    else elim (assert_transition conversation_transitions current.status
        ConversationState.interrupted) [
          | some e ↦ (m, err (invalid_conversation e))
          | none ↦
              commit_conversation_transition env current ConversationState.interrupted (some reason)
                [] m
        ]

-- `interrupt_conversation`
unfoldable pub interrupt_conversation : Env → ℕ → ℕ → Manager → Call ConversationRecord
unfolding get_conversation commit_conversation_transition
interrupt_conversation env id reason m = elim (get_conversation id m.store) [
  | none ↦ (m, err (key_error id))
  | some current ↦ interrupt_found env current reason m
]

abbrev pub window_found :
    Env → ConversationRecord → ContextWindowState → Option ℕ → Manager → Call ConversationRecord
window_found env current to reason m =
    elim (assert_transition context_window_transitions current.context_window_state to) [
      | some e ↦ (m, err (invalid_window e))
      | none ↦
          let conversation = record current { context_window_state = to; updated_at = env.now } in
          persist_publish env (save_conversation conversation)
            (context_window_state_changed current.session_id current.conversation_id
              current.context_window_state to reason current.context_bytes)
            conversation m
    ]

-- `transition_context_window`
unfoldable pub transition_context_window :
    Env → ℕ → ContextWindowState → Option ℕ → Manager → Call ConversationRecord
unfolding get_conversation save_conversation
transition_context_window env id to reason m = elim (get_conversation id m.store) [
  | none ↦ (m, err (key_error id))
  | some current ↦ window_found env current to reason m
]
