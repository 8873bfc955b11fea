-- ===== src/Lifecycle/Sessions.antt =====
-- src/agentic_local_app/lifecycle/conversation_lifecycle.py: the sessions.
use agentic_local_app.Base.{
  ℕ, Bool, true, false, not, ◌&&◌, ◌||◌, Option, none, some, List, [], ◌∷◌, if◌then◌else◌, ◌is◌,
  is_some, any, err,
}
use agentic_local_app.Domain.States.{SessionState, ConversationState}
use agentic_local_app.Domain.Values.{session_state_enum, conversation_state_enum}
use agentic_local_app.Domain.Transitions.{session_transitions, assert_transition}
use agentic_local_app.Persistence.Records.{SessionBudget, SessionRecord, ConversationRecord}
use agentic_local_app.Persistence.Store.{Store, save_session, get_session, get_conversation}
use agentic_local_app.Lifecycle.{
  session_created, session_state_changed, LifecycleError, key_error, managed_field, unknown_field,
  invalid_session, Manager, Env, Call, persist_publish, persist,
}

-- One keyword of `**updates`: a plain field, one of `_SESSION_MANAGED_FIELDS` (`status` to
-- `updated_at`), or a name or a value that the record's validation rejects.
pub data SessionUpdate : Type 0 where
  goal user_message user_id consumed_cycles consumed_plans rotations_count : ℕ → SessionUpdate
  auto_close_on_final_answer : Bool → SessionUpdate
  budget : SessionBudget → SessionUpdate
  current_conversation_id final_answer last_failure_id started_at ended_at interrupted_at :
      Option ℕ → SessionUpdate
  status : SessionState → SessionUpdate
  session_id created_at updated_at : ℕ → SessionUpdate
  invalid : SessionUpdate

abbrev pub is_managed : SessionUpdate → Bool
is_managed (status x) = true
is_managed (session_id x) = true
is_managed (created_at x) = true
is_managed (updated_at x) = true
is_managed _ = false

abbrev pub is_invalid : SessionUpdate → Bool
is_invalid invalid = true
is_invalid _ = false

abbrev sets_started : SessionUpdate → Bool
sets_started (started_at t) = true
sets_started _ = false

abbrev sets_ended : SessionUpdate → Bool
sets_ended (ended_at t) = true
sets_ended _ = false

abbrev sets_interrupted : SessionUpdate → Bool
sets_interrupted (interrupted_at t) = true
sets_interrupted _ = false

abbrev pub set_field : SessionUpdate → SessionRecord → SessionRecord
set_field (goal x) s = record s { goal = x }
set_field (user_message x) s = record s { user_message = x }
set_field (user_id x) s = record s { user_id = x }
set_field (consumed_cycles x) s = record s { consumed_cycles = x }
set_field (consumed_plans x) s = record s { consumed_plans = x }
set_field (rotations_count x) s = record s { rotations_count = x }
set_field (auto_close_on_final_answer x) s = record s { auto_close_on_final_answer = x }
set_field (budget x) s = record s { budget = x }
set_field (current_conversation_id x) s = record s { current_conversation_id = x }
set_field (final_answer x) s = record s { final_answer = x }
set_field (last_failure_id x) s = record s { last_failure_id = x }
set_field (started_at x) s = record s { started_at = x }
set_field (ended_at x) s = record s { ended_at = x }
set_field (interrupted_at x) s = record s { interrupted_at = x }
set_field (status x) s = record s { status = x }
set_field (session_id x) s = record s { session_id = x }
set_field (created_at x) s = record s { created_at = x }
set_field (updated_at x) s = record s { updated_at = x }
set_field invalid s = s

-- `_apply`: the validated record, the updates one after the other.
abbrev pub with_updates : List SessionUpdate → SessionRecord → SessionRecord
with_updates [] s = s
with_updates (u ∷ us) s = with_updates us (set_field u s)

-- `create_session`
unfoldable pub create_session :
    Env → ℕ → ℕ → ℕ → SessionBudget → Bool → Manager → Call SessionRecord
unfolding save_session
create_session env aim message user allowance auto_close m =
    let session : SessionRecord = record {
      session_id = env.fresh_id;
      status = SessionState.ready;
      goal = aim;
      user_message = message;
      user_id = user;
      auto_close_on_final_answer = auto_close;
      budget = allowance;
      consumed_cycles = 0;
      consumed_plans = 0;
      rotations_count = 0;
      current_conversation_id = none;
      final_answer = none;
      last_failure_id = none;
      started_at = none;
      ended_at = none;
      interrupted_at = none;
      created_at = env.now;
      updated_at = env.now;
    } in
    persist_publish env (save_session session) (session_created env.fresh_id aim allowance) session
      m

-- `_conversation_waits_for_user`
abbrev pub waits_for_user : Option ConversationRecord → Bool
waits_for_user none = false
waits_for_user (some c) = c.status is ConversationState.waiting_user

abbrev pub current_conversation : Option ℕ → Store → Option ConversationRecord
current_conversation none s = none
current_conversation (some id) s = get_conversation id s

unfoldable pub conversation_waits_for_user : SessionRecord → Store → Bool
unfolding get_conversation
conversation_waits_for_user session s =
    waits_for_user (current_conversation session.current_conversation_id s)

-- The timestamps that a transition sets where the updates do not.
abbrev pub stamped :
    ℕ → SessionState → List SessionUpdate → SessionRecord → SessionRecord → SessionRecord
stamped now to updates current s =
    if to is SessionState.running
    then (let s' =
          if not (is_some current.started_at) && not (any sets_started updates)
          then record s { started_at = some now }
          else s in
        if any sets_ended updates then s' else record s' { ended_at = none })
    else if to is SessionState.completed || to is SessionState.failed
    then (if any sets_ended updates then s else record s { ended_at = some now })
    else if to is SessionState.interrupting
    then (if any sets_interrupted updates then s else record s { interrupted_at = some now })
    else s

-- The record that `transition_session` writes.
abbrev pub transitioned : ℕ → SessionState → List SessionUpdate → SessionRecord → SessionRecord
transitioned now to updates current =
    stamped now to updates current
      (record (with_updates updates current) { status = to; updated_at = now })

-- The follow-up to an auto-closed session, which is refused.
abbrev pub is_closed_follow_up : SessionRecord → SessionState → Store → Bool
is_closed_follow_up current to s =
    current.status is SessionState.completed
    && to is SessionState.running
    && current.auto_close_on_final_answer
    && not (conversation_waits_for_user current s)

-- The checks of `transition_session`, in order.
abbrev pub session_refusal :
    SessionRecord → SessionState → List SessionUpdate → Store → Option LifecycleError
session_refusal current to updates s =
    if any is_managed updates
    then some managed_field
    else elim (assert_transition session_transitions current.status to) [
      | some e ↦ some (invalid_session e)
      | none ↦
          if is_closed_follow_up current to s
          then some (invalid_session (record { current = current.status; target = to }))
          else if any is_invalid updates
          then some unknown_field
          else none
    ]

abbrev pub transition_found :
    Env
    → SessionRecord
    → SessionState
    → Option ℕ
    → List SessionUpdate
    → Manager
    → Call SessionRecord
transition_found env current to reason updates m =
    elim (session_refusal current to updates m.store) [
      | some e ↦ (m, err e)
      | none ↦
          let session = transitioned env.now to updates current in
          persist_publish env (save_session session)
            (session_state_changed current.session_id current.status to reason) session m
    ]

-- `transition_session`
unfoldable pub transition_session :
    Env → ℕ → SessionState → Option ℕ → List SessionUpdate → Manager → Call SessionRecord
unfolding get_session conversation_waits_for_user save_session
transition_session env id to reason updates m = elim (get_session id m.store) [
  | none ↦ (m, err (key_error id))
  | some current ↦ transition_found env current to reason updates m
]

-- `update_session`
unfoldable pub update_session : Env → ℕ → List SessionUpdate → Manager → Call SessionRecord
unfolding get_session save_session
update_session env id updates m = elim (get_session id m.store) [
  | none ↦ (m, err (key_error id))
  | some current ↦
      let session = record (with_updates updates current) { updated_at = env.now } in
      if any is_managed updates
      then (m, err managed_field)
      else if any is_invalid updates
      then (m, err unknown_field)
      else persist (save_session session) session m
]
