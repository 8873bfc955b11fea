-- ===== src/Tests/Lifecycle.antt =====
-- The lifecycle manager at concrete inputs.
use agentic_local_app.Persistence.Store.Refines.{
  Write, saves_conversation, saves_session, Refines, run_writes, transaction-Refines,
}
use agentic_local_app.Base.{ℕ, ◌≡◌, refl, true, false, none, some, List, [], ◌∷◌, ◌↔◌}
use agentic_local_app.Domain.States.{SessionState, ConversationState, ContextWindowState}
use agentic_local_app.Domain.Values.{session_state_enum, conversation_state_enum}
use agentic_local_app.Persistence.Records.{SessionBudget, SessionRecord, ConversationRecord}
use agentic_local_app.Persistence.Store.{
  get_session, get_conversation, save_session, save_conversation, transaction,
}
use agentic_local_app.Lifecycle.{Manager, Env}
use agentic_local_app.Lifecycle.Sessions.{transition_session}
use agentic_local_app.Lifecycle.Conversations.{
  new_conversation, interrupt_conversation, commit_conversation_transition,
}
use agentic_local_app.Lifecycle.History.{
  Method, creates_conversation, moves_session, interrupts_conversation, perform_all, AreFresh,
  SessionReaches, ConversationReaches, history-SessionReaches, history-ConversationReaches,
}
use agentic_local_app.Lifecycle.Branches.Answers.{Answers}
use agentic_local_app.Lifecycle.Branches.ConversationAnswers.{perform-Answers}
use agentic_local_app.Lifecycle.Branches.Accepted.{
  returns, transition_session-returns, MayMove, GoesThrough,
}

abbrev budget : SessionBudget
budget = record { max_cycles = 10; max_plans = 20; max_total_duration_ms = 60000 }

abbrev env : ℕ → Env
env id = record { now = 500; fresh_id = id; bus_accepts = true }

abbrev session : SessionRecord
session = record {
  session_id = 1;
  status = SessionState.running;
  goal = 40;
  user_message = 41;
  user_id = 42;
  auto_close_on_final_answer = true;
  budget = budget;
  consumed_cycles = 0;
  consumed_plans = 0;
  rotations_count = 0;
  current_conversation_id = some 2;
  final_answer = none;
  last_failure_id = none;
  started_at = some 100;
  ended_at = none;
  interrupted_at = none;
  created_at = 100;
  updated_at = 100;
}

abbrev conversation : ConversationRecord
conversation = record (new_conversation (env 2) session none ContextWindowState.healthy) {
  status = ConversationState.running_plan;
}

abbrev manager : ConversationRecord → Manager
manager c = record {
  store = record {
    sessions = session ∷ [];
    conversations = c ∷ [];
    fail_next_write = false;
    closed = false;
  };
  events = [];
}

-- The conversation is interrupted, the session is paused, and a new conversation is created.
abbrev calls : List (Env × Method)
calls =
    (env 3, interrupts_conversation 2 9)
    ∷ (env 4, moves_session 1 SessionState.paused (some 9) [])
    ∷ (env 5, creates_conversation 1 (some 2) ContextWindowState.healthy)
    ∷ []

fresh_calls : AreFresh calls (manager conversation)
unfolding get_session get_conversation save_session save_conversation transition_session
    interrupt_conversation commit_conversation_transition
fresh_calls = ((refl, refl), ((refl, refl), ((refl, refl), tt)))

session_stored : get_session 1 (manager conversation).store ≡ some session
unfolding get_session
session_stored = refl

conversation_stored :
    (c : ConversationRecord) → c.conversation_id ≡ 2 → get_conversation 2 (manager c).store ≡ some c
unfolding get_conversation
conversation_stored c e = rw e refl

history-SessionReaches_example :
    SessionReaches session (get_session 1 (perform_all calls (manager conversation)).store)
history-SessionReaches_example =
    history-SessionReaches calls (manager conversation) 1 session fresh_calls session_stored

history-ConversationReaches_example :
    ConversationReaches conversation
      (get_conversation 2 (perform_all calls (manager conversation)).store)
history-ConversationReaches_example =
    history-ConversationReaches calls (manager conversation) 2 conversation fresh_calls
      (conversation_stored conversation refl)

perform-Answers_example : Answers (env 3) (interrupts_conversation 2 9) (manager conversation)
perform-Answers_example =
    perform-Answers (env 3) (interrupts_conversation 2 9) (manager conversation)

-- A session that closed itself, whose conversation waits for the user.
abbrev closed_session : SessionRecord
closed_session = record session { status = SessionState.completed }

abbrev waiting : Manager
waiting = record {
  store = record {
    sessions = closed_session ∷ [];
    conversations = record conversation { status = ConversationState.waiting_user } ∷ [];
    fail_next_write = false;
    closed = false;
  };
  events = [];
}

transition_session-returns_example :
    (returns (transition_session (env 3) 1 SessionState.running none [] waiting) ≡ true) ↔ (
      (current : SessionRecord) × (get_session 1 waiting.store ≡ some current)
      × MayMove SessionState.running current waiting.store
      × GoesThrough (env 3) [] waiting)
transition_session-returns_example =
    transition_session-returns (env 3) 1 SessionState.running none [] waiting

abbrev writes : List Write
writes = saves_conversation conversation ∷ saves_session session ∷ []

transaction-Refines_example :
    Refines writes
      (manager conversation).store
      (transaction (run_writes writes) (manager conversation).store)
transaction-Refines_example = transaction-Refines writes (manager conversation).store
