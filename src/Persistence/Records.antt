-- ===== src/Persistence/Records.antt =====
-- src/agentic_local_app/domain/models.py: the records of sessions and conversations. Texts and times are
-- numbers; a dictionary that is only carried along is one too.
use agentic_local_app.Base.{ℕ, Bool, Option}
use agentic_local_app.Domain.States.{SessionState, ConversationState, ContextWindowState}

pub record SessionBudget : Type 0 where
  pub max_cycles : ℕ
  pub max_plans : ℕ
  pub max_total_duration_ms : ℕ

pub record SessionRecord : Type 0 where
  pub session_id : ℕ
  pub status : SessionState
  pub goal : ℕ
  pub user_message : ℕ
  pub user_id : ℕ
  pub auto_close_on_final_answer : Bool
  pub budget : SessionBudget
  pub consumed_cycles : ℕ
  pub consumed_plans : ℕ
  pub rotations_count : ℕ
  pub current_conversation_id : Option ℕ
  pub final_answer : Option ℕ
  pub last_failure_id : Option ℕ
  pub started_at : Option ℕ
  pub ended_at : Option ℕ
  pub interrupted_at : Option ℕ
  pub created_at : ℕ
  pub updated_at : ℕ

pub record ConversationRecord : Type 0 where
  pub conversation_id : ℕ
  pub session_id : ℕ
  pub parent_conversation_id : Option ℕ
  pub remote_conversation_id : Option ℕ
  pub status : ConversationState
  pub auto_close_on_final_answer : Bool
  pub context_window_state : ContextWindowState
  pub context_bytes : ℕ
  pub protocol_error_count : ℕ
  pub last_model_response_state : ℕ
  pub current_cycle_id : Option ℕ
  pub current_plan_id : Option ℕ
  pub last_completed_plan_id : Option ℕ
  pub final_answer_received : Bool
  pub last_outbound_message_id : Option ℕ
  pub last_inbound_message_id : Option ℕ
  pub get_cursor : Option ℕ
  pub session_budget : SessionBudget
  pub closure_reason : Option ℕ
  pub interrupted_at : Option ℕ
  pub created_at : ℕ
  pub updated_at : ℕ
