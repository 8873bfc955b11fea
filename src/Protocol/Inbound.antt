-- ===== src/Protocol/Inbound.antt =====
-- src/agentic_local_app/protocol/adapter.py, messages.py: `parse_inbound` and its checks. A raw message and a
-- content are of types that the JSON library gives, and the passes of the schema library over them are the
-- fields of `Schema`; texts are numbers.
pub mod Content
pub mod Plans
pub mod Accepted
use agentic_local_app.Base.{ℕ, Bool, Option, List, Result, ok, err}
use agentic_local_app.Domain.States.{MessageType, PlanType, TaskType, OutputStream, ExecutionPolicy}

-- `TaskMessage`
pub record TaskMessage : Type 0 where
  pub task_id : ℕ
  pub type : TaskType
  pub cmd : Option ℕ
  pub critical : Option Bool
  pub continue_on_error : Option Bool
  pub stop_plan_on_failure : Option Bool
  pub stop_plan_on_success : Option Bool
  pub depends_on : List ℕ
  pub resource_lock : Option ℕ
  pub max_output_bytes : Option ℕ
  pub timeout_ms : Option ℕ
  pub ref_task_id : Option ℕ
  pub stream : Option OutputStream
  pub byte_offset : Option ℕ
  pub max_bytes : Option ℕ

-- `PlanContent`; the state summary is opaque.
pub record PlanContent : Type 0 where
  pub plan_id : ℕ
  pub objective : ℕ
  pub execution_policy : ExecutionPolicy
  pub max_parallel_workers : Option ℕ
  pub default_max_output_bytes : Option ℕ
  pub default_continue_on_error : Option Bool
  pub state_summary : Option ℕ
  pub tasks : List TaskMessage

pub record FinalAnswerContent : Type 0 where
  pub status : ℕ
  pub diagnosis : ℕ

pub record UserResponseContent : Type 0 where
  pub body : ℕ
  pub expects_reply : Bool

pub record ContextResumeAckContent : Type 0 where
  pub original_conversation_id : ℕ
  pub acknowledged : Bool

-- One entry of the errors of the schema library.
pub record SchemaFault : Type 0 where
  pub loc : ℕ
  pub kind : ℕ

pub record Envelope (Content : Type 0) : Type 0 where
  pub type : MessageType
  pub conversation_id : ℕ
  pub message_id : ℕ
  pub content : Content

-- `ProtocolError`: the code, with the details that name something.
pub data ProtocolError : Type 0 where
  empty_reply : ProtocolError
  unexpected_extra_message : ℕ → ProtocolError
  invalid_envelope : List SchemaFault → ProtocolError
  invalid_content : MessageType → ℕ → List SchemaFault → ProtocolError
  conversation_mismatch : ℕ → ℕ → ProtocolError
  duplicate_message_id : ℕ → ProtocolError
  system_error_not_allowed_inbound : ℕ → ProtocolError
  unexpected_message_type : MessageType → Bool → ℕ → ProtocolError
  duplicate_plan_id : ℕ → ProtocolError
  duplicate_task_id_in_plan duplicate_task_id_in_session self_dependency : ℕ → ProtocolError
  unknown_dependency : ℕ → ℕ → ProtocolError
  chunk_ref_unknown : ℕ → Option ℕ → ProtocolError
  dependency_cycle : List ℕ → ProtocolError
  forward_dependency_in_sequential : ℕ → ℕ → ProtocolError
  state_summary_too_large user_response_too_large : ℕ → ℕ → ProtocolError
  ack_wrong_original : ℕ → ℕ → ProtocolError
  ack_not_acknowledged : ℕ → ProtocolError

-- The two passes of the schema library over one model: the default one reads a value or lists its faults, the
-- strict one lists the faults of the canonical JSON.
pub record Model (Content A : Type 0) : Type 0 where
  pub lenient : Content → Result (List SchemaFault) A
  pub strict : Content → List SchemaFault

pub record Schema (Raw Content : Type 0) : Type 0 where
  pub envelope : Raw → Result (List SchemaFault) (Envelope Content)
  pub plan : Model Content PlanContent
  pub final_answer : Model Content FinalAnswerContent
  pub user_response : Model Content UserResponseContent
  pub ack : Model Content ContextResumeAckContent
  pub size_bytes : Raw → ℕ
  pub text_bytes : ℕ → ℕ
  pub summary_bytes : ℕ → ℕ
