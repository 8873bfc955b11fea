-- ===== src/Domain/Values.antt =====
-- src/agentic_local_app/domain/states.py: the members of each `StrEnum` are compared by value, and
-- `@unique` makes the values of one enumeration distinct, so the position of a member stands for
-- its text.
use agentic_local_app.Base.{ℕ, ◌≡◌, Enum, arith}
use agentic_local_app.Domain.States.{
  SessionState, ConversationState, CycleType, CycleState, PlanType, ExecutionPolicy, PlanState,
  TaskType, TaskState, OutputStream, ContextWindowState, CircuitState, MessageType,
  MessageDirection,
}

abbrev pub session_state_index : SessionState → ℕ
session_state_index SessionState.ready = 0
session_state_index SessionState.running = 1
session_state_index SessionState.interrupting = 2
session_state_index SessionState.completed = 3
session_state_index SessionState.failed = 4
session_state_index SessionState.paused = 5

pub session_state_index_injective :
    (a b : SessionState) → session_state_index a ≡ session_state_index b → a ≡ b
session_state_index_injective a b h = ground arith

instance abbrev pub session_state_enum : Enum SessionState
session_state_enum = record {
  index = session_state_index;
  index_injective = session_state_index_injective;
}

abbrev pub conversation_state_index : ConversationState → ℕ
conversation_state_index ConversationState.new = 0
conversation_state_index ConversationState.active = 1
conversation_state_index ConversationState.waiting_model_response = 2
conversation_state_index ConversationState.running_plan = 3
conversation_state_index ConversationState.waiting_user = 4
conversation_state_index ConversationState.rotating = 5
conversation_state_index ConversationState.interrupted = 6
conversation_state_index ConversationState.completed = 7
conversation_state_index ConversationState.failed = 8
conversation_state_index ConversationState.closed = 9

pub conversation_state_index_injective :
    (a b : ConversationState) → conversation_state_index a ≡ conversation_state_index b → a ≡ b
conversation_state_index_injective a b h = ground arith

instance abbrev pub conversation_state_enum : Enum ConversationState
conversation_state_enum = record {
  index = conversation_state_index;
  index_injective = conversation_state_index_injective;
}

abbrev pub cycle_type_index : CycleType → ℕ
cycle_type_index CycleType.discovery = 0
cycle_type_index CycleType.execution = 1
cycle_type_index CycleType.clarification = 2
cycle_type_index CycleType.resume = 3

pub cycle_type_index_injective : (a b : CycleType) → cycle_type_index a ≡ cycle_type_index b → a ≡ b
cycle_type_index_injective a b h = ground arith

instance abbrev pub cycle_type_enum : Enum CycleType
cycle_type_enum = record { index = cycle_type_index; index_injective = cycle_type_index_injective }

abbrev pub cycle_state_index : CycleState → ℕ
cycle_state_index CycleState.running = 0
cycle_state_index CycleState.completed = 1
cycle_state_index CycleState.failed = 2
cycle_state_index CycleState.interrupted = 3

pub cycle_state_index_injective :
    (a b : CycleState) → cycle_state_index a ≡ cycle_state_index b → a ≡ b
cycle_state_index_injective a b h = ground arith

instance abbrev pub cycle_state_enum : Enum CycleState
cycle_state_enum = record {
  index = cycle_state_index;
  index_injective = cycle_state_index_injective;
}

abbrev pub plan_type_index : PlanType → ℕ
plan_type_index PlanType.discovery_plan = 0
plan_type_index PlanType.execution_plan = 1
plan_type_index PlanType.priority_clarification = 2

pub plan_type_index_injective : (a b : PlanType) → plan_type_index a ≡ plan_type_index b → a ≡ b
plan_type_index_injective a b h = ground arith

instance abbrev pub plan_type_enum : Enum PlanType
plan_type_enum = record { index = plan_type_index; index_injective = plan_type_index_injective }

abbrev pub execution_policy_index : ExecutionPolicy → ℕ
execution_policy_index ExecutionPolicy.sequential = 0
execution_policy_index ExecutionPolicy.parallel = 1

pub execution_policy_index_injective :
    (a b : ExecutionPolicy) → execution_policy_index a ≡ execution_policy_index b → a ≡ b
execution_policy_index_injective a b h = ground arith

instance abbrev pub execution_policy_enum : Enum ExecutionPolicy
execution_policy_enum = record {
  index = execution_policy_index;
  index_injective = execution_policy_index_injective;
}

abbrev pub plan_state_index : PlanState → ℕ
plan_state_index PlanState.pending = 0
plan_state_index PlanState.running = 1
plan_state_index PlanState.completed = 2
plan_state_index PlanState.stopped_on_failure = 3
plan_state_index PlanState.short_circuited_on_success = 4
plan_state_index PlanState.interrupted = 5
plan_state_index PlanState.failed = 6

pub plan_state_index_injective : (a b : PlanState) → plan_state_index a ≡ plan_state_index b → a ≡ b
plan_state_index_injective a b h = ground arith

instance abbrev pub plan_state_enum : Enum PlanState
plan_state_enum = record { index = plan_state_index; index_injective = plan_state_index_injective }

abbrev pub task_type_index : TaskType → ℕ
task_type_index TaskType.cmd = 0
task_type_index TaskType.chunk_request = 1

pub task_type_index_injective : (a b : TaskType) → task_type_index a ≡ task_type_index b → a ≡ b
task_type_index_injective a b h = ground arith

instance abbrev pub task_type_enum : Enum TaskType
task_type_enum = record { index = task_type_index; index_injective = task_type_index_injective }

abbrev pub task_state_index : TaskState → ℕ
task_state_index TaskState.pending = 0
task_state_index TaskState.waiting_dependency = 1
task_state_index TaskState.running = 2
task_state_index TaskState.completed = 3
task_state_index TaskState.failed = 4
task_state_index TaskState.timed_out = 5
task_state_index TaskState.skipped = 6
task_state_index TaskState.cancelled = 7
task_state_index TaskState.interrupted = 8

pub task_state_index_injective : (a b : TaskState) → task_state_index a ≡ task_state_index b → a ≡ b
task_state_index_injective a b h = ground arith

instance abbrev pub task_state_enum : Enum TaskState
task_state_enum = record { index = task_state_index; index_injective = task_state_index_injective }

abbrev pub output_stream_index : OutputStream → ℕ
output_stream_index OutputStream.stdout = 0
output_stream_index OutputStream.stderr = 1

pub output_stream_index_injective :
    (a b : OutputStream) → output_stream_index a ≡ output_stream_index b → a ≡ b
output_stream_index_injective a b h = ground arith

instance abbrev pub output_stream_enum : Enum OutputStream
output_stream_enum = record {
  index = output_stream_index;
  index_injective = output_stream_index_injective;
}

abbrev pub context_window_state_index : ContextWindowState → ℕ
context_window_state_index ContextWindowState.healthy = 0
context_window_state_index ContextWindowState.warning = 1
context_window_state_index ContextWindowState.saturated = 2

pub context_window_state_index_injective :
    (a b : ContextWindowState) → context_window_state_index a ≡ context_window_state_index b → a ≡ b
context_window_state_index_injective a b h = ground arith

instance abbrev pub context_window_state_enum : Enum ContextWindowState
context_window_state_enum = record {
  index = context_window_state_index;
  index_injective = context_window_state_index_injective;
}

abbrev pub circuit_state_index : CircuitState → ℕ
circuit_state_index CircuitState.closed = 0
circuit_state_index CircuitState.opened = 1
circuit_state_index CircuitState.half_open = 2

pub circuit_state_index_injective :
    (a b : CircuitState) → circuit_state_index a ≡ circuit_state_index b → a ≡ b
circuit_state_index_injective a b h = ground arith

instance abbrev pub circuit_state_enum : Enum CircuitState
circuit_state_enum = record {
  index = circuit_state_index;
  index_injective = circuit_state_index_injective;
}

abbrev pub message_type_index : MessageType → ℕ
message_type_index MessageType.user_request = 0
message_type_index MessageType.discovery_plan = 1
message_type_index MessageType.execution_plan = 2
message_type_index MessageType.priority_clarification = 3
message_type_index MessageType.execution_result = 4
message_type_index MessageType.final_answer = 5
message_type_index MessageType.user_response = 6
message_type_index MessageType.context_resume_request = 7
message_type_index MessageType.context_resume_ack = 8
message_type_index MessageType.protocol_correction_request = 9
message_type_index MessageType.chunk_request = 10
message_type_index MessageType.system_error = 11

pub message_type_index_injective :
    (a b : MessageType) → message_type_index a ≡ message_type_index b → a ≡ b
message_type_index_injective a b h = ground arith

instance abbrev pub message_type_enum : Enum MessageType
message_type_enum = record {
  index = message_type_index;
  index_injective = message_type_index_injective;
}

abbrev pub message_direction_index : MessageDirection → ℕ
message_direction_index MessageDirection.outbound = 0
message_direction_index MessageDirection.inbound = 1

pub message_direction_index_injective :
    (a b : MessageDirection) → message_direction_index a ≡ message_direction_index b → a ≡ b
message_direction_index_injective a b h = ground arith

instance abbrev pub message_direction_enum : Enum MessageDirection
message_direction_enum = record {
  index = message_direction_index;
  index_injective = message_direction_index_injective;
}
