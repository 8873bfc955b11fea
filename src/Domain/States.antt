-- ===== src/Domain/States.antt =====
-- src/agentic_local_app/domain/states.py: every enumeration, its members in the source's order.
-- A `StrEnum` is compared by value; the values of one enumeration are distinct (`@unique`), so the
-- position of a member stands for its text.

pub data SessionState : Type 0 where
  ready running interrupting completed failed paused : SessionState

pub data ConversationState : Type 0 where
  new active waiting_model_response running_plan waiting_user rotating interrupted completed failed
        closed :
      ConversationState

pub data CycleType : Type 0 where
  discovery execution clarification resume : CycleType

pub data CycleState : Type 0 where
  running completed failed interrupted : CycleState

pub data PlanType : Type 0 where
  discovery_plan execution_plan priority_clarification : PlanType

pub data ExecutionPolicy : Type 0 where
  sequential parallel : ExecutionPolicy

pub data PlanState : Type 0 where
  pending running completed stopped_on_failure short_circuited_on_success interrupted failed :
      PlanState

pub data TaskType : Type 0 where
  cmd chunk_request : TaskType

pub data TaskState : Type 0 where
  pending waiting_dependency running completed failed timed_out skipped cancelled interrupted :
      TaskState

pub data OutputStream : Type 0 where
  stdout stderr : OutputStream

pub data ContextWindowState : Type 0 where
  healthy warning saturated : ContextWindowState

pub data CircuitState : Type 0 where
  closed opened half_open : CircuitState

pub data MessageType : Type 0 where
  user_request discovery_plan execution_plan priority_clarification execution_result final_answer
        user_response context_resume_request context_resume_ack protocol_correction_request
        chunk_request system_error :
      MessageType

pub data MessageDirection : Type 0 where
  outbound inbound : MessageDirection
