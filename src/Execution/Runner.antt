-- ===== src/Execution/Runner.antt =====
-- src/agentic_local_app/execution/plan_runner.py: the records, and a change of one task. The state of
-- one run is a record; what the event loop, the executor, the clocks and the interruption token
-- answer is given round by round (`Runner.Loop`). Store writes succeed.
pub mod Tasks
pub mod Schedule
pub mod Finish
pub mod Loop
pub mod Safety
use agentic_local_app.Base.{ℕ, Bool, Option, List, ℤ}
use agentic_local_app.Domain.States.{ExecutionPolicy, PlanState, TaskType, TaskState}
use agentic_local_app.Domain.Transitions.{InvalidTransition}
use agentic_local_app.Execution.Payload.{TruncatedOutput}
use agentic_local_app.Execution.Payload.Chunk.{ChunkErrorCode, ChunkResult}

-- The reason of a plan that stopped; a task is named by its identifier.
pub data StopReason : Type 0 where
  stop_plan_on_success critical_task_failed stop_plan_on_failure task_failed : ℕ → StopReason
  interrupted_by_user budget_duration : StopReason

-- The reason that a task record carries.
pub data TaskReason : Type 0 where
  dependency_failed dependency_skipped : ℕ → TaskReason
  plan_stopped : Option StopReason → TaskReason
  user_interrupt budget_exceeded spawn_failed : TaskReason
  chunk_failed : ChunkErrorCode → TaskReason
  executor_failed : ℕ → TaskReason

-- `TaskRecord`, without the process identity, the references of the blobs and the byte ranges.
pub record TaskRecord : Type 0 where
  pub task_id : ℕ
  pub plan_id : ℕ
  pub order_index : ℕ
  pub type : TaskType
  pub command : Option ℕ
  pub status : TaskState
  pub critical : Bool
  pub stop_on_failure : Bool
  pub stop_on_success : Bool
  pub stops_plan_on_failure : Bool
  pub depends_on : List ℕ
  pub resource_lock : Option ℕ
  pub attempt_count : ℕ
  pub exit_code : Option ℤ
  pub timed_out : Bool
  pub truncated : Bool
  pub reason : Option TaskReason
  pub started_at : Option ℕ
  pub ended_at : Option ℕ
  pub duration_ms : Option ℕ
  pub updated_at : ℕ

pub record PlanRecord : Type 0 where
  pub plan_id : ℕ
  pub execution_policy : ExecutionPolicy
  pub max_parallel_workers : ℕ
  pub status : PlanState
  pub stop_reason : Option StopReason
  pub completed_task_count : ℕ
  pub failed_task_count : ℕ
  pub skipped_task_count : ℕ
  pub cancelled_task_count : ℕ
  pub interrupted_task_count : ℕ
  pub started_at : Option ℕ
  pub ended_at : Option ℕ
  pub updated_at : ℕ

-- What an exit of the runner can raise.
pub data RunError : Type 0 where
  invalid_task_transition : InvalidTransition TaskState → RunError
  invalid_plan_transition : InvalidTransition PlanState → RunError
  unknown_task plan_scheduler_stalled plan_tasks_not_terminal : RunError

-- What is published: `task.state_changed` and `plan.state_changed`.
pub data RunEvent : Type 0 where
  task_state_changed : ℕ → TaskState → TaskState → Option TaskReason → RunEvent
  plan_state_changed : PlanState → PlanState → Option StopReason → RunEvent

-- The mutable fields of `_PlanExecution`. `tasks` is the dictionary of the records in plan order,
-- `running` the identifiers of the worker coroutines; events are newest first.
pub record Run : Type 0 where
  pub plan : PlanRecord
  pub tasks : List TaskRecord
  pub workers : ℕ
  pub running : List ℕ
  pub held_locks : List ℕ
  pub outputs : List (ℕ × TruncatedOutput)
  pub chunks : List (ℕ × ChunkResult)
  pub stop_reason : Option StopReason
  pub interrupting : Bool
  pub over_budget : Bool
  pub events : List RunEvent
