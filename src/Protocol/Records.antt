-- ===== src/Protocol/Records.antt =====
-- src/agentic_local_app/protocol/adapter.py: `plan_to_records`. A record is the part that the plan runner reads
-- (`base`) with the other fields of the same class.
pub mod Budgets
use agentic_local_app.Base.{
  ℕ, zero, suc, Bool, true, false, not, ◌||◌, Option, none, some, List, [], ◌∷◌, length, min, ltb,
  if◌then◌else◌, get_or, ◌is◌, Result, ok, err,
}
use agentic_local_app.Domain.States.{
  MessageType, PlanType, TaskType, TaskState, PlanState, OutputStream, ExecutionPolicy,
}
use agentic_local_app.Domain.Values.{task_type_enum, execution_policy_enum}
use agentic_local_app.Execution.Runner.{TaskRecord, PlanRecord}
use agentic_local_app.Protocol.Inbound.{TaskMessage, PlanContent, Envelope}
use agentic_local_app.Protocol.Inbound.Plans.{resolve_continue_on_error}
use agentic_local_app.Protocol.Inbound.Content.{
  InboundContent, plan_content, final_answer_content, user_response_content, ack_content,
  InboundMessage,
}

-- The options that the projection reads.
pub record ApplyConfig : Type 0 where
  pub default_max_output_bytes : ℕ
  pub hard_max_output_bytes : ℕ
  pub default_task_timeout_ms : ℕ
  pub max_task_timeout_ms : ℕ

pub record TaskRow : Type 0 where
  pub base : TaskRecord
  pub session_id : ℕ
  pub conversation_id : ℕ
  pub continue_on_error : Bool
  pub max_output_bytes : Option ℕ
  pub max_output_bytes_applied : ℕ
  pub timeout_ms : Option ℕ
  pub timeout_ms_applied : Option ℕ
  pub ref_task_id : Option ℕ
  pub stream : Option OutputStream
  pub byte_offset : Option ℕ
  pub max_bytes : Option ℕ
  pub created_at : ℕ

pub record PlanRow : Type 0 where
  pub base : PlanRecord
  pub session_id : ℕ
  pub conversation_id : ℕ
  pub cycle_id : ℕ
  pub plan_type : PlanType
  pub objective : ℕ
  pub task_count : ℕ
  pub default_max_output_bytes : Option ℕ
  pub state_summary : Option ℕ
  pub created_at : ℕ

-- `ValueError`: the message carries no plan.
pub data RecordError : Type 0 where
  carries_no_plan : MessageType → RecordError

-- `TaskMessage.effective_stream`
abbrev pub effective_stream : Option OutputStream → OutputStream
effective_stream none = OutputStream.stdout
effective_stream (some s) = s

-- `declared_budget`: the task's, the plan's or the application's.
abbrev pub declared_budget : Option ℕ → Option ℕ → ℕ → ℕ
declared_budget (some n) plan_default default = n
declared_budget none (some n) default = n
declared_budget none none default = default

-- `max_bytes` of a chunk request.
abbrev pub chunk_bytes : ApplyConfig → TaskMessage → ℕ
chunk_bytes config task =
    let capped =
      min (get_or task.max_bytes config.hard_max_output_bytes) config.hard_max_output_bytes in
    min capped (get_or task.max_output_bytes capped)

abbrev pub output_applied : ApplyConfig → TaskMessage → Option ℕ → ℕ
output_applied config task plan_default =
    if task.type is TaskType.chunk_request
    then chunk_bytes config task
    else min (declared_budget task.max_output_bytes plan_default config.default_max_output_bytes)
        config.hard_max_output_bytes

abbrev pub timeout_applied : ApplyConfig → TaskMessage → Option ℕ
timeout_applied config task =
    if task.type is TaskType.chunk_request
    then none
    else some
        (min (get_or task.timeout_ms config.default_task_timeout_ms) config.max_task_timeout_ms)

-- `_task_record`
unfoldable pub task_record : ApplyConfig → ℕ → PlanRow → Option Bool → ℕ → TaskMessage → TaskRow
task_record config now plan default_continue index task =
    let critical = get_or task.critical false in
    let stop_on_failure = get_or task.stop_plan_on_failure false in
    let continue_on_error = resolve_continue_on_error task.continue_on_error default_continue in
    let is_chunk = task.type is TaskType.chunk_request in
    record {
      base = record {
        task_id = task.task_id;
        plan_id = plan.base.plan_id;
        order_index = index;
        type = task.type;
        command = task.cmd;
        status = TaskState.pending;
        critical = critical;
        stop_on_failure = stop_on_failure;
        stop_on_success = get_or task.stop_plan_on_success false;
        stops_plan_on_failure = critical || stop_on_failure || not continue_on_error;
        depends_on = task.depends_on;
        resource_lock = task.resource_lock;
        attempt_count = 0;
        exit_code = none;
        timed_out = false;
        truncated = false;
        reason = none;
        started_at = none;
        ended_at = none;
        duration_ms = none;
        updated_at = now;
      };
      session_id = plan.session_id;
      conversation_id = plan.conversation_id;
      continue_on_error = continue_on_error;
      max_output_bytes = task.max_output_bytes;
      max_output_bytes_applied = output_applied config task plan.default_max_output_bytes;
      timeout_ms = task.timeout_ms;
      timeout_ms_applied = timeout_applied config task;
      ref_task_id = task.ref_task_id;
      stream = if is_chunk then some (effective_stream task.stream) else none;
      byte_offset = task.byte_offset;
      max_bytes = if is_chunk then some (chunk_bytes config task) else none;
      created_at = now;
    }

-- `enumerate(plan.tasks)`
abbrev pub task_records :
    ApplyConfig → ℕ → PlanRow → Option Bool → ℕ → List TaskMessage → List TaskRow
unfolding task_record
task_records config now plan default_continue index [] = []
task_records config now plan default_continue index (t ∷ tasks) =
    task_record config now plan default_continue index t
    ∷ task_records config now plan default_continue (suc index) tasks

-- `1`, or the workers that a parallel plan asks for, where that is not `0`.
abbrev pub asked_or_one : Option ℕ → ℕ
asked_or_one (some (suc n)) = suc n
asked_or_one _ = 1

abbrev pub workers_of : PlanContent → ℕ
workers_of plan =
    if plan.execution_policy is ExecutionPolicy.parallel
    then asked_or_one plan.max_parallel_workers
    else 1

abbrev pub plan_record : ℕ → ℕ → ℕ → ℕ → PlanType → PlanContent → PlanRow
plan_record now session conversation cycle plan_type plan = record {
  base = record {
    plan_id = plan.plan_id;
    execution_policy = plan.execution_policy;
    max_parallel_workers = workers_of plan;
    status = PlanState.pending;
    stop_reason = none;
    completed_task_count = 0;
    failed_task_count = 0;
    skipped_task_count = 0;
    cancelled_task_count = 0;
    interrupted_task_count = 0;
    started_at = none;
    ended_at = none;
    updated_at = now;
  };
  session_id = session;
  conversation_id = conversation;
  cycle_id = cycle;
  plan_type = plan_type;
  objective = plan.objective;
  task_count = length plan.tasks;
  default_max_output_bytes = plan.default_max_output_bytes;
  state_summary = plan.state_summary;
  created_at = now;
}

abbrev pub records_of :
    ApplyConfig → ℕ → ℕ → ℕ → ℕ → PlanType → PlanContent → PlanRow × List TaskRow
records_of config now session conversation cycle plan_type plan =
    let row = plan_record now session conversation cycle plan_type plan in
    (row, task_records config now row plan.default_continue_on_error 0 plan.tasks)

-- `plan_to_records`
unfoldable pub plan_to_records :
    {Content : Type 0}
    → ApplyConfig
    → ℕ
    → ℕ
    → ℕ
    → ℕ
    → InboundMessage Content
    → Result RecordError (PlanRow × List TaskRow)
unfolding task_record
plan_to_records config now session conversation cycle inbound = elim inbound.plan_type [
  | none ↦ err (carries_no_plan inbound.message_type)
  | some plan_type ↦ elim inbound.content [
    | plan_content plan ↦ ok (records_of config now session conversation cycle plan_type plan)
    | final_answer_content c ↦ err (carries_no_plan inbound.message_type)
    | user_response_content c ↦ err (carries_no_plan inbound.message_type)
    | ack_content c ↦ err (carries_no_plan inbound.message_type)
  ]
]
