-- ===== src/Execution/Collector.antt =====
-- src/agentic_local_app/execution/result_collector.py: the class ResultCollector. Decoding, the translation of a
-- command and the recognised programs are parameters; `outputs` and `chunks` are functions of the task.
pub mod Reported
pub mod Sorted
pub mod Complete
use agentic_local_app.Persistence.Blobs.{Bytes}
use agentic_local_app.Base.{
  ℕ, Bool, true, false, not, ◌||◌, ◌&&◌, Option, none, some, List, [], ◌∷◌, leb, ◌==◌,
  if◌then◌else◌, is_some, ◌is◌, is_in, ℤ, Result, ok, err, ◌>>=◌, ◌>>◌, raise_if,
}
use agentic_local_app.Domain.States.{PlanState, TaskState, TaskType, OutputStream}
use agentic_local_app.Domain.Values.{plan_state_enum, task_state_enum, task_type_enum}
use agentic_local_app.Domain.Shell.{ShellDialect, NotRunReason, command_not_run_reason, is_verdict}
use agentic_local_app.Execution.Payload.{TruncatedOutput}
use agentic_local_app.Execution.Payload.Chunk.{ChunkResult}
use agentic_local_app.Execution.Runner.{TaskRecord, PlanRecord, TaskReason, StopReason}

-- The task record: the part that the runner reads, and what it stored about the output.
pub record StoredTask : Type 0 where
  pub base : TaskRecord
  pub original_size_bytes : Option ℕ
  pub stdout_total : Option ℕ
  pub stderr_total : Option ℕ
  pub stdout_range : Option (ℕ × ℕ)
  pub stderr_range : Option (ℕ × ℕ)
  pub max_output_bytes_applied : Option ℕ
  pub timeout_ms_applied : Option ℕ
  pub ref_task_id : Option ℕ
  pub stream : Option OutputStream

pub data TaskExecution : Type 0 where
  ran not_started timed_out stopped : TaskExecution

-- The reason that is stored, the one that the exit code gives, or the name of the status.
pub data ResultReason : Type 0 where
  stored : TaskReason → ResultReason
  not_run : NotRunReason → ResultReason
  status_name : TaskState → ResultReason

-- What a result says of the streams of a command.
pub record Streams : Type 0 where
  pub stdout : ℕ
  pub stderr : ℕ
  pub truncated : Bool
  pub original_size_bytes : Option ℕ
  pub stdout_total : Option ℕ
  pub stderr_total : Option ℕ
  pub stdout_range : Option (ℕ × ℕ)
  pub stderr_range : Option (ℕ × ℕ)

-- What a result says of a chunk.
pub record ChunkFields : Type 0 where
  pub ref_task_id : Option ℕ
  pub stream : OutputStream
  pub range : Option (ℕ × ℕ)
  pub total : Option ℕ
  pub eof : Option Bool
  pub data_text : Option ℕ

pub record CollectedResult : Type 0 where
  pub task_id : ℕ
  pub status : TaskState
  pub execution : TaskExecution
  pub exit_code : Option ℤ
  pub failure_is_verdict : Bool
  pub translation : Option ℕ
  pub streams : Option Streams
  pub chunk : Option ChunkFields
  pub max_output_bytes_applied : Option ℕ
  pub timed_out : Bool
  pub timeout_ms_applied : Option ℕ
  pub duration_ms : Option ℕ
  pub reason : Option ResultReason

pub record TaskRef : Type 0 where
  pub task_id : ℕ
  pub reason : ResultReason
  pub execution : TaskExecution

pub record ExecutionResultContent : Type 0 where
  pub plan_id : ℕ
  pub status : PlanState
  pub results : List CollectedResult
  pub skipped_tasks : List TaskRef
  pub cancelled_tasks : List TaskRef
  pub interrupted_tasks : List TaskRef
  pub stop_reason : Option StopReason

-- The `ValueError`s of `build`.
pub data CollectError : Type 0 where
  plan_interrupted plan_not_terminal : ℕ → CollectError
  foreign_task still_open : ℕ → CollectError

pub data Placed : Type 0 where
  in_results : CollectedResult → Placed
  in_skipped in_cancelled in_interrupted : TaskRef → Placed

abbrev pub result_states : List TaskState
result_states = TaskState.completed ∷ TaskState.failed ∷ TaskState.timed_out ∷ []

-- `_execution`
abbrev pub execution_of : TaskRecord → TaskExecution
execution_of t =
    if t.timed_out || t.status is TaskState.timed_out
    then TaskExecution.timed_out
    else if is_some t.exit_code
    then ran
    else not_started

abbrev pub stored_reason : Option TaskReason → Option ResultReason
stored_reason none = none
stored_reason (some r) = some (stored r)

abbrev pub derived_reason : TaskExecution → Option NotRunReason → Option ResultReason
derived_reason ran (some r) = some (not_run r)
derived_reason _ _ = none

-- `_reason`
abbrev pub reason_of : ShellDialect → TaskRecord → TaskExecution → Option ResultReason
reason_of dialect t execution = elim t.reason [
  | some r ↦ some (stored r)
  | none ↦ derived_reason execution (command_not_run_reason dialect t.exit_code)
]

-- `task.reason or task.status.protocol_value`
abbrev pub reference_reason : TaskRecord → ResultReason
reference_reason t = elim t.reason [ some r ↦ stored r | none ↦ status_name t.status ]

abbrev pub reference : TaskExecution → TaskRecord → TaskRef
reference execution t = record {
  task_id = t.task_id;
  reason = reference_reason t;
  execution = execution;
}

-- `sorted(tasks, key=lambda t: t.order_index)`
abbrev pub insert_stored : StoredTask → List StoredTask → List StoredTask
insert_stored t [] = t ∷ []
insert_stored t (u ∷ us) =
    let rest = insert_stored t us in
    if leb t.base.order_index u.base.order_index then t ∷ u ∷ us else u ∷ rest

abbrev pub sort_stored : List StoredTask → List StoredTask
sort_stored [] = []
sort_stored (t ∷ ts) = insert_stored t (sort_stored ts)

-- A task is put in its list.
abbrev pub add_placed : Placed → ExecutionResultContent → ExecutionResultContent
add_placed (in_results r) c = record c { results = r ∷ c.results }
add_placed (in_skipped r) c = record c { skipped_tasks = r ∷ c.skipped_tasks }
add_placed (in_cancelled r) c = record c { cancelled_tasks = r ∷ c.cancelled_tasks }
add_placed (in_interrupted r) c = record c { interrupted_tasks = r ∷ c.interrupted_tasks }

module _ (decode : Bytes → ℕ) (translate : Option ℕ → Option ℕ) (matches : Option ℕ → Bool)
    (dialect : ShellDialect) where
  abbrev pub streams_of : StoredTask → Option TruncatedOutput → Streams
  streams_of t (some o) = record {
    stdout = decode o.stdout_kept;
    stderr = decode o.stderr_kept;
    truncated = o.truncated;
    original_size_bytes = some o.original_size_bytes;
    stdout_total = some o.stdout_total;
    stderr_total = some o.stderr_total;
    stdout_range = some o.stdout_range;
    stderr_range = some o.stderr_range;
  }
  streams_of t none = record {
    stdout = decode [];
    stderr = decode [];
    truncated = t.base.truncated;
    original_size_bytes = t.original_size_bytes;
    stdout_total = t.stdout_total;
    stderr_total = t.stderr_total;
    stdout_range = t.stdout_range;
    stderr_range = t.stderr_range;
  }

  -- `_cmd_result`
  abbrev pub cmd_result : StoredTask → Option TruncatedOutput → CollectedResult
  cmd_result t output = record {
    task_id = t.base.task_id;
    status = t.base.status;
    execution = execution_of t.base;
    exit_code = t.base.exit_code;
    failure_is_verdict =
        t.base.status is TaskState.failed
        && is_verdict matches t.base.command t.base.exit_code t.base.timed_out dialect;
    translation = translate t.base.command;
    streams = some (streams_of t output);
    chunk = none;
    max_output_bytes_applied = t.max_output_bytes_applied;
    timed_out = t.base.timed_out;
    timeout_ms_applied = t.timeout_ms_applied;
    duration_ms = t.base.duration_ms;
    reason = reason_of dialect t.base (execution_of t.base);
  }

  abbrev pub stream_or_stdout : Option OutputStream → OutputStream
  stream_or_stdout none = OutputStream.stdout
  stream_or_stdout (some s) = s

  abbrev pub chunk_fields : StoredTask → Option ChunkResult → ChunkFields
  chunk_fields t none = record {
    ref_task_id = t.ref_task_id;
    stream = stream_or_stdout t.stream;
    range = none;
    total = none;
    eof = none;
    data_text = none;
  }
  chunk_fields t (some c) = record {
    ref_task_id = t.ref_task_id;
    stream = stream_or_stdout t.stream;
    range = some c.range;
    total = some c.total;
    eof = some c.eof;
    data_text = some (decode c.content);
  }

  -- `_chunk_result`; what it does not set has the default of the class.
  abbrev pub chunk_result : StoredTask → Option ChunkResult → CollectedResult
  chunk_result t chunk = record {
    task_id = t.base.task_id;
    status = t.base.status;
    execution = ran;
    exit_code = none;
    failure_is_verdict = false;
    translation = none;
    streams = none;
    chunk = some (chunk_fields t chunk);
    max_output_bytes_applied = none;
    timed_out = false;
    timeout_ms_applied = none;
    duration_ms = t.base.duration_ms;
    reason = stored_reason t.base.reason;
  }

  -- `_task_result`
  abbrev pub task_result :
      StoredTask → Option TruncatedOutput → Option ChunkResult → CollectedResult
  task_result t output chunk =
      if t.base.type is TaskType.chunk_request then chunk_result t chunk else cmd_result t output

  module _ (outputs : ℕ → Option TruncatedOutput) (chunks : ℕ → Option ChunkResult) where
    -- The list of one task.
    abbrev pub place : StoredTask → Result CollectError Placed
    place t =
        if is_in t.base.status result_states
        then ok (in_results (task_result t (outputs t.base.task_id) (chunks t.base.task_id)))
        else if t.base.status is TaskState.skipped
        then ok (in_skipped (reference not_started t.base))
        else if t.base.status is TaskState.cancelled
        then ok (in_cancelled (reference stopped t.base))
        else if t.base.status is TaskState.interrupted
        then ok (in_interrupted (reference stopped t.base))
        else err (still_open t.base.task_id)

    -- The loop over the tasks, with the content that it starts from.
    abbrev pub collect :
        ℕ → ExecutionResultContent → List StoredTask → Result CollectError ExecutionResultContent
    collect plan_id empty [] = ok empty
    collect plan_id empty (t ∷ tasks) =
        let rest = collect plan_id empty tasks in
        raise_if (not (t.base.plan_id == plan_id)) (foreign_task t.base.task_id)
        >> (place t >>= (λ p. rest >>= (λ c. ok (add_placed p c))))

    -- `build`
    unfoldable pub build : PlanRecord → List StoredTask → Result CollectError ExecutionResultContent
    build plan tasks =
        raise_if (plan.status is PlanState.interrupted) (plan_interrupted plan.plan_id)
        >> raise_if (is_in plan.status (PlanState.pending ∷ PlanState.running ∷ []))
            (plan_not_terminal plan.plan_id)
        >> collect plan.plan_id
            (record {
              plan_id = plan.plan_id;
              status = plan.status;
              results = [];
              skipped_tasks = [];
              cancelled_tasks = [];
              interrupted_tasks = [];
              stop_reason = plan.stop_reason;
            })
            (sort_stored tasks)
