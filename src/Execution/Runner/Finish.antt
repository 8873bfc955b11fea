-- ===== src/Execution/Runner/Finish.antt =====
-- src/agentic_local_app/execution/plan_runner.py: the end of a task, its effect on the tasks that
-- depend on it, and the stop conditions.
use agentic_local_app.Base.{
  ℕ, suc, Bool, false, not, ◌&&◌, ◌||◌, Option, none, some, List, [], ◌∷◌, ◌++◌, if◌then◌else◌,
  ◌is◌, is_in, has, discard, ℤ, Result, ok, ◌>>=◌, length, zero,
}
use agentic_local_app.Domain.States.{PlanState, TaskType, TaskState}
use agentic_local_app.Domain.Values.{task_type_enum, task_state_enum}
use agentic_local_app.Domain.Transitions.{failed_task_states}
use agentic_local_app.Domain.Shell.{ShellDialect, is_verdict}
use agentic_local_app.Persistence.Blobs.{Bytes}
use agentic_local_app.Execution.Payload.{apply}
use agentic_local_app.Execution.Payload.Chunk.{ChunkReply, served, refused}
use agentic_local_app.Execution.Runner.{
  StopReason, stop_plan_on_success, critical_task_failed, stop_plan_on_failure, task_failed,
  TaskReason, dependency_failed, dependency_skipped, plan_stopped, user_interrupt, spawn_failed,
  chunk_failed, executor_failed, TaskRecord, RunError, Run,
}
use agentic_local_app.Execution.Runner.Tasks.{
  Change, EndFields, no_fields, ended_fields, find, apply_change, apply_changes,
  dependencies_completed,
}

-- `RawExecution`, the executor's answer for a command.
pub record RawExecution : Type 0 where
  pub outcome : TaskState
  pub exit_code : Option ℤ
  pub timed_out : Bool
  pub stdout : Bytes
  pub stderr : Bytes
  pub spawn_error : Bool

-- `_Ended`: what a worker coroutine returns; an executor's defect carries its error code.
pub data Ended : Type 0 where
  raw : RawExecution → Ended
  chunk : ChunkReply → Ended
  defect : ℕ → Ended
  forced : Ended

-- `_cancelled_state`
abbrev cancelled_state : Run → TaskState × Option TaskReason
cancelled_state r =
    if r.interrupting
    then (TaskState.interrupted, some user_interrupt)
    else (TaskState.cancelled, some (plan_stopped r.stop_reason))

-- `_raw_state`
abbrev raw_state : Run → RawExecution → TaskState × Option TaskReason
raw_state r x =
    if x.outcome is TaskState.cancelled
    then cancelled_state r
    else if x.outcome is TaskState.failed && x.spawn_error
    then (TaskState.failed, some spawn_failed)
    else (x.outcome, none)

-- The state, the reason, and what `_outputs` and `_chunks` remember.
abbrev pub end_state : Run → Ended → TaskState × Option TaskReason
end_state r (raw x) = raw_state r x
end_state r (chunk (served c)) = (TaskState.completed, none)
end_state r (chunk (refused code)) = (TaskState.failed, some (chunk_failed code))
end_state r (defect code) = (TaskState.failed, some (executor_failed code))
end_state r forced = cancelled_state r

-- A task that did not answer with a command's result keeps the fields of its record.
abbrev end_fields : ℕ → ℕ → ℕ → Ended → Option TaskRecord → EndFields
end_fields now duration budget (raw x) t = record {
  ended_at = now;
  duration_ms = duration;
  exit_code = x.exit_code;
  timed_out = x.timed_out;
  truncated = (apply x.stdout x.stderr budget).truncated;
}
end_fields now duration budget e (some t) = record {
  ended_at = now;
  duration_ms = duration;
  exit_code = t.exit_code;
  timed_out = t.timed_out;
  truncated = t.truncated;
}
end_fields now duration budget e none = record {
  ended_at = now;
  duration_ms = duration;
  exit_code = none;
  timed_out = false;
  truncated = false;
}

abbrev remember : ℕ → ℕ → Ended → Run → Run
remember id budget (raw x) r = record r {
  outputs = (id, apply x.stdout x.stderr budget) ∷ r.outputs;
}
remember id budget (chunk (served c)) r = record r { chunks = (id, c) ∷ r.chunks }
remember id budget _ r = r

abbrev unlock : Option ℕ → List ℕ → List ℕ
unlock none held = held
unlock (some lock) held = discard lock held

abbrev lock_held_by : Option TaskRecord → Option ℕ
lock_held_by none = none
lock_held_by (some t) = t.resource_lock

-- `_release_dependants`
abbrev release_changes : List TaskRecord → List TaskRecord → List Change
release_changes tasks [] = []
release_changes tasks (t ∷ ts) =
    if t.status is TaskState.waiting_dependency && dependencies_completed tasks t
    then record { task_id = t.task_id; to = TaskState.pending; reason = none; fields = no_fields }
      ∷ release_changes tasks ts
    else release_changes tasks ts

abbrev pub schedulable_states : List TaskState
schedulable_states = TaskState.pending ∷ TaskState.waiting_dependency ∷ []

abbrev skip_reason : TaskState → ℕ → TaskReason
skip_reason state dependency =
    if is_in state failed_task_states
    then dependency_failed dependency
    else dependency_skipped dependency

-- The inner loop of `_skip_dependants`: the tasks that depend on one that did not complete.
abbrev dependants : ℕ → List ℕ → List TaskRecord → List ℕ
dependants dependency skipped [] = []
dependants dependency skipped (t ∷ ts) =
    let rest = dependants dependency skipped ts in
    if not (has t.task_id skipped)
      && is_in t.status schedulable_states
      && has dependency t.depends_on
    then t.task_id ∷ rest
    else rest

abbrev skip_change : TaskReason → ℕ → Change
skip_change reason id = record {
  task_id = id;
  to = TaskState.skipped;
  reason = some reason;
  fields = no_fields;
}

abbrev skip_all : TaskReason → List ℕ → List Change
skip_all reason [] = []
skip_all reason (id ∷ ids) = skip_change reason id ∷ skip_all reason ids

abbrev as_skipped : List ℕ → List (ℕ × TaskState)
as_skipped [] = []
as_skipped (id ∷ ids) = (id, TaskState.skipped) ∷ as_skipped ids

-- The work list of `_skip_dependants`. Each task enters it at most once besides the root, so the
-- number of tasks and one more is enough fuel.
unfoldable pub skip_worklist : ℕ → List TaskRecord → List ℕ → List (ℕ × TaskState) → List Change
skip_worklist zero tasks skipped work = []
skip_worklist (suc fuel) tasks skipped [] = []
skip_worklist (suc fuel) tasks skipped ((dependency, state) ∷ work) =
    let found = dependants dependency skipped tasks in
    skip_all (skip_reason state dependency) found
    ++ skip_worklist fuel tasks (skipped ++ found) (work ++ as_skipped found)

unfoldable pub skip_dependants : ℕ → ℕ → TaskState → Run → Result RunError Run
skip_dependants now root state r =
    apply_changes now (skip_worklist (suc (length r.tasks)) r.tasks [] ((root, state) ∷ [])) r

unfoldable pub release_dependants : ℕ → Run → Result RunError Run
release_dependants now r = apply_changes now (release_changes r.tasks r.tasks) r

-- One end as the world gives it: the answer, the duration measured, and the output budget of the
-- task (`_budget`).
pub record Ending : Type 0 where
  pub ended : Ended
  pub duration_ms : ℕ
  pub budget : ℕ

-- `_finish`; the task has been taken out of `_running` before.
unfoldable pub finish : ℕ → Bool → ℕ → Ending → Run → Result RunError (Run × TaskState)
finish now propagate id e r =
    let (to, reason) = end_state r e.ended in
    let change : Change = record {
      task_id = id;
      to = to;
      reason = reason;
      fields = ended_fields (end_fields now e.duration_ms e.budget e.ended (find id r.tasks));
    } in
    apply_change now change (remember id e.budget e.ended r) >>= λ r₁.
    let r₂ = record r₁ { held_locks = unlock (lock_held_by (find id r.tasks)) r₁.held_locks } in
    (if propagate
      then (if to is TaskState.completed
          then release_dependants now r₂
          else skip_dependants now id to r₂)
      else ok r₂)
    >>= λ r₃. ok (r₃, to)

module _ (matches : Option ℕ → Bool) (dialect : ShellDialect) where
  -- `_failure_is_verdict`
  abbrev pub failure_is_verdict : TaskRecord → TaskState → Bool
  failure_is_verdict t state =
      state is TaskState.failed
      && t.type is TaskType.cmd
      && is_verdict matches t.command t.exit_code t.timed_out dialect

  abbrev stop_label : TaskRecord → StopReason
  stop_label t =
      if t.critical
      then critical_task_failed t.task_id
      else if t.stop_on_failure
      then stop_plan_on_failure t.task_id
      else task_failed t.task_id

  abbrev stop_condition_of : TaskRecord → TaskState → Option (PlanState × StopReason)
  stop_condition_of t state =
      if state is TaskState.completed && t.stop_on_success
      then some (PlanState.short_circuited_on_success, stop_plan_on_success t.task_id)
      else if is_in state failed_task_states && t.stops_plan_on_failure
      then (if failure_is_verdict t state && not (t.critical || t.stop_on_failure)
          then none
          else some (PlanState.stopped_on_failure, stop_label t))
      else none

  -- `_stop_condition`
  unfoldable pub stop_condition : ℕ → TaskState → Run → Option (PlanState × StopReason)
  stop_condition id state r = elim (find id r.tasks) [
    | none ↦ none
    | some t ↦ stop_condition_of t state
  ]
