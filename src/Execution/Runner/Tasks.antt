-- ===== src/Execution/Runner/Tasks.antt =====
-- src/agentic_local_app/execution/plan_runner.py: `_apply_changes`. No list of changes that the
-- runner makes names a task twice, so that a change is validated against the state that the
-- earlier ones of the list leave is what the source does.
use agentic_local_app.Base.{
  ℕ, Bool, false, Option, none, some, List, [], ◌∷◌, if◌then◌else◌, ◌==◌, ◌is◌, all, ℤ, Result, ok,
  err, ◌>>=◌,
}
use agentic_local_app.Domain.States.{TaskState}
use agentic_local_app.Domain.Values.{task_state_enum}
use agentic_local_app.Domain.Transitions.{
  task_transitions, InvalidTransition, assert_transition, in_terminal_task_states,
}
use agentic_local_app.Execution.Runner.{
  TaskReason, TaskRecord, RunError, invalid_task_transition, unknown_task, task_state_changed, Run,
}

-- `fields` of a change: none, those of a launch, or those of an end.
pub record EndFields : Type 0 where
  pub ended_at : ℕ
  pub duration_ms : ℕ
  pub exit_code : Option ℤ
  pub timed_out : Bool
  pub truncated : Bool

pub data Fields : Type 0 where
  no_fields : Fields
  started_fields : ℕ → Fields
  ended_fields : EndFields → Fields

pub record Change : Type 0 where
  pub task_id : ℕ
  pub to : TaskState
  pub reason : Option TaskReason
  pub fields : Fields

abbrev with_fields : Fields → TaskRecord → TaskRecord
with_fields no_fields t = t
with_fields (started_fields now) t = record t { started_at = some now; attempt_count = 1 }
with_fields (ended_fields f) t = record t {
  ended_at = some f.ended_at;
  duration_ms = some f.duration_ms;
  exit_code = f.exit_code;
  timed_out = f.timed_out;
  truncated = f.truncated;
}

-- `fields.setdefault("ended_at", now)`
abbrev default_end : ℕ → Fields → TaskRecord → TaskRecord
default_end now (ended_fields f) t = t
default_end now _ t = record t { ended_at = some now }

abbrev with_reason : Option TaskReason → TaskRecord → TaskRecord
with_reason none t = t
with_reason (some r) t = record t { reason = some r }

-- The new record of a validated change.
abbrev pub changed : ℕ → Change → TaskRecord → TaskRecord
changed now c t =
    let t' =
      with_reason c.reason (record (with_fields c.fields t) { status = c.to; updated_at = now }) in
    if in_terminal_task_states c.to then default_end now c.fields t' else t'

-- `self._tasks[task_id]`
abbrev pub find : ℕ → List TaskRecord → Option TaskRecord
find id [] = none
find id (t ∷ ts) = if t.task_id == id then some t else find id ts

abbrev change_checked :
    Option (InvalidTransition TaskState) → TaskRecord → Result RunError TaskRecord
change_checked (some e) t = err (invalid_task_transition e)
change_checked none t = ok t

unfoldable pub change_tasks : ℕ → Change → List TaskRecord → Result RunError (List TaskRecord)
change_tasks now c [] = err unknown_task
change_tasks now c (t ∷ ts) =
    if t.task_id == c.task_id
    then (change_checked (assert_transition task_transitions t.status c.to) (changed now c t)
        >>= λ t'. ok (t' ∷ ts))
    else (change_tasks now c ts >>= λ ts'. ok (t ∷ ts'))

abbrev status_before : Option TaskRecord → TaskState → TaskState
status_before none s = s
status_before (some t) s = t.status

-- One change: validate, record, publish.
unfoldable pub apply_change : ℕ → Change → Run → Result RunError Run
apply_change now c r = change_tasks now c r.tasks >>= λ ts. ok (record r {
  tasks = ts;
  events =
      task_state_changed c.task_id (status_before (find c.task_id r.tasks) c.to) c.to c.reason
      ∷ r.events;
})

unfoldable pub apply_changes : ℕ → List Change → Run → Result RunError Run
apply_changes now [] r = ok r
apply_changes now (c ∷ cs) r = apply_change now c r >>= λ r'. apply_changes now cs r'

-- `self._dependencies_completed(task)`
abbrev is_completed : Option TaskRecord → Bool
is_completed none = false
is_completed (some t) = t.status is TaskState.completed

abbrev pub completed_in : List TaskRecord → ℕ → Bool
completed_in tasks d = is_completed (find d tasks)

abbrev pub dependencies_completed : List TaskRecord → TaskRecord → Bool
dependencies_completed tasks t = all (completed_in tasks) t.depends_on
