-- ===== src/Execution/Runner/Safety/Stops.antt =====
-- `_stop_condition` and `_failure_is_verdict` of src/agentic_local_app/execution/plan_runner.py.
use agentic_local_app.Base.{ℕ, ◌≡◌, ◌⊎◌, Bool, true, Option, none, some, arith, is_some}
use agentic_local_app.Domain.States.{PlanState, TaskState}
use agentic_local_app.Domain.Shell.{ShellDialect, command_not_run_reason, is_verdict}
use agentic_local_app.Execution.Runner.{StopReason, TaskRecord, Run}
use agentic_local_app.Execution.Runner.Tasks.{find}
use agentic_local_app.Execution.Runner.Finish.{stop_condition}

abbrev pub StopsOnFailure : Option (PlanState × StopReason) → Type 0
StopsOnFailure none = ⊥
StopsOnFailure (some (to, reason)) = to ≡ PlanState.stopped_on_failure

module _ (matches : Option ℕ → Bool) (dialect : ShellDialect) where
  -- The failure of a task that stops its plan on failure does stop it, whatever programs are known to
  -- give verdicts, in each of these cases: the task is critical or was declared to stop the plan, it
  -- timed out, or the shell answered that it could not run the command.
  pub failure-StopsOnFailure :
      (id : ℕ) (state : TaskState) (r : Run) (t : TaskRecord)
      → find id r.tasks ≡ some t
      → t.stops_plan_on_failure ≡ true
      → (state ≡ TaskState.failed) ⊎ (state ≡ TaskState.timed_out)
      → (t.critical ≡ true)
        ⊎ (t.stop_on_failure ≡ true)
        ⊎ (state ≡ TaskState.timed_out)
        ⊎ (t.timed_out ≡ true)
        ⊎ (is_some (command_not_run_reason dialect t.exit_code) ≡ true)
      → StopsOnFailure (stop_condition matches dialect id state r)
  unfolding stop_condition is_verdict
  failure-StopsOnFailure id state r t found stops failed case =
      rw (found, stop_condition) (ground arith)
