-- ===== src/Tests/Runner.antt =====
-- The plan runner at concrete inputs.
use agentic_local_app.Base.{
  inl, inr, ℕ, ◌≡◌, refl, Bool, true, false, Option, none, some, List, [], ◌∷◌, ok, pos, Result,
}
use agentic_local_app.Domain.States.{ExecutionPolicy, PlanState, TaskType, TaskState}
use agentic_local_app.Domain.Shell.{ShellDialect, command_not_run_reason}
use agentic_local_app.Execution.Runner.{TaskRecord, PlanRecord, RunError, Run}
use agentic_local_app.Execution.Runner.Tasks.{
  Change, no_fields, change_tasks, apply_change, apply_changes,
}
use agentic_local_app.Execution.Runner.Schedule.{
  ready, ready_from, transition_plan, start_plan, launch, launch_all, launch_ready,
}
use agentic_local_app.Execution.Runner.Finish.{
  Ending, raw, finish, release_dependants, stop_condition,
}
use agentic_local_app.Execution.Runner.Loop.{
  Round, Outcome, loop, turn, finish_all, pop_finish, completed,
}
use agentic_local_app.Execution.Payload.{apply}
use agentic_local_app.Execution.Runner.Safety.Changes.{Moves, change_tasks-Moves}
use agentic_local_app.Execution.Runner.Safety.Ready.{IsReady, ready-IsReady}
use agentic_local_app.Execution.Runner.Safety.Stops.{StopsOnFailure, failure-StopsOnFailure}
use agentic_local_app.Execution.Runner.Safety.Outcomes.{IsOutcome, loop-IsOutcome}

abbrev task : ℕ → List ℕ → TaskRecord
task id depends_on = record {
  task_id = id;
  plan_id = 1;
  order_index = id;
  type = TaskType.cmd;
  command = some 5;
  status = TaskState.pending;
  critical = false;
  stop_on_failure = false;
  stop_on_success = false;
  stops_plan_on_failure = true;
  depends_on = depends_on;
  resource_lock = some 9;
  attempt_count = 0;
  exit_code = none;
  timed_out = false;
  truncated = false;
  reason = none;
  started_at = none;
  ended_at = none;
  duration_ms = none;
  updated_at = 0;
}

abbrev plan : PlanRecord
plan = record {
  plan_id = 1;
  execution_policy = ExecutionPolicy.parallel;
  max_parallel_workers = 2;
  status = PlanState.pending;
  stop_reason = none;
  completed_task_count = 0;
  failed_task_count = 0;
  skipped_task_count = 0;
  cancelled_task_count = 0;
  interrupted_task_count = 0;
  started_at = none;
  ended_at = none;
  updated_at = 0;
}

abbrev run : Run
run = record {
  plan = plan;
  tasks = task 1 [] ∷ task 2 [] ∷ task 3 (1 ∷ []) ∷ [];
  workers = 2;
  running = [];
  held_locks = [];
  outputs = [];
  chunks = [];
  stop_reason = none;
  interrupting = false;
  over_budget = false;
  events = [];
}

ready-IsReady_example :
    (us : List TaskRecord) × IsReady false run.tasks [] 2 [] run.tasks us (ready run)
ready-IsReady_example = ready-IsReady run

-- The second task wants the same lock as the first, the third one depends on the first.
ready_run : ready run ≡ 1 ∷ []
unfolding ready ready_from
ready_run = refl

abbrev to_running : Change
to_running = record { task_id = 1; to = TaskState.running; reason = none; fields = no_fields }

abbrev moved : List TaskRecord
moved =
    record (task 1 []) { status = TaskState.running; updated_at = 5 }
    ∷ task 2 []
    ∷ task 3 (1 ∷ [])
    ∷ []

change_tasks-Moves_example : Moves 1 TaskState.running run.tasks moved
unfolding change_tasks
change_tasks-Moves_example = change_tasks-Moves 5 to_running run.tasks moved refl

abbrev ending : Ending
ending = record {
  ended = raw (record {
    outcome = TaskState.completed;
    exit_code = some (pos 0);
    timed_out = false;
    stdout = 104 ∷ [];
    stderr = [];
    spawn_error = false;
  });
  duration_ms = 3;
  budget = 10;
}

abbrev round : ℕ → List (ℕ × Ending) → Round
round now done = record {
  interrupt_top = false;
  deadline_passed = false;
  now = now;
  done = done;
  interrupt_wait = false;
  settled = λ id. ending;
}

abbrev rounds : List Round
rounds =
    round 1 ((1, ending) ∷ [])
    ∷ round 2 ((2, ending) ∷ [])
    ∷ round 3 ((3, ending) ∷ [])
    ∷ round 4 []
    ∷ []

abbrev never : Option ℕ → Bool
never c = false

abbrev outcome_of : Result RunError (Option Outcome) → Outcome
outcome_of (ok (some o)) = o
outcome_of _ = record { run = run; reports = false; interrupted = false; over_budget = false }

abbrev outcome : Outcome
outcome = outcome_of (loop never ShellDialect.posix rounds false run)

loop-IsOutcome_example : IsOutcome outcome
unfolding loop turn start_plan transition_plan apply_changes apply_change change_tasks launch_ready
    launch_all launch ready ready_from finish_all pop_finish finish release_dependants
    stop_condition completed apply
loop-IsOutcome_example = loop-IsOutcome never ShellDialect.posix rounds false run outcome refl

loop_run : outcome.run.plan.completed_task_count ≡ 3
unfolding loop turn start_plan transition_plan apply_changes apply_change change_tasks launch_ready
    launch_all launch ready ready_from finish_all pop_finish finish release_dependants
    stop_condition completed apply
loop_run = refl

-- A command that the shell could not find, of a program whose exit codes are verdicts.
abbrev not_found : TaskRecord
not_found = record (task 1 []) { exit_code = some (pos 127) }

abbrev run_not_found : Run
run_not_found = record run { tasks = not_found ∷ [] }

failure-StopsOnFailure_example :
    StopsOnFailure (stop_condition (λ c. true) ShellDialect.posix 1 TaskState.failed run_not_found)
unfolding command_not_run_reason
failure-StopsOnFailure_example =
    failure-StopsOnFailure (λ c. true) ShellDialect.posix 1 TaskState.failed run_not_found not_found
      refl refl (inl refl) (inr (inr (inr (inr refl))))
