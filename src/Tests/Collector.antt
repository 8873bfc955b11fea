-- ===== src/Tests/Collector.antt =====
-- The result collector at a concrete plan.
use agentic_local_app.Base.{
  ℕ, ◌≡◌, refl, true, false, none, some, List, [], ◌∷◌, length, Returns, pos,
}
use agentic_local_app.Domain.States.{PlanState, TaskState, TaskType, ExecutionPolicy}
use agentic_local_app.Domain.Shell.{ShellDialect}
use agentic_local_app.Execution.Runner.{TaskRecord, PlanRecord}
use agentic_local_app.Execution.Collector.{StoredTask, build}
use agentic_local_app.Execution.Collector.Complete.{build-Reports, ReportsInOrder}

abbrev record_of : ℕ → ℕ → TaskState → TaskRecord
record_of id index status = record {
  task_id = id;
  plan_id = 5;
  order_index = index;
  type = TaskType.cmd;
  command = some 50;
  status = status;
  critical = false;
  stop_on_failure = false;
  stop_on_success = false;
  stops_plan_on_failure = true;
  depends_on = [];
  resource_lock = none;
  attempt_count = 1;
  exit_code = some (pos 2);
  timed_out = false;
  truncated = false;
  reason = none;
  started_at = some 100;
  ended_at = some 200;
  duration_ms = some 100;
  updated_at = 200;
}

abbrev stored_task : TaskRecord → StoredTask
stored_task t = record {
  base = t;
  original_size_bytes = none;
  stdout_total = none;
  stderr_total = none;
  stdout_range = none;
  stderr_range = none;
  max_output_bytes_applied = some 1000;
  timeout_ms_applied = some 30000;
  ref_task_id = none;
  stream = none;
}

abbrev plan : PlanRecord
plan = record {
  plan_id = 5;
  execution_policy = ExecutionPolicy.sequential;
  max_parallel_workers = 1;
  status = PlanState.stopped_on_failure;
  stop_reason = none;
  completed_task_count = 0;
  failed_task_count = 1;
  skipped_task_count = 1;
  cancelled_task_count = 0;
  interrupted_task_count = 0;
  started_at = some 100;
  ended_at = some 200;
  updated_at = 200;
}

-- The tasks in another order than that of the plan: the second was skipped when the first failed.
abbrev tasks : List StoredTask
tasks =
    stored_task (record_of 12 1 TaskState.skipped)
    ∷ stored_task (record_of 11 0 TaskState.failed)
    ∷ []

build-Reports_example :
    Returns
      (λ c.
        (c.plan_id ≡ 5)
        × (c.status ≡ PlanState.stopped_on_failure)
        × ReportsInOrder ShellDialect.posix tasks c)
      (build
        (λ s. length s)
        (λ c. none)
        (λ c. true)
        ShellDialect.posix
        (λ id. none)
        (λ id. none)
        plan
        tasks)
build-Reports_example =
    build-Reports (λ s. length s) (λ c. none) (λ c. true) ShellDialect.posix (λ id. none)
      (λ id. none) plan tasks refl refl ((refl, refl), ((refl, refl), tt))
