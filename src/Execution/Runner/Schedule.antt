-- ===== src/Execution/Runner/Schedule.antt =====
-- src/agentic_local_app/execution/plan_runner.py: starting the plan, picking the ready tasks and
-- launching them, and the transition of the plan.
use agentic_local_app.Base.{
  ℕ, ◌+◌, ◌-◌, Bool, true, false, not, ◌&&◌, Option, none, some, List, [], ◌∷◌, ◌++◌, if◌then◌else◌,
  ◌==◌, ◌is◌, is_in, any, length, has, Result, ok, err, ◌>>=◌,
}
use agentic_local_app.Domain.States.{ExecutionPolicy, PlanState, TaskState}
use agentic_local_app.Domain.Values.{execution_policy_enum, plan_state_enum, task_state_enum}
use agentic_local_app.Domain.Transitions.{
  plan_transitions, failed_task_states, InvalidTransition, assert_transition,
  in_terminal_plan_states, in_terminal_task_states, is_empty,
}
use agentic_local_app.Execution.Runner.{
  StopReason, TaskRecord, PlanRecord, RunError, invalid_plan_transition, plan_scheduler_stalled,
  plan_state_changed, Run,
}
use agentic_local_app.Execution.Runner.Tasks.{
  Change, no_fields, started_fields, find, apply_change, apply_changes, dependencies_completed,
}

abbrev pub is_sequential : PlanRecord → Bool
is_sequential p = p.execution_policy is ExecutionPolicy.sequential

-- `sum(1 for s in statuses if s in states)`
abbrev pub count_in : List TaskState → List TaskRecord → ℕ
count_in states [] = 0
count_in states (t ∷ ts) = (if is_in t.status states then 1 else 0) + count_in states ts

-- `_counters`
abbrev with_counters : List TaskRecord → PlanRecord → PlanRecord
with_counters tasks p = record p {
  completed_task_count = count_in (TaskState.completed ∷ []) tasks;
  failed_task_count = count_in failed_task_states tasks;
  skipped_task_count = count_in (TaskState.skipped ∷ []) tasks;
  cancelled_task_count = count_in (TaskState.cancelled ∷ []) tasks;
  interrupted_task_count = count_in (TaskState.interrupted ∷ []) tasks;
}

abbrev plan_started : Bool → ℕ → PlanRecord → PlanRecord
plan_started true now p = record p { started_at = some now }
plan_started false now p = p

abbrev plan_ended : Bool → ℕ → Option StopReason → PlanRecord → PlanRecord
plan_ended true now reason p = record p { ended_at = some now; stop_reason = reason }
plan_ended false now reason p = p

-- The new record of the plan.
abbrev pub plan_moved :
    ℕ → PlanState → Option StopReason → List TaskRecord → PlanRecord → PlanRecord
plan_moved now to reason tasks p = plan_ended (in_terminal_plan_states to) now reason (
    plan_started (to is PlanState.running) now
      (with_counters tasks (record p { status = to; updated_at = now })))

abbrev plan_checked : Option (InvalidTransition PlanState) → Run → Result RunError Run
plan_checked (some e) r = err (invalid_plan_transition e)
plan_checked none r = ok r

-- `_transition_plan`
unfoldable pub transition_plan : ℕ → PlanState → Option StopReason → Run → Result RunError Run
transition_plan now to reason r =
    plan_checked (assert_transition plan_transitions r.plan.status to) (record r {
      plan = plan_moved now to reason r.tasks r.plan;
      events = plan_state_changed r.plan.status to reason ∷ r.events;
    })

-- The tasks of a parallel plan that have a dependency wait for it.
abbrev waiting_changes : List TaskRecord → List Change
waiting_changes [] = []
waiting_changes (t ∷ ts) =
    if is_empty t.depends_on
    then waiting_changes ts
    else record {
      task_id = t.task_id;
      to = TaskState.waiting_dependency;
      reason = none;
      fields = no_fields;
    }
      ∷ waiting_changes ts

-- `_start_plan`
unfoldable pub start_plan : ℕ → Run → Result RunError Run
unfolding transition_plan
start_plan now r = transition_plan now PlanState.running none r >>= λ r'.
    (if r.plan.execution_policy is ExecutionPolicy.parallel
      then apply_changes now (waiting_changes r.tasks) r'
      else ok r')

abbrev pub lock_free : Option ℕ → List ℕ → List ℕ → Bool
lock_free none held picked = true
lock_free (some lock) held picked = not (has lock held) && not (has lock picked)

abbrev pub with_lock : Option ℕ → List ℕ → List ℕ
with_lock none locks = locks
with_lock (some lock) locks = lock ∷ locks

abbrev pub is_launchable : List TaskRecord → List ℕ → List ℕ → TaskRecord → Bool
is_launchable tasks held picked t =
    t.status is TaskState.pending
    && dependencies_completed tasks t
    && lock_free t.resource_lock held picked

-- The loop of `_ready` over the rest of the tasks.
unfoldable pub ready_from : Bool → List TaskRecord → List ℕ → ℕ → List ℕ → List TaskRecord → List ℕ
ready_from sequential tasks held slots picked [] = []
ready_from sequential tasks held slots picked (t ∷ ts) =
    let skip = ready_from sequential tasks held slots picked ts in
    let take =
      t.task_id
      ∷ ready_from sequential tasks held (slots - 1) (with_lock t.resource_lock picked) ts in
    if slots == 0
    then []
    else if in_terminal_task_states t.status
    then skip
    else if is_launchable tasks held picked t
    then take
    else if sequential
    then []
    else skip

-- `_ready`
unfoldable pub ready : Run → List ℕ
unfolding ready_from
ready r =
    ready_from (is_sequential r.plan) r.tasks r.held_locks (r.workers - length r.running) [] r.tasks

abbrev lock_of : Option TaskRecord → Option ℕ
lock_of none = none
lock_of (some t) = t.resource_lock

-- `_launch`: hold the lock, `PENDING -> RUNNING`, then a worker coroutine.
unfoldable pub launch : ℕ → ℕ → Run → Result RunError Run
launch now id r =
    apply_change now
      (record { task_id = id; to = TaskState.running; reason = none; fields = started_fields now })
      (record r { held_locks = with_lock (lock_of (find id r.tasks)) r.held_locks })
    >>= λ r'. ok (record r' { running = r'.running ++ id ∷ [] })

unfoldable pub launch_all : ℕ → List ℕ → Run → Result RunError Run
launch_all now [] r = ok r
launch_all now (id ∷ ids) r = launch now id r >>= λ r'. launch_all now ids r'

abbrev pub is_unfinished : TaskRecord → Bool
is_unfinished t = not (in_terminal_task_states t.status)

-- `_launch_ready`
unfoldable pub launch_ready : ℕ → Run → Result RunError Run
launch_ready now r = launch_all now (ready r) r >>= λ r'.
    (if is_empty r'.running && any is_unfinished r'.tasks
      then err plan_scheduler_stalled
      else ok r')
