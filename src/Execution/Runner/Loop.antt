-- ===== src/Execution/Runner/Loop.antt =====
-- src/agentic_local_app/execution/plan_runner.py: the construction of a run, the drain, the ends of the
-- plan and `_loop`. One round of the loop reads from a `Round` what the world answers: the
-- interruption token, the duration budget, the clock, the workers that are done, and what each worker
-- ends as if it is drained.
use agentic_local_app.Base.{
  ℕ, max, Bool, true, false, not, ◌&&◌, Option, none, some, List, [], ◌∷◌, if◌then◌else◌, ◌==◌, leb,
  is_in, any, has, pop, Result, ok, err, ◌>>=◌,
}
use agentic_local_app.Domain.States.{PlanState, TaskState}
use agentic_local_app.Domain.Values.{task_state_enum, execution_policy_enum}
use agentic_local_app.Domain.Transitions.{is_empty}
use agentic_local_app.Domain.Shell.{ShellDialect}
use agentic_local_app.Execution.Runner.{
  StopReason, interrupted_by_user, budget_duration, TaskReason, plan_stopped, user_interrupt,
  budget_exceeded, TaskRecord, PlanRecord, RunError, plan_tasks_not_terminal, Run,
}
use agentic_local_app.Execution.Runner.Tasks.{Change, no_fields, apply_changes}
use agentic_local_app.Execution.Runner.Schedule.{
  is_sequential, transition_plan, start_plan, launch_ready, is_unfinished,
}
use agentic_local_app.Execution.Runner.Finish.{Ending, schedulable_states, finish, stop_condition}

-- `sorted(tasks, key=lambda t: t.order_index)`, which is stable.
abbrev insert_task : TaskRecord → List TaskRecord → List TaskRecord
insert_task t [] = t ∷ []
insert_task t (u ∷ us) =
    if leb t.order_index u.order_index then t ∷ u ∷ us else u ∷ insert_task t us

unfoldable pub sort_tasks : List TaskRecord → List TaskRecord
sort_tasks [] = []
sort_tasks (t ∷ ts) = insert_task t (sort_tasks ts)

-- `_PlanExecution.__init__`
unfoldable pub new_run : PlanRecord → List TaskRecord → Run
unfolding sort_tasks
new_run plan tasks = record {
  plan = plan;
  tasks = sort_tasks tasks;
  workers = if is_sequential plan then 1 else max 1 plan.max_parallel_workers;
  running = [];
  held_locks = [];
  outputs = [];
  chunks = [];
  stop_reason = none;
  interrupting = false;
  over_budget = false;
  events = [];
}

pub record Round : Type 0 where
  pub interrupt_top : Bool
  pub deadline_passed : Bool
  pub now : ℕ
  pub done : List (ℕ × Ending)
  pub interrupt_wait : Bool
  pub settled : ℕ → Ending

-- What `run` returns; `reports` is whether there is an `execution_result`.
pub record Outcome : Type 0 where
  pub run : Run
  pub reports : Bool
  pub interrupted : Bool
  pub over_budget : Bool

abbrev lookup_ending : ℕ → List (ℕ × Ending) → Option Ending
lookup_ending id [] = none
lookup_ending id ((j, e) ∷ es) = if j == id then some e else lookup_ending id es

abbrev with_ending : ℕ → Option Ending → List (ℕ × Ending) → List (ℕ × Ending)
with_ending id none rest = rest
with_ending id (some e) rest = (id, e) ∷ rest

-- `_finished`: the running tasks that are done, in plan order.
abbrev pub finished : List (ℕ × Ending) → List ℕ → List TaskRecord → List (ℕ × Ending)
finished done running [] = []
finished done running (t ∷ ts) =
    let rest = finished done running ts in
    if has t.task_id running
    then with_ending t.task_id (lookup_ending t.task_id done) rest
    else rest

abbrev pub drained : (ℕ → Ending) → List ℕ → List TaskRecord → List (ℕ × Ending)
drained settled running [] = []
drained settled running (t ∷ ts) =
    let rest = drained settled running ts in
    if has t.task_id running then (t.task_id, settled t.task_id) ∷ rest else rest

-- `self._running.pop(task_id)`, then `_finish`
unfoldable pub pop_finish : ℕ → Bool → ℕ → Ending → Run → Result RunError (Run × TaskState)
pop_finish now propagate id e r =
    finish now propagate id e (record r { running = pop id r.running })

unfoldable pub drain_all : ℕ → List (ℕ × Ending) → Run → Result RunError Run
drain_all now [] r = ok r
drain_all now ((id, e) ∷ es) r = pop_finish now false id e r >>= λ x. drain_all now es x.0

-- `_drain`
unfoldable pub drain : Round → Run → Result RunError Run
drain w r = drain_all w.now (drained w.settled r.running r.tasks) r

abbrev remaining_changes : TaskState → TaskReason → List TaskRecord → List Change
remaining_changes to reason [] = []
remaining_changes to reason (t ∷ ts) =
    if is_in t.status schedulable_states
    then record { task_id = t.task_id; to = to; reason = some reason; fields = no_fields }
      ∷ remaining_changes to reason ts
    else remaining_changes to reason ts

-- `_mark_remaining`
unfoldable pub mark_remaining : ℕ → TaskState → TaskReason → Run → Result RunError Run
mark_remaining now to reason r = apply_changes now (remaining_changes to reason r.tasks) r

-- `_completed`
unfoldable pub completed : Round → Run → Result RunError Outcome
completed w r =
    (if any is_unfinished r.tasks then err plan_tasks_not_terminal else ok tt) >>= λ (_ : Unit {0}).
    transition_plan w.now PlanState.completed none r >>= λ r'.
    ok (record { run = r'; reports = true; interrupted = false; over_budget = false })

-- `_stopped`
unfoldable pub stopped : Round → PlanState → StopReason → Run → Result RunError Outcome
stopped w target reason r = drain w (record r { stop_reason = some reason }) >>= λ r₁.
    mark_remaining w.now TaskState.skipped (plan_stopped (some reason)) r₁ >>= λ r₂.
    transition_plan w.now target (some reason) r₂ >>= λ r₃.
    ok (record { run = r₃; reports = true; interrupted = false; over_budget = false })

-- `_interrupted`
unfoldable pub interrupted : Round → Run → Result RunError Outcome
interrupted w r = drain w (record r { interrupting = true }) >>= λ r₁.
    mark_remaining w.now TaskState.interrupted user_interrupt r₁ >>= λ r₂.
    transition_plan w.now PlanState.interrupted (some interrupted_by_user) r₂ >>= λ r₃.
    ok (record { run = r₃; reports = false; interrupted = true; over_budget = false })

-- `_budget_failed`
unfoldable pub budget_failed : Round → Run → Result RunError Outcome
budget_failed w r = mark_remaining w.now TaskState.skipped budget_exceeded r >>= λ r₁.
    transition_plan w.now PlanState.failed (some budget_duration) r₁ >>= λ r₂.
    ok (record { run = r₂; reports = true; interrupted = false; over_budget = true })

-- The loop goes on with a state and whether the plan was started, or it returns.
pub data Progress : Type 0 where
  going : Bool → Run → Progress
  returned : Outcome → Progress

module _ (matches : Option ℕ → Bool) (dialect : ShellDialect) where
  -- What follows the end of one task in a round.
  abbrev pub after_finish :
      Round → (Run → Result RunError Progress) → ℕ → Run × TaskState → Result RunError Progress
  after_finish w rest id (r, state) =
      if r.over_budget then rest r else elim (stop_condition matches dialect id state r) [
        | none ↦ rest r
        | some (target, reason) ↦ stopped w target reason r >>= λ o. ok (returned o)
      ]

  unfoldable pub finish_all : Round → List (ℕ × Ending) → Run → Result RunError Progress
  finish_all w [] r = ok (going true r)
  finish_all w ((id, e) ∷ es) r =
      pop_finish w.now (not r.over_budget) id e r >>= after_finish w (finish_all w es) id

  abbrev pub check_budget : Round → Run → Run
  check_budget w r =
      if not r.over_budget && w.deadline_passed then record r { over_budget = true } else r

  -- `_start_plan` where it has not been called, then `_launch_ready`
  abbrev pub start_and_launch : Round → Bool → Run → Result RunError Run
  start_and_launch w started r =
      (if started then ok r else start_plan w.now r) >>= launch_ready w.now

  abbrev pub wait_and_finish : Round → Run → Result RunError Progress
  wait_and_finish w r =
      if is_empty r.running
      then ((if r.over_budget then budget_failed w r else completed w r) >>= λ o. ok (returned o))
      else if w.interrupt_wait
      then ok (going true r)
      else finish_all w (finished w.done r.running r.tasks) r

  -- One turn of the `while`.
  unfoldable pub turn : Round → Bool → Run → Result RunError Progress
  turn w started r =
      if w.interrupt_top
      then (interrupted w r >>= λ o. ok (returned o))
      else (let r₁ = check_budget w r in
          if r₁.over_budget
          then wait_and_finish w r₁
          else (start_and_launch w started r₁ >>= wait_and_finish w))

  -- `_loop` over the rounds given; `none` where they end before the loop does.
  unfoldable pub loop : List Round → Bool → Run → Result RunError (Option Outcome)
  loop [] started r = ok none
  loop (w ∷ ws) started r =
      turn w started r >>= λ p. elim p [ going s r' ↦ loop ws s r' | returned o ↦ ok (some o) ]
