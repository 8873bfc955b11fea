-- ===== src/Execution/Runner/Safety/Outcomes.antt =====
-- The outcomes of `_loop` in src/agentic_local_app/execution/plan_runner.py.
use agentic_local_app.Base.{
  ℕ, ◌≡◌, refl, Bool, true, false, ◌⊎◌, not, Option, none, some, List, [], ◌∷◌, arith, ◌is◌, ok,
  Result, ◌>>=◌, Ensures, Ensures-bind, Ensures-then, Ensures-if, inl, inr, Option-cases,
}
use agentic_local_app.Domain.States.{PlanState, TaskState}
use agentic_local_app.Domain.Values.{plan_state_enum}
use agentic_local_app.Domain.Transitions.{is_empty, in_terminal_plan_states, failed_task_states}
use agentic_local_app.Domain.Shell.{ShellDialect}
use agentic_local_app.Execution.Runner.{
  StopReason, interrupted_by_user, budget_duration, plan_stopped, user_interrupt, budget_exceeded,
  TaskRecord, PlanRecord, RunError, Run,
}
use agentic_local_app.Execution.Runner.Schedule.{count_in, transition_plan}
use agentic_local_app.Execution.Runner.Finish.{Ending, stop_condition}
use agentic_local_app.Execution.Runner.Loop.{
  Round, Outcome, drain, mark_remaining, wait_and_finish, check_budget, start_and_launch, Progress,
  going, returned, finished, after_finish, completed, stopped, interrupted, budget_failed,
  finish_all, turn, loop,
}

-- The counters of a plan record are those of the tasks.
pub record IsCounted (p : PlanRecord) (tasks : List TaskRecord) : Type 0 where
  pub completed_count : p.completed_task_count ≡ count_in (TaskState.completed ∷ []) tasks
  pub failed_count : p.failed_task_count ≡ count_in failed_task_states tasks
  pub skipped_count : p.skipped_task_count ≡ count_in (TaskState.skipped ∷ []) tasks
  pub cancelled_count : p.cancelled_task_count ≡ count_in (TaskState.cancelled ∷ []) tasks
  pub interrupted_count : p.interrupted_task_count ≡ count_in (TaskState.interrupted ∷ []) tasks

abbrev pub IsMoved : PlanState → Run → Type 0
IsMoved to r = (r.plan.status ≡ to) × IsCounted r.plan r.tasks

transition_plan-IsMoved :
    (now : ℕ) (to : PlanState) (reason : Option StopReason) (r : Run)
    → Ensures (IsMoved to) (transition_plan now to reason r)
unfolding transition_plan
transition_plan-IsMoved now to reason r = ground arith

pub record IsOutcome (o : Outcome) : Type 0 where
  pub ended : in_terminal_plan_states o.run.plan.status ≡ true
  pub counted : IsCounted o.run.plan o.run.tasks
  pub reports : o.reports ≡ not o.interrupted
  pub interrupted : o.interrupted ≡ (o.run.plan.status is PlanState.interrupted)
  pub over_budget : o.over_budget ≡ (o.run.plan.status is PlanState.failed)

-- The last step of each end of the plan.
module _ (now : ℕ) (to : PlanState) (reason : Option StopReason)
    (interrupted over_budget : Bool) where
  transition_plan-IsOutcome :
      (r : Run)
      → in_terminal_plan_states to ≡ true
      → interrupted ≡ (to is PlanState.interrupted)
      → over_budget ≡ (to is PlanState.failed)
      → Ensures IsOutcome (
          transition_plan now to reason r >>= λ r'. ok (record {
            run = r';
            reports = not interrupted;
            interrupted = interrupted;
            over_budget = over_budget;
          }))
  transition_plan-IsOutcome r t i b =
      Ensures-bind (IsMoved to) IsOutcome (transition_plan now to reason r) _
        (transition_plan-IsMoved now to reason r)
        (λ r' h. record {
          ended = rw h.0 t;
          counted = h.1;
          reports = refl;
          interrupted = rw h.0 i;
          over_budget = rw h.0 b;
        })

completed-IsOutcome : (w : Round) (r : Run) → Ensures IsOutcome (completed w r)
unfolding completed
completed-IsOutcome w r =
    Ensures-then IsOutcome _ _
      (λ _. transition_plan-IsOutcome w.now PlanState.completed none false false r refl refl refl)

interrupted-IsOutcome : (w : Round) (r : Run) → Ensures IsOutcome (interrupted w r)
unfolding interrupted
interrupted-IsOutcome w r =
    Ensures-then IsOutcome (drain w (record r { interrupting = true })) _ (λ r₁.
      Ensures-then IsOutcome (mark_remaining w.now TaskState.interrupted user_interrupt r₁) _ (λ r₂.
        transition_plan-IsOutcome w.now PlanState.interrupted (some interrupted_by_user) true false
          r₂ refl refl refl))

budget_failed-IsOutcome : (w : Round) (r : Run) → Ensures IsOutcome (budget_failed w r)
unfolding budget_failed
budget_failed-IsOutcome w r =
    Ensures-then IsOutcome (mark_remaining w.now TaskState.skipped budget_exceeded r) _ (λ r₁.
      transition_plan-IsOutcome w.now PlanState.failed (some budget_duration) false true r₁ refl
        refl refl)

-- The two states in which a stop condition leaves a plan.
abbrev IsStop : PlanState → Type 0
IsStop to = (to ≡ PlanState.stopped_on_failure) ⊎ (to ≡ PlanState.short_circuited_on_success)

stopped-IsOutcome :
    (w : Round) (to : PlanState) (reason : StopReason) (r : Run)
    → IsStop to
    → Ensures IsOutcome (stopped w to reason r)
unfolding stopped
stopped-IsOutcome w to reason r s =
    Ensures-then IsOutcome (drain w (record r { stop_reason = some reason })) _ (λ r₁.
      Ensures-then IsOutcome
        (mark_remaining w.now TaskState.skipped (plan_stopped (some reason)) r₁) _
        (λ r₂.
          transition_plan-IsOutcome w.now to (some reason) false false r₂ (ground arith)
            (ground arith) (ground arith)))

-- What a turn returns, if it returns an outcome.
abbrev IsProgress : Progress → Type 0
IsProgress (going started r) = Unit
IsProgress (returned o) = IsOutcome o

returned-IsProgress :
    (m : Result RunError Outcome)
    → Ensures IsOutcome m
    → Ensures IsProgress (m >>= λ o. ok (returned o))
returned-IsProgress m h = Ensures-bind IsOutcome IsProgress m _ h (λ o q. q)

module _ (matches : Option ℕ → Bool) (dialect : ShellDialect) where
  stop_condition-IsStop :
      (id : ℕ) (state : TaskState) (r : Run) (to : PlanState) (reason : StopReason)
      → stop_condition matches dialect id state r ≡ some (to, reason)
      → IsStop to
  unfolding stop_condition
  stop_condition-IsStop id state r to reason h = ground arith

  after_finish-IsProgress :
      (w : Round) (rest : Run → Result RunError Progress) (id : ℕ) (x : Run × TaskState)
      → ((r : Run) → Ensures IsProgress (rest r))
      → Ensures IsProgress (after_finish matches dialect w rest id x)
  after_finish-IsProgress w rest id (r, state) h =
      Ensures-if IsProgress r.over_budget _ _ (h r)
        (elim (Option-cases (stop_condition matches dialect id state r)) [
          | inl none_given ↦ rw none_given (h r)
          | inr ((to, reason), e) ↦ rw e (
              returned-IsProgress (stopped w to reason r)
                (stopped-IsOutcome w to reason r (stop_condition-IsStop id state r to reason e)))
        ])

  finish_all-IsProgress :
      (w : Round) (es : List (ℕ × Ending)) (r : Run)
      → Ensures IsProgress (finish_all matches dialect w es r)
  unfolding finish_all
  finish_all-IsProgress w [] r = tt
  finish_all-IsProgress w ((id, e) ∷ es) r = Ensures-then IsProgress _ _ (λ x.
      after_finish-IsProgress w (finish_all matches dialect w es) id x (finish_all-IsProgress w es))

  wait_and_finish-IsProgress :
      (w : Round) (r : Run) → Ensures IsProgress (wait_and_finish matches dialect w r)
  wait_and_finish-IsProgress w r =
      Ensures-if IsProgress (is_empty r.running) _ _
        (returned-IsProgress _ (
          Ensures-if IsOutcome r.over_budget _ _ (budget_failed-IsOutcome w r)
            (completed-IsOutcome w r)))
        (Ensures-if IsProgress w.interrupt_wait _ _ tt
          (finish_all-IsProgress w (finished w.done r.running r.tasks) r))

  turn-IsProgress :
      (w : Round) (started : Bool) (r : Run) → Ensures IsProgress (turn matches dialect w started r)
  unfolding turn
  turn-IsProgress w started r =
      let r₁ : Run = check_budget matches dialect w r in
      Ensures-if IsProgress w.interrupt_top _ _
        (returned-IsProgress (interrupted w r) (interrupted-IsOutcome w r))
        (Ensures-if IsProgress r₁.over_budget _ _ (wait_and_finish-IsProgress w r₁) (
          Ensures-then IsProgress (start_and_launch matches dialect w started r₁) _
            (wait_and_finish-IsProgress w)))

  abbrev IsReturned : Option Outcome → Type 0
  IsReturned none = Unit
  IsReturned (some o) = IsOutcome o

  go_on :
      (ws : List Round)
      → ((started : Bool) (r : Run) → Ensures IsReturned (loop matches dialect ws started r))
      → (p : Progress) → IsProgress p
      → Ensures IsReturned
          (elim p [ going s r' ↦ loop matches dialect ws s r' | returned o ↦ ok (some o) ])
  go_on ws again (going s r') h = again s r'
  go_on ws again (returned o) h = h

  loop-IsOutcome_lem :
      (ws : List Round) (started : Bool) (r : Run)
      → Ensures IsReturned (loop matches dialect ws started r)
  unfolding loop
  loop-IsOutcome_lem [] started r = tt
  loop-IsOutcome_lem (w ∷ ws) started r =
      Ensures-bind IsProgress IsReturned (turn matches dialect w started r) _
        (turn-IsProgress w started r) (λ p h. go_on ws (loop-IsOutcome_lem ws) p h)

  -- When the loop returns, from whatever state and whatever the rounds answer, the plan has ended,
  -- its counters are those of its tasks, there is a result exactly when it was not interrupted, and
  -- the flags of the outcome agree with the state of the plan.
  pub loop-IsOutcome :
      (ws : List Round) (started : Bool) (r : Run) (o : Outcome)
      → loop matches dialect ws started r ≡ ok (some o)
      → IsOutcome o
  loop-IsOutcome ws started r o h = rw h at (loop-IsOutcome_lem ws started r)
