-- ===== src/Execution/Collector/Complete.antt =====
-- src/agentic_local_app/execution/result_collector.py: where the tasks of a plan are reported.
use mathlib.Core.List.{Perm}
use agentic_local_app.Execution.Collector.Sorted.{IsSorted, sort-IsSorted, sort-Perm}
use agentic_local_app.Base.{
  ℕ, ◌≡◌, refl, ap, ◌∙◌, Bool, true, false, not, Option, List, [], ◌∷◌, map, length, ◌==◌, ==_iff,
  if◌then◌else◌, ◌is◌, is_in, Result, ok, err, ◌>>=◌, ◌>>◌, raise_if, All, Returns, arith, Ensures,
}
use agentic_local_app.Domain.States.{PlanState, TaskState}
use agentic_local_app.Domain.Values.{plan_state_enum, task_state_enum, task_type_enum}
use agentic_local_app.Domain.Transitions.{in_terminal_task_states, in_terminal_plan_states}
use agentic_local_app.Domain.Shell.{ShellDialect}
use agentic_local_app.Execution.Payload.{TruncatedOutput}
use agentic_local_app.Execution.Payload.Chunk.{ChunkResult}
use agentic_local_app.Execution.Runner.{PlanRecord}
use agentic_local_app.Execution.Collector.{
  StoredTask, CollectedResult, ExecutionResultContent, CollectError, Placed, in_results, in_skipped,
  in_cancelled, in_interrupted, result_states, sort_stored, add_placed, task_result, place, collect,
  build, not_started, stopped, reference, still_open, foreign_task,
}
use agentic_local_app.Execution.Collector.Reported.{
  with_status, Reports, HasEnded, with_yes, with_no, sort-HasEnded, task_result-IsHonest,
  task_result-id,
}

module _ (decode : List ℕ → ℕ) (translate : Option ℕ → Option ℕ) (matches : Option ℕ → Bool)
    (dialect : ShellDialect) (outputs : ℕ → Option TruncatedOutput)
    (chunks : ℕ → Option ChunkResult) where
  -- The place of a task of status `s`.
  abbrev place_at : StoredTask → TaskState → Result CollectError Placed
  place_at t s =
      if is_in s result_states
      then ok (
          in_results (
            task_result decode translate matches dialect t (outputs t.base.task_id)
              (chunks t.base.task_id)))
      else if s is TaskState.skipped
      then ok (in_skipped (reference not_started t.base))
      else if s is TaskState.cancelled
      then ok (in_cancelled (reference stopped t.base))
      else if s is TaskState.interrupted
      then ok (in_interrupted (reference stopped t.base))
      else err (still_open t.base.task_id)

  module _ (t : StoredTask) (tasks : List StoredTask) (c : ExecutionResultContent)
      (h : Reports dialect tasks c) where
    yes :
        (wanted : TaskState → Bool) (s : TaskState) (ids : List ℕ)
        → t.base.status ≡ s
        → wanted s ≡ true
        → ids ≡ with_status wanted tasks
        → t.base.task_id ∷ ids ≡ with_status wanted (t ∷ tasks)
    yes wanted s ids e k p =
        ap (λ xs. t.base.task_id ∷ xs) p ∙ with_yes wanted t tasks (ap wanted e ∙ k)

    no :
        (wanted : TaskState → Bool) (s : TaskState) (ids : List ℕ)
        → t.base.status ≡ s
        → wanted s ≡ false
        → ids ≡ with_status wanted tasks
        → ids ≡ with_status wanted (t ∷ tasks)
    no wanted s ids e k p = p ∙ with_no wanted t tasks (ap wanted e ∙ k)

    in_result :
        (s : TaskState)
        → t.base.status ≡ s
        → is_in s result_states ≡ true
        → (s is TaskState.skipped) ≡ false
        → (s is TaskState.cancelled) ≡ false
        → (s is TaskState.interrupted) ≡ false
        → Reports dialect (t ∷ tasks) (
            add_placed
              (in_results (
                task_result decode translate matches dialect t
                  (outputs t.base.task_id)
                  (chunks t.base.task_id)))
              c)
    in_result s e k1 k2 k3 k4 = record {
      results =
          ap (λ i. i ∷ map (λ (r : CollectedResult). r.task_id) c.results)
            (task_result-id decode translate matches dialect t (outputs t.base.task_id)
              (chunks t.base.task_id))
          ∙ yes (λ s. is_in s result_states) s _ e k1 h.results;
      skipped = no (λ s. s is TaskState.skipped) s _ e k2 h.skipped;
      cancelled = no (λ s. s is TaskState.cancelled) s _ e k3 h.cancelled;
      interrupted = no (λ s. s is TaskState.interrupted) s _ e k4 h.interrupted;
      all_reported = ground (arith, h.all_reported);
      honest = (
        task_result-IsHonest decode translate matches dialect t (outputs t.base.task_id)
            (chunks t.base.task_id),
        h.honest,
      );
    }

    place_at-Reports :
        (s : TaskState)
        → t.base.status ≡ s
        → in_terminal_task_states s ≡ true
        → Returns (λ p. Reports dialect (t ∷ tasks) (add_placed p c)) (place_at t s)
    place_at-Reports TaskState.completed e k = in_result TaskState.completed e refl refl refl refl
    place_at-Reports TaskState.failed e k = in_result TaskState.failed e refl refl refl refl
    place_at-Reports TaskState.timed_out e k = in_result TaskState.timed_out e refl refl refl refl
    place_at-Reports TaskState.skipped e k = record {
      results = no (λ s. is_in s result_states) TaskState.skipped _ e refl h.results;
      skipped = yes (λ s. s is TaskState.skipped) TaskState.skipped _ e refl h.skipped;
      cancelled = no (λ s. s is TaskState.cancelled) TaskState.skipped _ e refl h.cancelled;
      interrupted = no (λ s. s is TaskState.interrupted) TaskState.skipped _ e refl h.interrupted;
      all_reported = ground (arith, h.all_reported);
      honest = h.honest;
    }
    place_at-Reports TaskState.cancelled e k = record {
      results = no (λ s. is_in s result_states) TaskState.cancelled _ e refl h.results;
      skipped = no (λ s. s is TaskState.skipped) TaskState.cancelled _ e refl h.skipped;
      cancelled = yes (λ s. s is TaskState.cancelled) TaskState.cancelled _ e refl h.cancelled;
      interrupted = no (λ s. s is TaskState.interrupted) TaskState.cancelled _ e refl h.interrupted;
      all_reported = ground (arith, h.all_reported);
      honest = h.honest;
    }
    place_at-Reports TaskState.interrupted e k = record {
      results = no (λ s. is_in s result_states) TaskState.interrupted _ e refl h.results;
      skipped = no (λ s. s is TaskState.skipped) TaskState.interrupted _ e refl h.skipped;
      cancelled = no (λ s. s is TaskState.cancelled) TaskState.interrupted _ e refl h.cancelled;
      interrupted =
          yes (λ s. s is TaskState.interrupted) TaskState.interrupted _ e refl h.interrupted;
      all_reported = ground (arith, h.all_reported);
      honest = h.honest;
    }
    place_at-Reports TaskState.pending e k = cc
    place_at-Reports TaskState.waiting_dependency e k = cc
    place_at-Reports TaskState.running e k = cc

  collect-Reports :
      (plan_id : ℕ) (empty : ExecutionResultContent) (tasks : List StoredTask)
      → Reports dialect [] empty
      → All (HasEnded plan_id) tasks
      → Returns
          (Reports dialect tasks)
          (collect decode translate matches dialect outputs chunks plan_id empty tasks)
  collect-Reports plan_id empty [] start h = start
  collect-Reports plan_id empty (t ∷ tasks) start ((mine, ended), hs) =
      rw ((==_iff t.base.plan_id plan_id).1 mine) (
        joined (place decode translate matches dialect outputs chunks t)
          (collect decode translate matches dialect outputs chunks plan_id empty tasks)
          (collect-Reports plan_id empty tasks start hs)
          (λ c h. place_at-Reports t tasks c h t.base.status refl ended))
    where
      joined :
          (p : Result CollectError Placed) (rest : Result CollectError ExecutionResultContent)
          → Returns (Reports dialect tasks) rest
          → ((c : ExecutionResultContent)
              → Reports dialect tasks c
              → Returns (λ q. Reports dialect (t ∷ tasks) (add_placed q c)) p)
          → Returns (Reports dialect (t ∷ tasks)) (p >>= (λ q. rest >>= (λ c. ok (add_placed q c))))
      joined (ok q) (ok c) h k = k c h
      joined (err e) (ok c) h k = k c h
      joined p (err e) h k = elim h [ ]

  -- The plan that is reported.
  collect-plan :
      (plan_id : ℕ) (empty : ExecutionResultContent) (tasks : List StoredTask)
      → Ensures
          (λ c. (c.plan_id ≡ empty.plan_id) × (c.status ≡ empty.status))
          (collect decode translate matches dialect outputs chunks plan_id empty tasks)
  collect-plan plan_id empty [] = (refl, refl)
  collect-plan plan_id empty (t ∷ tasks) =
      go (not (t.base.plan_id == plan_id)) (place decode translate matches dialect outputs chunks t)
        (collect decode translate matches dialect outputs chunks plan_id empty tasks)
        (collect-plan plan_id empty tasks)
    where
      go :
          (b : Bool) (p : Result CollectError Placed)
          (rest : Result CollectError ExecutionResultContent)
          → Ensures (λ c. (c.plan_id ≡ empty.plan_id) × (c.status ≡ empty.status)) rest
          → Ensures
              (λ c. (c.plan_id ≡ empty.plan_id) × (c.status ≡ empty.status))
              (raise_if b (foreign_task t.base.task_id)
                >> (p >>= (λ q. rest >>= (λ c. ok (add_placed q c)))))
      go true p rest h = tt
      go false (err e) rest h = tt
      go false (ok q) (err e) h = tt
      go false (ok q) (ok c) h = ground (arith, h)

-- The report follows the tasks in the order of their index, each one once.
abbrev pub ReportsInOrder : ShellDialect → List StoredTask → ExecutionResultContent → Type 0
ReportsInOrder dialect tasks c =
    (ordered : List StoredTask) × IsSorted ordered
    × Perm ordered tasks
    × (length ordered ≡ length tasks)
    × Reports dialect ordered c

-- The result of a plan that has ended without an interruption, all of whose tasks have ended, is always built,
-- under the plan's identifier and status: with the tasks brought into the order of their index, each one
-- exactly once, every task is in the list of its status, in that order, and a failure is called a verdict only where the command ran to its end and the shell found and ran it.
pub build-Reports :
    (decode : List ℕ → ℕ) (translate : Option ℕ → Option ℕ) (matches : Option ℕ → Bool)
    (dialect : ShellDialect) (outputs : ℕ → Option TruncatedOutput)
    (chunks : ℕ → Option ChunkResult) (plan : PlanRecord) (tasks : List StoredTask)
    → in_terminal_plan_states plan.status ≡ true
    → (plan.status is PlanState.interrupted) ≡ false
    → All (HasEnded plan.plan_id) tasks
    → Returns
        (λ c.
          (c.plan_id ≡ plan.plan_id) × (c.status ≡ plan.status) × ReportsInOrder dialect tasks c)
        (build decode translate matches dialect outputs chunks plan tasks)
unfolding build
build-Reports decode translate matches dialect outputs chunks plan tasks ended whole h =
    let (all, size) = sort-HasEnded plan.plan_id tasks h in
    let empty : ExecutionResultContent = record {
      plan_id = plan.plan_id;
      status = plan.status;
      results = [];
      skipped_tasks = [];
      cancelled_tasks = [];
      interrupted_tasks = [];
      stop_reason = plan.stop_reason;
    } in
    let start : Reports dialect [] empty = record {
      results = refl;
      skipped = refl;
      cancelled = refl;
      interrupted = refl;
      all_reported = refl;
      honest = tt;
    } in
    let collected =
      collect decode translate matches dialect outputs chunks plan.plan_id empty
        (sort_stored tasks) in
    passes _ (plan.status is PlanState.interrupted) _ _ _ collected whole
      (not_open plan.status ended)
      (both size collected
        (collect-Reports decode translate matches dialect outputs chunks plan.plan_id empty
          (sort_stored tasks) start all)
        (collect-plan decode translate matches dialect outputs chunks plan.plan_id empty
          (sort_stored tasks)))
  where
    not_open :
        (s : PlanState)
        → in_terminal_plan_states s ≡ true
        → is_in s (PlanState.pending ∷ PlanState.running ∷ []) ≡ false
    not_open s e = ground arith

    both :
        length (sort_stored tasks) ≡ length tasks
        → (r : Result CollectError ExecutionResultContent)
        → Returns (Reports dialect (sort_stored tasks)) r
        → Ensures (λ c. (c.plan_id ≡ plan.plan_id) × (c.status ≡ plan.status)) r
        → Returns
            (λ c.
              (c.plan_id ≡ plan.plan_id)
              × (c.status ≡ plan.status)
              × ReportsInOrder dialect tasks c)
            r
    both size (ok c) h k =
        (k.0, k.1, (sort_stored tasks, sort-IsSorted tasks, sort-Perm tasks, size, h))
    both size (err e) h k = h

    passes :
        (P : ExecutionResultContent → Type 0) (a b : Bool) (e f : CollectError)
        (k : Result CollectError ExecutionResultContent)
        → a ≡ false
        → b ≡ false
        → Returns P k
        → Returns P (raise_if a e >> raise_if b f >> k)
    passes P true b e f k h i j = cc
    passes P false true e f k h i j = cc
    passes P false false e f k h i j = j
