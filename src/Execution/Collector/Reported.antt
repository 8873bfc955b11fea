-- ===== src/Execution/Collector/Reported.antt =====
-- src/agentic_local_app/execution/result_collector.py: the lists of a report.
use agentic_local_app.Base.{
  ℕ, suc, ◌+◌, ◌≡◌, refl, ap, ◌∙◌, Bool, true, false, Option, none, List, [], ◌∷◌, map, length, leb,
  if◌then◌else◌, is_some, ◌is◌, is_in, All, arith,
}
use agentic_local_app.Domain.States.{TaskState}
use agentic_local_app.Domain.Values.{plan_state_enum, task_state_enum, task_type_enum}
use agentic_local_app.Domain.Transitions.{in_terminal_task_states}
use agentic_local_app.Domain.Shell.{ShellDialect, command_not_run_reason, is_verdict}
use agentic_local_app.Execution.Payload.{TruncatedOutput}
use agentic_local_app.Execution.Payload.Chunk.{ChunkResult}
use agentic_local_app.Execution.Collector.{
  StoredTask, ran, CollectedResult, TaskRef, ExecutionResultContent, result_states, insert_stored,
  sort_stored, task_result,
}
use agentic_local_app.Persistence.Rows.{select}

-- The identifiers of the tasks with a status, in order.
abbrev pub with_status : (TaskState → Bool) → List StoredTask → List ℕ
with_status wanted tasks =
    map (λ (t : StoredTask). t.base.task_id)
      (select (λ (t : StoredTask). wanted t.base.status) tasks)

-- A verdict is the answer of a command that ran to its end and that the shell could find and run.
abbrev pub IsHonest : ShellDialect → CollectedResult → Type 0
IsHonest dialect r =
    r.failure_is_verdict ≡ true
    → (r.execution ≡ ran)
      × (is_some r.exit_code ≡ true)
      × (command_not_run_reason dialect r.exit_code ≡ none)

-- Each task is in the list that its status belongs to, in the order of the tasks.
pub record Reports (dialect : ShellDialect) (tasks : List StoredTask) (c : ExecutionResultContent)
    : Type 0 where
  pub results :
      map (λ (r : CollectedResult). r.task_id) c.results
      ≡ with_status (λ s. is_in s result_states) tasks
  pub skipped :
      map (λ (r : TaskRef). r.task_id) c.skipped_tasks
      ≡ with_status (λ s. s is TaskState.skipped) tasks
  pub cancelled :
      map (λ (r : TaskRef). r.task_id) c.cancelled_tasks
      ≡ with_status (λ s. s is TaskState.cancelled) tasks
  pub interrupted :
      map (λ (r : TaskRef). r.task_id) c.interrupted_tasks
      ≡ with_status (λ s. s is TaskState.interrupted) tasks
  pub all_reported :
      length c.results
        + length c.skipped_tasks
        + length c.cancelled_tasks
        + length c.interrupted_tasks
      ≡ length tasks
  pub honest : All (IsHonest dialect) c.results

-- The task belongs to the plan and has ended.
abbrev pub HasEnded : ℕ → StoredTask → Type 0
HasEnded plan_id t = (t.base.plan_id ≡ plan_id) × (in_terminal_task_states t.base.status ≡ true)

pub with_yes :
    (wanted : TaskState → Bool) (t : StoredTask) (tasks : List StoredTask)
    → wanted t.base.status ≡ true
    → t.base.task_id ∷ with_status wanted tasks ≡ with_status wanted (t ∷ tasks)
with_yes wanted t tasks e = rw e refl

pub with_no :
    (wanted : TaskState → Bool) (t : StoredTask) (tasks : List StoredTask)
    → wanted t.base.status ≡ false
    → with_status wanted tasks ≡ with_status wanted (t ∷ tasks)
with_no wanted t tasks e = rw e refl

pub insert-HasEnded :
    (plan_id : ℕ) (t : StoredTask) (tasks : List StoredTask)
    → HasEnded plan_id t
    → All (HasEnded plan_id) tasks
    → All (HasEnded plan_id) (insert_stored t tasks)
      × (length (insert_stored t tasks) ≡ suc (length tasks))
insert-HasEnded plan_id t [] h hs = ((h, tt), refl)
insert-HasEnded plan_id t (u ∷ us) h (k, ks) =
    let (rest, size) = insert-HasEnded plan_id t us h ks in
    go (leb t.base.order_index u.base.order_index) rest size
  where
    go :
        (b : Bool)
        → All (HasEnded plan_id) (insert_stored t us)
        → length (insert_stored t us) ≡ suc (length us)
        → All (HasEnded plan_id) (if b then t ∷ u ∷ us else u ∷ insert_stored t us)
          × (length (if b then t ∷ u ∷ us else u ∷ insert_stored t us) ≡ suc (suc (length us)))
    go true rest size = ((h, (k, ks)), refl)
    go false rest size = ((k, rest), ap (λ n. suc n) size)

pub sort-HasEnded :
    (plan_id : ℕ) (tasks : List StoredTask)
    → All (HasEnded plan_id) tasks
    → All (HasEnded plan_id) (sort_stored tasks) × (length (sort_stored tasks) ≡ length tasks)
sort-HasEnded plan_id [] h = (tt, refl)
sort-HasEnded plan_id (t ∷ ts) (h, hs) =
    let (all, size) = sort-HasEnded plan_id ts hs in
    let (more, bigger) = insert-HasEnded plan_id t (sort_stored ts) h all in
    (more, bigger ∙ ap (λ n. suc n) size)

module _ (decode : List ℕ → ℕ) (translate : Option ℕ → Option ℕ) (matches : Option ℕ → Bool)
    (dialect : ShellDialect) where
  pub task_result-IsHonest :
      (t : StoredTask) (o : Option TruncatedOutput) (c : Option ChunkResult)
      → IsHonest dialect (task_result decode translate matches dialect t o c)
  unfolding is_verdict
  task_result-IsHonest t o c h = ground (arith, h)

  pub task_result-id :
      (t : StoredTask) (o : Option TruncatedOutput) (c : Option ChunkResult)
      → (task_result decode translate matches dialect t o c).task_id ≡ t.base.task_id
  task_result-id t o c = ground arith
