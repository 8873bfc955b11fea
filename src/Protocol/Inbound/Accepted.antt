-- ===== src/Protocol/Inbound/Accepted.antt =====
-- src/agentic_local_app/protocol/adapter.py: the plans that `_validate_plan` accepts.
pub mod Checks
pub mod Verdict
pub mod Contents
pub mod Messages
use agentic_local_app.Base.{
  ℕ, ◌≤◌, ◌≡◌, Bool, true, false, Option, none, some, List, [], ◌∷◌, ◌==◌, has, All,
}
use agentic_local_app.Domain.States.{TaskType, ExecutionPolicy}
use agentic_local_app.Protocol.Cycles.Orders.{IsCycle}
use agentic_local_app.Protocol.Inbound.{TaskMessage, PlanContent}
use agentic_local_app.Protocol.Inbound.Plans.{task_ids, deps_of, position}

abbrev pub Distinct : List ℕ → Type 0
Distinct [] = Unit
Distinct (x ∷ xs) = (has x xs ≡ false) × Distinct xs

-- A task depends on other tasks of the plan, and a chunk request is about an output that is stored.
abbrev pub IsWired : List ℕ → List ℕ → TaskMessage → Type 0
IsWired ids stored t =
    ((d : ℕ) → has d t.depends_on ≡ true → ((d == t.task_id) ≡ false) × (has d ids ≡ true))
    × (t.type ≡ TaskType.chunk_request
        → (ref : ℕ) × (t.ref_task_id ≡ some ref) × (has ref stored ≡ true))

-- The dependencies of a task stand before it.
abbrev pub DependsBackwards : List ℕ → TaskMessage → Type 0
DependsBackwards ids t =
    (d : ℕ) → has d t.depends_on ≡ true → position ids d ≤ position ids t.task_id

pub record IsAccepted (summary_bytes : ℕ → ℕ) (limit : ℕ) (plan : PlanContent)
    (plans tasks stored : List ℕ) : Type 0 where
  pub new_plan : has plan.plan_id plans ≡ false
  pub distinct : Distinct (task_ids plan.tasks)
  pub new_tasks : (x : ℕ) → has x (task_ids plan.tasks) ≡ true → has x tasks ≡ false
  pub wired : All (IsWired (task_ids plan.tasks) stored) plan.tasks
  pub acyclic : (cycle : List ℕ) → IsCycle (deps_of plan.tasks) cycle → ⊥
  pub backwards :
      plan.execution_policy ≡ ExecutionPolicy.sequential
      → All (DependsBackwards (task_ids plan.tasks)) plan.tasks
  pub small_summary : (s : ℕ) → plan.state_summary ≡ some s → summary_bytes s ≤ limit
