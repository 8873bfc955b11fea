-- ===== src/Protocol/Inbound/Plans.antt =====
-- src/agentic_local_app/protocol/adapter.py: `_validate_plan`.
use agentic_local_app.Base.{
  ℕ, suc, Bool, true, false, not, ◌&&◌, Option, none, some, List, [], ◌∷◌, ◌++◌, map, ◌==◌, ltb,
  if◌then◌else◌, has, get_or, ◌is◌, Result, ok, err, ◌>>◌, raise_if, is_some,
}
use agentic_local_app.Domain.States.{TaskType, ExecutionPolicy}
use agentic_local_app.Domain.Values.{task_type_enum, execution_policy_enum}
use agentic_local_app.Protocol.Cycles.{Deps, Walked, found, finished, exhausted, find_cycle}
use agentic_local_app.Protocol.Inbound.{
  TaskMessage, PlanContent, ProtocolError, duplicate_plan_id, duplicate_task_id_in_plan,
  duplicate_task_id_in_session, self_dependency, unknown_dependency, chunk_ref_unknown,
  dependency_cycle, forward_dependency_in_sequential, state_summary_too_large,
}

-- `_resolve_continue_on_error`
abbrev pub resolve_continue_on_error : Option Bool → Option Bool → Bool
resolve_continue_on_error (some declared) plan_default = declared
resolve_continue_on_error none (some plan_default) = plan_default
resolve_continue_on_error none none = false

abbrev pub task_ids : List TaskMessage → List ℕ
task_ids tasks = map (λ (t : TaskMessage). t.task_id) tasks

-- The first loop: the identifiers are new. `order` holds the ones that were seen.
abbrev pub check_ids : List ℕ → List ℕ → List TaskMessage → Result ProtocolError (Unit {0})
check_ids known order [] = ok tt
check_ids known order (t ∷ tasks) =
    raise_if (has t.task_id order) (duplicate_task_id_in_plan t.task_id)
    >> raise_if (has t.task_id known) (duplicate_task_id_in_session t.task_id)
    >> check_ids known (t.task_id ∷ order) tasks

-- The dependencies of one task.
abbrev pub check_dependencies : List ℕ → ℕ → List ℕ → Result ProtocolError (Unit {0})
check_dependencies ids task [] = ok tt
check_dependencies ids task (dependency ∷ depends_on) =
    raise_if (dependency == task) (self_dependency task)
    >> raise_if (not (has dependency ids)) (unknown_dependency task dependency)
    >> check_dependencies ids task depends_on

-- `task.ref_task_id not in stored_output_task_ids`
abbrev pub refers_to_stored : List ℕ → Option ℕ → Bool
refers_to_stored stored none = false
refers_to_stored stored (some id) = has id stored

-- The second loop.
abbrev pub check_tasks : List ℕ → List ℕ → List TaskMessage → Result ProtocolError (Unit {0})
check_tasks ids stored [] = ok tt
check_tasks ids stored (t ∷ tasks) =
    check_dependencies ids t.task_id t.depends_on
    >> raise_if (t.type is TaskType.chunk_request && not (refers_to_stored stored t.ref_task_id))
        (chunk_ref_unknown t.task_id t.ref_task_id)
    >> check_tasks ids stored tasks

-- `deps`, the dictionary that the second loop fills; `[]` for a key that it does not have.
abbrev pub deps_of : List TaskMessage → Deps
deps_of [] x = []
deps_of (t ∷ tasks) x = if t.task_id == x then t.depends_on else deps_of tasks x

abbrev pub check_cycle : List TaskMessage → Walked → Result ProtocolError (Unit {0})
check_cycle tasks (found cycle) = err (dependency_cycle cycle)
check_cycle tasks (finished c) = ok tt
check_cycle tasks exhausted = err (dependency_cycle [])

-- `position`: the index of an identifier in `order`.
abbrev pub position : List ℕ → ℕ → ℕ
position [] x = 0
position (y ∷ order) x = if y == x then 0 else suc (position order x)

abbrev pub check_backwards : List ℕ → ℕ → List ℕ → Result ProtocolError (Unit {0})
check_backwards order task [] = ok tt
check_backwards order task (dependency ∷ depends_on) =
    raise_if (ltb (position order task) (position order dependency))
      (forward_dependency_in_sequential task dependency)
    >> check_backwards order task depends_on

-- The loop over a sequential plan.
abbrev pub check_sequence : List ℕ → List TaskMessage → Result ProtocolError (Unit {0})
check_sequence order [] = ok tt
check_sequence order (t ∷ tasks) =
    check_backwards order t.task_id t.depends_on >> check_sequence order tasks

abbrev pub check_summary : (ℕ → ℕ) → ℕ → Option ℕ → Result ProtocolError (Unit {0})
check_summary summary_bytes limit none = ok tt
check_summary summary_bytes limit (some s) =
    raise_if (ltb limit (summary_bytes s)) (state_summary_too_large (summary_bytes s) limit)

pub data Warning : Type 0 where
  default_workers_applied workers_ignored_in_sequential : Warning
  contradictory_flags : ℕ → Warning

abbrev pub contradictions : Option Bool → List TaskMessage → List Warning
contradictions plan_default [] = []
contradictions plan_default (t ∷ tasks) =
    let rest = contradictions plan_default tasks in
    if get_or t.critical false && resolve_continue_on_error t.continue_on_error plan_default
    then contradictory_flags t.task_id ∷ rest
    else rest

abbrev pub is_one : Option ℕ → Bool
is_one none = true
is_one (some n) = n == 1

abbrev pub worker_warnings : ExecutionPolicy → Option ℕ → List Warning
worker_warnings ExecutionPolicy.parallel workers =
    if is_some workers then [] else default_workers_applied ∷ []
worker_warnings ExecutionPolicy.sequential workers =
    if is_one workers then [] else workers_ignored_in_sequential ∷ []

abbrev pub warnings : PlanContent → List Warning
warnings plan =
    worker_warnings plan.execution_policy plan.max_parallel_workers
    ++ contradictions plan.default_continue_on_error plan.tasks

-- `_validate_plan`; the known identifiers are those of the session.
unfoldable pub validate_plan :
    (ℕ → ℕ) → ℕ → PlanContent → List ℕ → List ℕ → List ℕ → Result ProtocolError (List Warning)
unfolding find_cycle
validate_plan summary_bytes limit plan known_plans known_tasks stored =
    let order = task_ids plan.tasks in
    raise_if (has plan.plan_id known_plans) (duplicate_plan_id plan.plan_id)
    >> check_ids known_tasks [] plan.tasks
    >> check_tasks order stored plan.tasks
    >> check_cycle plan.tasks (find_cycle order (deps_of plan.tasks))
    >> (if plan.execution_policy is ExecutionPolicy.sequential
        then check_sequence order plan.tasks
        else ok tt)
    >> check_summary summary_bytes limit plan.state_summary
    >> ok (warnings plan)
