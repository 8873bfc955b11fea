-- ===== src/Protocol/Inbound/Accepted/Verdict.antt =====
-- src/agentic_local_app/protocol/adapter.py: what `_validate_plan` answers.
use agentic_local_app.Base.{
  ℕ, ◌≡◌, refl, ◌↔◌, List, [], if◌then◌else◌, has, All, Result, ok, ◌>>◌, raise_if, ◌is◌,
}
use agentic_local_app.Domain.States.{ExecutionPolicy}
use agentic_local_app.Domain.Values.{execution_policy_enum}
use agentic_local_app.Protocol.Cycles.{find_cycle}
use agentic_local_app.Protocol.Cycles.Ends.{IsClosed}
use agentic_local_app.Protocol.Inbound.{TaskMessage, PlanContent, ProtocolError, duplicate_plan_id}
use agentic_local_app.Protocol.Inbound.Plans.{
  task_ids, check_ids, check_tasks, deps_of, check_cycle, check_sequence, check_summary, warnings,
  validate_plan,
}
use agentic_local_app.Protocol.Inbound.Accepted.{IsAccepted, IsWired, DependsBackwards}
use agentic_local_app.Protocol.Inbound.Accepted.Checks.{
  one-ok, then-ok, check_ids-ok, check_tasks-ok, check_cycle-ok, check_sequence-ok,
  check_summary-ok, wired-IsClosed,
}

sequence-ok :
    (policy : ExecutionPolicy) (ids : List ℕ) (tasks : List TaskMessage)
    → ((if policy is ExecutionPolicy.sequential then check_sequence ids tasks else ok tt) ≡ ok tt)
      ↔ (policy ≡ ExecutionPolicy.sequential → All (DependsBackwards ids) tasks)
sequence-ok ExecutionPolicy.sequential ids tasks =
    let rest = check_sequence-ok ids tasks in (λ h e. rest.0 h, λ h. rest.1 (h refl))
sequence-ok ExecutionPolicy.parallel ids tasks = (λ h e. cc, λ h. refl)

-- A plan passes the validation, with the warnings that belong to it, exactly if its identifier and those of its
-- tasks are new, the tasks are distinct and depend on other tasks of the plan, without a cycle and, in a
-- sequential plan, backwards, the chunk requests are about stored outputs, and the state summary is small enough.
pub validate_plan-IsAccepted :
    (summary_bytes : ℕ → ℕ) (limit : ℕ) (plan : PlanContent) (plans tasks stored : List ℕ)
    → (validate_plan summary_bytes limit plan plans tasks stored ≡ ok (warnings plan))
      ↔ IsAccepted summary_bytes limit plan plans tasks stored
unfolding validate_plan
validate_plan-IsAccepted summary_bytes limit plan plans tasks stored =
    let ids = task_ids plan.tasks in
    let c0 : Result ProtocolError (Unit {0}) =
      raise_if (has plan.plan_id plans) (duplicate_plan_id plan.plan_id) in
    let c1 = check_ids tasks [] plan.tasks in
    let c2 = check_tasks ids stored plan.tasks in
    let c3 = check_cycle plan.tasks (find_cycle ids (deps_of plan.tasks)) in
    let c4 : Result ProtocolError (Unit {0}) =
      if plan.execution_policy is ExecutionPolicy.sequential
      then check_sequence ids plan.tasks
      else ok tt in
    let c5 = check_summary summary_bytes limit plan.state_summary in
    let t5 = then-ok (c0 >> c1 >> c2 >> c3 >> c4 >> c5) (ok (warnings plan)) (warnings plan) in
    let t4 = then-ok (c0 >> c1 >> c2 >> c3 >> c4) c5 tt in
    let t3 = then-ok (c0 >> c1 >> c2 >> c3) c4 tt in
    let t2 = then-ok (c0 >> c1 >> c2) c3 tt in
    let t1 = then-ok (c0 >> c1) c2 tt in
    let t0 = one-ok (has plan.plan_id plans) (duplicate_plan_id plan.plan_id) c1 tt in
    let ids-ok = check_ids-ok tasks [] plan.tasks in
    let tasks-ok = check_tasks-ok ids stored plan.tasks in
    let closed : All (IsWired ids stored) plan.tasks → IsClosed (deps_of plan.tasks) ids =
      λ w x y i d. wired-IsClosed ids stored plan.tasks x y w d in
    let cycle-ok =
      λ (w : All (IsWired ids stored) plan.tasks). check_cycle-ok plan.tasks (closed w) in
    let order-ok = sequence-ok plan.execution_policy ids plan.tasks in
    let summary-ok = check_summary-ok summary_bytes limit plan.state_summary in
    (
      λ h.
          let (h5, done) = t5.0 h in
          let (h4, p5) = t4.0 h5 in
          let (h3, p4) = t3.0 h4 in
          let (h2, p3) = t2.0 h3 in
          let (h1, p2) = t1.0 h2 in
          let (p0, p1) = t0.0 h1 in
          let wired = tasks-ok.0 p2 in
          record {
            new_plan = p0;
            distinct = (ids-ok.0 p1).0;
            new_tasks = λ x e. ((ids-ok.0 p1).1 x e).1;
            wired = wired;
            acyclic = (cycle-ok wired).0 p3;
            backwards = order-ok.0 p4;
            small_summary = summary-ok.0 p5;
          },
      λ a. t5.1 (
        t4.1 (
          t3.1 (
            t2.1 (
              t1.1 (
                t0.1 (a.new_plan, ids-ok.1 (a.distinct, λ x e. (refl, a.new_tasks x e))),
                tasks-ok.1 a.wired,
              ),
              (cycle-ok a.wired).1 a.acyclic,
            ),
            order-ok.1 a.backwards,
          ),
          summary-ok.1 a.small_summary,
        ),
        refl,
      ),
    )
