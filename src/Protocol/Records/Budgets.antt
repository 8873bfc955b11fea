-- ===== src/Protocol/Records/Budgets.antt =====
-- src/agentic_local_app/protocol/adapter.py: the budgets and flags of the records of a plan.
use mathlib.Core.Path.{subst}
use agentic_local_app.Base.{
  ℕ, suc, ◌≤◌, ◌≡◌, refl, ap, ◌∙◌, Bool, true, false, Option, none, some, List, [], ◌∷◌, map, min,
  All, arith, ok, Returns, is_in, get_or, ◌≢◌, ◌↔◌, ◌⊎◌, ◌||◌, not,
}
use agentic_local_app.Domain.States.{TaskType, TaskState, MessageType, PlanType}
use agentic_local_app.Domain.Values.{task_type_enum, message_type_enum}
use agentic_local_app.Domain.Messages.{plan_message_types, plan_type_for_message}
use agentic_local_app.Protocol.Inbound.{TaskMessage, PlanContent, Schema}
use agentic_local_app.Protocol.Inbound.Plans.{task_ids, resolve_continue_on_error}
use agentic_local_app.Protocol.Inbound.Content.{
  Expected, Limits, InboundMessage, plan_content, parse_inbound,
}
use agentic_local_app.Protocol.Inbound.Accepted.Contents.{IsContent}
use agentic_local_app.Protocol.Inbound.Accepted.Messages.{parse_inbound-IsParsed}
use agentic_local_app.Protocol.Records.{
  ApplyConfig, TaskRow, PlanRow, task_record, task_records, plan_to_records, plan_record,
}

-- The effective values of a task that is ready to run: within the hard limits of the application; a chunk is
-- read without a timeout and within its output budget.
pub record IsFitted (config : ApplyConfig) (t : TaskRow) : Type 0 where
  pub is_pending : t.base.status ≡ TaskState.pending
  pub output : t.max_output_bytes_applied ≤ config.hard_max_output_bytes
  pub timeout :
      t.base.type ≡ TaskType.cmd
      → (n : ℕ) × (t.timeout_ms_applied ≡ some n) × (n ≤ config.max_task_timeout_ms)
  pub chunk :
      t.base.type ≡ TaskType.chunk_request
      → (t.timeout_ms_applied ≡ none) × (t.max_bytes ≡ some t.max_output_bytes_applied)

-- The plan goes on after a failure of the task: the message declares it neither critical nor stopping, and says
-- itself, or leaves it to the plan to say, that an error lets the plan continue.
abbrev pub GoesOn : Option Bool → TaskMessage → Type 0
GoesOn plan_default t =
    (t.critical ≢ some true)
    × (t.stop_plan_on_failure ≢ some true)
    × ((t.continue_on_error ≡ some true)
        ⊎ (t.continue_on_error ≡ none) × (plan_default ≡ some true))

-- The row of each task, in the order of the tasks, stops the plan on a failure unless the message lets it go on.
abbrev pub StopAsDeclared : Option Bool → List TaskMessage → List TaskRow → Type 0
StopAsDeclared plan_default [] [] = Unit
StopAsDeclared plan_default (t ∷ tasks) (r ∷ rows) =
    ((r.base.stops_plan_on_failure ≡ false) ↔ GoesOn plan_default t)
    × StopAsDeclared plan_default tasks rows
StopAsDeclared plan_default _ _ = ⊥

stops-GoesOn :
    (critical stop own plan_default : Option Bool)
    → ((get_or critical false
          || get_or stop false
          || not (resolve_continue_on_error own plan_default))
        ≡ false)
      ↔ ((critical ≢ some true)
          × (stop ≢ some true)
          × ((own ≡ some true) ⊎ (own ≡ none) × (plan_default ≡ some true)))
stops-GoesOn critical stop own plan_default = ground arith

task_records-StopAsDeclared :
    (config : ApplyConfig) (now : ℕ) (plan : PlanRow) (continues : Option Bool) (index : ℕ)
    (tasks : List TaskMessage)
    → StopAsDeclared continues tasks (task_records config now plan continues index tasks)
unfolding task_records task_record
task_records-StopAsDeclared config now plan continues index [] = tt
task_records-StopAsDeclared config now plan continues index (t ∷ tasks) = (
  stops-GoesOn t.critical t.stop_plan_on_failure t.continue_on_error continues,
  task_records-StopAsDeclared config now plan continues (suc index) tasks,
)

-- The rows are numbered in the order of the plan.
abbrev pub Numbered : ℕ → List TaskRow → Type 0
Numbered n [] = Unit
Numbered n (t ∷ rows) = (t.base.order_index ≡ n) × Numbered (suc n) rows

task_record-IsFitted :
    (config : ApplyConfig) (now : ℕ) (plan : PlanRow) (continues : Option Bool) (index : ℕ)
    (t : TaskMessage)
    → IsFitted config (task_record config now plan continues index t)
unfolding task_record
task_record-IsFitted config now plan continues index t = record {
  is_pending = refl;
  output = ground arith;
  timeout = λ e. (
    min (get_or t.timeout_ms config.default_task_timeout_ms) config.max_task_timeout_ms,
    ground (arith, e),
    ground arith,
  );
  chunk = λ e. ground (arith, e);
}

-- What the rows of a plan keep of its tasks.
task_records-kept :
    (config : ApplyConfig) (now : ℕ) (plan : PlanRow) (continues : Option Bool) (index : ℕ)
    (tasks : List TaskMessage)
    → let rows = task_records config now plan continues index tasks in
      (map (λ (r : TaskRow). r.base.task_id) rows ≡ task_ids tasks)
      × (map (λ (r : TaskRow). r.base.depends_on) rows
          ≡ map (λ (t : TaskMessage). t.depends_on) tasks)
      × Numbered index rows
      × All (λ (r : TaskRow). r.base.plan_id ≡ plan.base.plan_id) rows
      × All (IsFitted config) rows
unfolding task_records task_record
task_records-kept config now plan continues index [] = (refl, refl, tt, tt, tt)
task_records-kept config now plan continues index (t ∷ tasks) =
    let (ids, deps, numbers, plans, fitted) =
      task_records-kept config now plan continues (suc index) tasks in
    (
      ap (λ xs. t.task_id ∷ xs) ids,
      ap (λ xs. t.depends_on ∷ xs) deps,
      (refl, numbers),
      (refl, plans),
      (task_record-IsFitted config now plan continues index t, fitted),
    )

-- The rows of an accepted plan.
abbrev pub AreRowsOf : ApplyConfig → PlanContent → PlanRow × List TaskRow → Type 0
AreRowsOf config p (plan, rows) =
    (plan.base.plan_id ≡ p.plan_id)
    × (map (λ (r : TaskRow). r.base.task_id) rows ≡ task_ids p.tasks)
    × (map (λ (r : TaskRow). r.base.depends_on) rows
        ≡ map (λ (t : TaskMessage). t.depends_on) p.tasks)
    × Numbered 0 rows
    × All (λ (r : TaskRow). r.base.plan_id ≡ p.plan_id) rows
    × All (IsFitted config) rows
    × StopAsDeclared p.default_continue_on_error p.tasks rows

plan_type-some :
    (type : MessageType)
    → is_in type plan_message_types ≡ true
    → (k : PlanType) × (plan_type_for_message type ≡ some k)
plan_type-some MessageType.discovery_plan h = (PlanType.discovery_plan, refl)
plan_type-some MessageType.execution_plan h = (PlanType.execution_plan, refl)
plan_type-some MessageType.priority_clarification h = (PlanType.priority_clarification, refl)
plan_type-some MessageType.user_request h = cc
plan_type-some MessageType.execution_result h = cc
plan_type-some MessageType.final_answer h = cc
plan_type-some MessageType.user_response h = cc
plan_type-some MessageType.context_resume_request h = cc
plan_type-some MessageType.context_resume_ack h = cc
plan_type-some MessageType.protocol_correction_request h = cc
plan_type-some MessageType.chunk_request h = cc
plan_type-some MessageType.system_error h = cc

-- A reply that was accepted with a plan always becomes records: they keep the plan's tasks in order with their
-- dependencies, are pending, and carry output budgets and timeouts within the limits of the application. The
-- failure of a task is left without effect on the plan exactly if the message declares the task neither critical
-- nor stopping, and declares, itself or else by the default of the plan, that an error lets the plan continue.
pub plan_to_records-AreRows :
    {Raw Content : Type 0} (schema : Schema Raw Content) (limits : Limits) (expected : Expected)
    (raws : List Raw) (m : InboundMessage Content) (p : PlanContent) (config : ApplyConfig)
    (now session conversation cycle : ℕ)
    → parse_inbound schema limits raws expected ≡ ok m
    → m.content ≡ plan_content p
    → Returns (AreRowsOf config p) (plan_to_records config now session conversation cycle m)
unfolding plan_to_records
plan_to_records-AreRows schema limits expected raws m p config now session conversation cycle
      accepted is_plan =
    let parsed = parse_inbound-IsParsed schema limits expected raws m accepted in
    let fits : IsContent schema limits expected m.envelope (plan_content p) m.warnings =
      subst (λ c. IsContent schema limits expected m.envelope c m.warnings) is_plan
        parsed.content_fits in
    let (k, type) = plan_type-some m.envelope.type fits.0 in
    let has_type : m.plan_type ≡ some k =
      parsed.plan_type_fits ∙ ap plan_type_for_message parsed.same_type ∙ type in
    let (ids, deps, numbers, plans, fitted) =
      task_records-kept config now (plan_record now session conversation cycle k p)
        p.default_continue_on_error 0 p.tasks in
    rw (has_type, is_plan, plan_to_records)
      (
        refl,
        ids,
        deps,
        numbers,
        plans,
        fitted,
        task_records-StopAsDeclared config now (plan_record now session conversation cycle k p)
            p.default_continue_on_error 0 p.tasks,
      )
