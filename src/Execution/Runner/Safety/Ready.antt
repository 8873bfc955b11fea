-- ===== src/Execution/Runner/Safety/Ready.antt =====
-- The tasks that `_ready` of src/agentic_local_app/execution/plan_runner.py picks.
use agentic_local_app.Base.{
  ℕ, ◌+◌, ◌-◌, ◌≤◌, ◌≡◌, refl, Bool, true, false, ◌||◌, none, some, List, [], ◌∷◌, arith,
  if◌then◌else◌, ◌==◌, Bool-cases, inl, inr, ◌⊎◌, has, length, All, map,
}
use agentic_local_app.Domain.States.{TaskState}
use agentic_local_app.Domain.Transitions.{in_terminal_task_states}
use agentic_local_app.Execution.Runner.{TaskRecord, Run}
use agentic_local_app.Execution.Runner.Tasks.{dependencies_completed}
use agentic_local_app.Execution.Runner.Schedule.{
  is_sequential, is_launchable, with_lock, ready_from, ready,
}
use agentic_local_app.Execution.Runner.Safety.Changes.{total}

-- The first list is taken from the second in order, and what is passed over before its last element
-- has the property.
abbrev pub Takes : (TaskRecord → Type 0) → List TaskRecord → List TaskRecord → Type 0
Takes P [] ts = Unit
Takes P (u ∷ us) [] = ⊥
Takes P (u ∷ us) (t ∷ ts) = ((u ≡ t) × Takes P us ts) ⊎ (P t × Takes P (u ∷ us) ts)

abbrev pub wants : ℕ → TaskRecord → ℕ
wants lock t = elim t.resource_lock [ none ↦ 0 | some l ↦ if l == lock then 1 else 0 ]

abbrev pub one_if : Bool → ℕ
one_if true = 1
one_if false = 0

-- A task may be passed over in a parallel plan, or where it has ended.
abbrev pub MayPass : Bool → TaskRecord → Type 0
MayPass sequential t = (sequential ≡ false) ⊎ (in_terminal_task_states t.status ≡ true)

pub record IsReady (sequential : Bool) (tasks : List TaskRecord) (held : List ℕ) (slots : ℕ)
    (picked : List ℕ) (ts us : List TaskRecord) (ids : List ℕ) : Type 0 where
  pub named : map (λ t. t.task_id) us ≡ ids
  pub in_order : Takes (MayPass sequential) us ts
  pub room : length us ≤ slots
  pub launchable :
      All (λ t. (t.status ≡ TaskState.pending) × (dependencies_completed tasks t ≡ true)) us
  pub locks : (lock : ℕ) → total (wants lock) us + one_if (has lock held || has lock picked) ≤ 1

module _ (sequential : Bool) (tasks : List TaskRecord) (held : List ℕ) where
  IsReady-none :
      (slots : ℕ) (picked : List ℕ) (ts : List TaskRecord)
      → IsReady sequential tasks held slots picked ts [] []
  IsReady-none slots picked ts = record {
    named = refl;
    in_order = tt;
    room = omega arith;
    launchable = tt;
    locks = λ lock. ground arith;
  }

  IsReady-take :
      (slots : ℕ) (picked : List ℕ) (t : TaskRecord) (ts us : List TaskRecord) (ids : List ℕ)
      → (slots == 0) ≡ false
      → is_launchable tasks held picked t ≡ true
      → IsReady sequential tasks held (slots - 1) (with_lock t.resource_lock picked) ts us ids
      → IsReady sequential tasks held slots picked (t ∷ ts) (t ∷ us) (t.task_id ∷ ids)
  IsReady-take slots picked t ts us ids s l h = record {
    named = cc (h.named);
    in_order = inl (refl, h.in_order);
    room = ground (arith, h.room);
    launchable = (ground arith, h.launchable);
    locks = λ lock. ground (arith, h.locks lock);
  }

  IsReady-skip :
      (slots : ℕ) (picked : List ℕ) (t : TaskRecord) (ts us : List TaskRecord) (ids : List ℕ)
      → MayPass sequential t
      → IsReady sequential tasks held slots picked ts us ids
      → IsReady sequential tasks held slots picked (t ∷ ts) us ids
  IsReady-skip slots picked t ts [] ids m h = record {
    named = h.named;
    in_order = tt;
    room = h.room;
    launchable = h.launchable;
    locks = h.locks;
  }
  IsReady-skip slots picked t ts (u ∷ us) ids m h = record {
    named = h.named;
    in_order = inr (m, h.in_order);
    room = h.room;
    launchable = h.launchable;
    locks = h.locks;
  }

-- A sequential plan waits for a task that is not ready, a parallel one passes it over.
wait_or_pass :
    (sequential : Bool) (tasks : List TaskRecord) (held : List ℕ) (slots : ℕ) (picked : List ℕ)
    (t : TaskRecord) (ts : List TaskRecord) (ids : List ℕ)
    → (us : List TaskRecord) × IsReady sequential tasks held slots picked ts us ids
    → (us : List TaskRecord) × IsReady sequential tasks held slots picked
        (t ∷ ts)
        us
        (if sequential then [] else ids)
wait_or_pass true tasks held slots picked t ts ids r =
    ([], IsReady-none true tasks held slots picked (t ∷ ts))
wait_or_pass false tasks held slots picked t ts ids (us, h) =
    (us, IsReady-skip false tasks held slots picked t ts us ids (inl refl) h)

module _ (sequential : Bool) (tasks : List TaskRecord) (held : List ℕ) where
  ready_from-IsReady :
      (slots : ℕ) (picked : List ℕ) (ts : List TaskRecord)
      → (us : List TaskRecord) × IsReady sequential tasks held slots picked ts us
          (ready_from sequential tasks held slots picked ts)
  unfolding ready_from
  ready_from-IsReady slots picked [] = ([], IsReady-none sequential tasks held slots picked [])
  ready_from-IsReady slots picked (t ∷ ts) = elim (Bool-cases (slots == 0)) [
    | inl full ↦ rw full ([], IsReady-none sequential tasks held slots picked (t ∷ ts))
    | inr free ↦ elim (Bool-cases (in_terminal_task_states t.status)) [
      | inl ended ↦
          let (us, h) = ready_from-IsReady slots picked ts in
          rw (free, ended)
            (us, IsReady-skip sequential tasks held slots picked t ts us _ (inr ended) h)
      | inr live ↦ elim (Bool-cases (is_launchable tasks held picked t)) [
        | inl good ↦
            let (us, h) = ready_from-IsReady (slots - 1) (with_lock t.resource_lock picked) ts in
            rw (free, live, good)
              (t ∷ us, IsReady-take sequential tasks held slots picked t ts us _ free good h)
        | inr bad ↦
            rw (free, live, bad)
              (wait_or_pass sequential tasks held slots picked t ts _
                (ready_from-IsReady slots picked ts))
      ]
    ]
  ]

-- What `ready` picks are the identifiers of tasks of the plan, in its order, that are pending with
-- every dependency completed; they are at most as many as there are free workers; no two of them
-- have the same lock, and none has a lock that is held. In a sequential plan every task before the
-- last one picked has ended.
pub ready-IsReady :
    (r : Run)
    → (us : List TaskRecord) × IsReady
        (is_sequential r.plan)
        r.tasks
        r.held_locks
        (r.workers - length r.running)
        []
        r.tasks
        us
        (ready r)
unfolding ready
ready-IsReady r =
    ready_from-IsReady (is_sequential r.plan) r.tasks r.held_locks (r.workers - length r.running) []
      r.tasks
