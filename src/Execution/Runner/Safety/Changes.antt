-- ===== src/Execution/Runner/Safety/Changes.antt =====
-- One change of `_apply_changes` in src/agentic_local_app/execution/plan_runner.py.
use mathlib.Core.Path.{subst}
use agentic_local_app.Base.{
  ℕ, ◌+◌, ◌≡◌, refl, true, false, some, List, [], ◌∷◌, arith, if◌then◌else◌, ◌==◌, inl, inr,
  Bool-cases, ==_iff, ok, bind-ok, ok-injective, all, and-true,
}
use agentic_local_app.Domain.States.{TaskState}
use agentic_local_app.Domain.Values.{task_state_enum}
use agentic_local_app.Domain.Transitions.{task_transitions, can_transition}
use agentic_local_app.Execution.Runner.{TaskRecord}
use agentic_local_app.Execution.Runner.Tasks.{Change, changed, find, completed_in, change_tasks}

abbrev pub total : (TaskRecord → ℕ) → List TaskRecord → ℕ
total f [] = 0
total f (t ∷ ts) = f t + total f ts

-- A change keeps the fields that the scheduler reads, and sets the status.
pub record Kept (to : TaskState) (t t' : TaskRecord) : Type 0 where
  pub same_id : t'.task_id ≡ t.task_id
  pub same_dependencies : t'.depends_on ≡ t.depends_on
  pub same_lock : t'.resource_lock ≡ t.resource_lock
  pub new_status : t'.status ≡ to

pub changed-Kept : (now : ℕ) (c : Change) (t : TaskRecord) → Kept c.to t (changed now c t)
changed-Kept now c t = ground arith

pub record Moves (id : ℕ) (to : TaskState) (ts ts' : List TaskRecord) : Type 0 where
  pub before : TaskRecord
  pub after : TaskRecord
  pub found : find id ts ≡ some before
  pub allowed : can_transition task_transitions before.status to ≡ true
  pub kept : Kept to before after
  pub lookup : (i : ℕ) → find i ts' ≡ (if id == i then some after else find i ts)
  pub sums : (f : TaskRecord → ℕ) → total f ts' + f before ≡ total f ts + f after

Moves-head :
    (now : ℕ) (c : Change) (t : TaskRecord) (ts : List TaskRecord)
    → (t.task_id == c.task_id) ≡ true
    → can_transition task_transitions t.status c.to ≡ true
    → Moves c.task_id c.to (t ∷ ts) (changed now c t ∷ ts)
Moves-head now c t ts e a = record {
  before = t;
  after = changed now c t;
  found = rw e;
  allowed = a;
  kept = changed-Kept now c t;
  lookup = λ i.
      rw ((changed-Kept now c t).same_id, (==_iff t.task_id c.task_id).0 e)
        (elim (Bool-cases (c.task_id == i)) [ inl p ↦ rw p refl | inr p ↦ rw p refl ]);
  sums = λ f. omega arith;
}

Moves-tail :
    (id : ℕ) (to : TaskState) (t : TaskRecord) (ts ts' : List TaskRecord)
    → (t.task_id == id) ≡ false
    → Moves id to ts ts'
    → Moves id to (t ∷ ts) (t ∷ ts')
Moves-tail id to t ts ts' e m = record {
  before = m.before;
  after = m.after;
  found = rw e m.found;
  allowed = m.allowed;
  kept = m.kept;
  lookup = λ i. ground (arith, m.lookup i);
  sums = λ f. omega (arith, m.sums f);
}

change_checked_lem :
    (now : ℕ) (c : Change) (t : TaskRecord) (ts ts' : List TaskRecord)
    → (t.task_id == c.task_id) ≡ true
    → change_tasks now c (t ∷ ts) ≡ ok ts'
    → (can_transition task_transitions t.status c.to ≡ true) × (changed now c t ∷ ts ≡ ts')
unfolding change_tasks
change_checked_lem now c t ts ts' e h =
    elim (Bool-cases (can_transition task_transitions t.status c.to)) [
      | inl a ↦ (a, cc (rw (e, a) at h))
      | inr a ↦ cc (rw (e, a) at h)
    ]

-- A change that is accepted moves exactly one task, the first with the identifier named, along a row
-- of the table of transitions; the task keeps its dependencies and its lock and has the new status,
-- every other identifier finds what it found, and every sum over the tasks changes by that task
-- alone.
pub change_tasks-Moves :
    (now : ℕ) (c : Change) (ts ts' : List TaskRecord)
    → change_tasks now c ts ≡ ok ts'
    → Moves c.task_id c.to ts ts'
unfolding change_tasks
change_tasks-Moves now c [] ts' h = cc
change_tasks-Moves now c (t ∷ ts) ts' h = elim (Bool-cases (t.task_id == c.task_id)) [
  | inl here ↦
      let (a, p) = change_checked_lem now c t ts ts' here h in
      subst (Moves c.task_id c.to (t ∷ ts)) p (Moves-head now c t ts here a)
  | inr there ↦
      let (us, e, q) = bind-ok (change_tasks now c ts) (λ us. ok (t ∷ us)) (rw there at h) in
      subst (Moves c.task_id c.to (t ∷ ts)) (ok-injective (t ∷ us) ts' q)
        (Moves-tail c.task_id c.to t ts us there (change_tasks-Moves now c ts us e))
]

-- A completed task stays completed, whatever moves.
pub completed_in-Moves :
    (id : ℕ) (to : TaskState) (ts ts' : List TaskRecord) (d : ℕ)
    → Moves id to ts ts'
    → completed_in ts d ≡ true
    → completed_in ts' d ≡ true
completed_in-Moves id to ts ts' d m h = ground (arith, m.lookup d)

pub all_completed-Moves :
    (id : ℕ) (to : TaskState) (ts ts' : List TaskRecord) (ds : List ℕ)
    → Moves id to ts ts'
    → all (completed_in ts) ds ≡ true
    → all (completed_in ts') ds ≡ true
all_completed-Moves id to ts ts' [] m h = refl
all_completed-Moves id to ts ts' (d ∷ ds) m h =
    let (p, q) = and-true (completed_in ts d) _ h in
    rw (completed_in-Moves id to ts ts' d m p) (all_completed-Moves id to ts ts' ds m q)
