-- ===== src/Protocol/Inbound/Accepted/Checks.antt =====
-- src/agentic_local_app/protocol/adapter.py: each check of `_validate_plan` on its own.
use mathlib.Core.Path.{subst}
use agentic_local_app.Base.{
  ℕ, ◌≤◌, ◌≡◌, refl, ◌↔◌, Bool, true, false, not, ◌&&◌, Option, none, some, List, [], ◌∷◌, ◌==◌,
  ltb, has, arith, ==_iff, ==_refl, Bool-cases, inl, inr, All, Result, ok, err, ◌>>◌, raise_if,
  ◌is◌,
}
use agentic_local_app.Domain.States.{TaskType}
use agentic_local_app.Domain.Values.{task_type_enum, execution_policy_enum}
use agentic_local_app.Protocol.Cycles.{Walked, found, finished, exhausted, find_cycle}
use agentic_local_app.Protocol.Cycles.Orders.{IsCycle}
use agentic_local_app.Protocol.Cycles.Ends.{IsClosed}
use agentic_local_app.Protocol.Cycles.Finds.{Decides, find_cycle-Decides}
use agentic_local_app.Protocol.Inbound.{
  TaskMessage, ProtocolError, self_dependency, unknown_dependency, forward_dependency_in_sequential,
  duplicate_task_id_in_plan, duplicate_task_id_in_session, chunk_ref_unknown,
  state_summary_too_large,
}
use agentic_local_app.Protocol.Inbound.Plans.{
  task_ids, check_ids, check_dependencies, refers_to_stored, check_tasks, deps_of, check_cycle,
  position, check_backwards, check_sequence, check_summary,
}
use agentic_local_app.Protocol.Inbound.Accepted.{Distinct, IsWired, DependsBackwards}

-- One test, or two, before the rest.
pub one-ok :
    {E A : Type 0} (a : Bool) (e : E) (k : Result E A) (r : A)
    → ((raise_if a e >> k) ≡ ok r) ↔ ((a ≡ false) × (k ≡ ok r))
one-ok true e k r = (λ h. cc, λ h. cc h.0)
one-ok false e k r = (λ h. (refl, h), λ h. h.1)

pub two-ok :
    {E A : Type 0} (a b : Bool) (e f : E) (k : Result E A) (r : A)
    → ((raise_if a e >> raise_if b f >> k) ≡ ok r) ↔ ((a ≡ false) × (b ≡ false) × (k ≡ ok r))
two-ok true b e f k r = (λ h. cc, λ h. cc h.0)
two-ok false true e f k r = (λ h. cc, λ h. cc h.1)
two-ok false false e f k r = (λ h. (refl, refl, h), λ h. h.2)

pub then-ok :
    {E A : Type 0} (m : Result E (Unit {0})) (k : Result E A) (r : A)
    → ((m >> k) ≡ ok r) ↔ ((m ≡ ok tt) × (k ≡ ok r))
then-ok (ok u) k r = (λ h. (refl, h), λ h. h.1)
then-ok (err e) k r = (λ h. cc, λ h. cc h.0)

-- What holds of every member.
each-cons :
    (P : ℕ → Type 0) (x : ℕ) (xs : List ℕ)
    → ((d : ℕ) → has d (x ∷ xs) ≡ true → P d) ↔ (P x × ((d : ℕ) → has d xs ≡ true → P d))
each-cons P x xs = (
  λ h. (h x (ground (arith, ==_refl x)), λ d e. h d (ground (arith, e))),
  λ h d e. elim (Bool-cases (x == d)) [
    | inl p ↦ subst P ((==_iff x d).0 p) h.0
    | inr p ↦ h.1 d (ground (arith, e, p))
  ],
)

abbrev pub IsOther : List ℕ → ℕ → ℕ → Type 0
IsOther ids task d = ((d == task) ≡ false) × (has d ids ≡ true)

pub check_dependencies-ok :
    (ids : List ℕ) (task : ℕ) (depends_on : List ℕ)
    → (check_dependencies ids task depends_on ≡ ok tt)
      ↔ ((d : ℕ) → has d depends_on ≡ true → IsOther ids task d)
check_dependencies-ok ids task [] = (λ h d e. cc, λ h. refl)
check_dependencies-ok ids task (x ∷ depends_on) =
    let test =
      two-ok (x == task) (not (has x ids)) (self_dependency task) (unknown_dependency task x)
        (check_dependencies ids task depends_on) tt in
    let each = each-cons (IsOther ids task) x depends_on in
    let rest = check_dependencies-ok ids task depends_on in
    (
      λ h. let (a, b, c) = test.0 h in each.1 ((a, ground (arith, b)), rest.0 c),
      λ h. let ((a, b), c) = each.0 h in test.1 (a, ground (arith, b), rest.1 c),
    )

abbrev pub IsBefore : List ℕ → ℕ → ℕ → Type 0
IsBefore order task d = position order d ≤ position order task

pub check_backwards-ok :
    (order : List ℕ) (task : ℕ) (depends_on : List ℕ)
    → (check_backwards order task depends_on ≡ ok tt)
      ↔ ((d : ℕ) → has d depends_on ≡ true → IsBefore order task d)
check_backwards-ok order task [] = (λ h d e. cc, λ h. refl)
check_backwards-ok order task (x ∷ depends_on) =
    let test =
      one-ok (ltb (position order task) (position order x))
        (forward_dependency_in_sequential task x) (check_backwards order task depends_on) tt in
    let each = each-cons (IsBefore order task) x depends_on in
    let rest = check_backwards-ok order task depends_on in
    (
      λ h. let (a, c) = test.0 h in each.1 (ground (arith, a), rest.0 c),
      λ h. let (a, c) = each.0 h in test.1 (ground (arith, a), rest.1 c),
    )

pub check_sequence-ok :
    (order : List ℕ) (tasks : List TaskMessage)
    → (check_sequence order tasks ≡ ok tt) ↔ All (DependsBackwards order) tasks
check_sequence-ok order [] = (λ h. tt, λ h. refl)
check_sequence-ok order (t ∷ tasks) =
    let test =
      then-ok (check_backwards order t.task_id t.depends_on) (check_sequence order tasks) tt in
    let one = check_backwards-ok order t.task_id t.depends_on in
    let rest = check_sequence-ok order tasks in
    (λ h. let (a, c) = test.0 h in (one.0 a, rest.0 c), λ h. test.1 (one.1 h.0, rest.1 h.1))

abbrev IsStoredRef : List ℕ → TaskMessage → Type 0
IsStoredRef stored t =
    t.type ≡ TaskType.chunk_request
    → (ref : ℕ) × (t.ref_task_id ≡ some ref) × (has ref stored ≡ true)

refers-ok :
    (stored : List ℕ) (ref : Option ℕ)
    → (refers_to_stored stored ref ≡ true) ↔ ((r : ℕ) × (ref ≡ some r) × (has r stored ≡ true))
refers-ok stored none = (λ h. cc, λ h. cc h.1)
refers-ok stored (some r) = (λ h. (r, refl, h), λ h. cc (h.1, h.2))

chunk-ok :
    (stored : List ℕ) (t : TaskMessage)
    → (raise_if
          (t.type is TaskType.chunk_request && not (refers_to_stored stored t.ref_task_id))
          (chunk_ref_unknown t.task_id t.ref_task_id)
        ≡ ok tt)
      ↔ IsStoredRef stored t
chunk-ok stored t =
    go t.type (refers_to_stored stored t.ref_task_id) (refers-ok stored t.ref_task_id)
  where
    go :
        (type : TaskType) (stores : Bool)
        → (stores ≡ true) ↔ ((r : ℕ) × (t.ref_task_id ≡ some r) × (has r stored ≡ true))
        → (raise_if
              (type is TaskType.chunk_request && not stores)
              (chunk_ref_unknown t.task_id t.ref_task_id)
            ≡ ok tt)
          ↔ (type ≡ TaskType.chunk_request
              → (r : ℕ) × (t.ref_task_id ≡ some r) × (has r stored ≡ true))
    go TaskType.cmd stores i = (λ h e. cc, λ h. refl)
    go TaskType.chunk_request true i = (λ h e. i.0 refl, λ h. refl)
    go TaskType.chunk_request false i = (λ h. cc, λ h. cc (i.1 (h refl)))

pub check_tasks-ok :
    (ids stored : List ℕ) (tasks : List TaskMessage)
    → (check_tasks ids stored tasks ≡ ok tt) ↔ All (IsWired ids stored) tasks
check_tasks-ok ids stored [] = (λ h. tt, λ h. refl)
check_tasks-ok ids stored (t ∷ tasks) =
    let bad = t.type is TaskType.chunk_request && not (refers_to_stored stored t.ref_task_id) in
    let fault = chunk_ref_unknown t.task_id t.ref_task_id in
    let deps = check_dependencies ids t.task_id t.depends_on in
    let test = then-ok (deps >> raise_if bad fault) (check_tasks ids stored tasks) tt in
    let pair = then-ok deps (raise_if bad fault) tt in
    let one = check_dependencies-ok ids t.task_id t.depends_on in
    let chunk = chunk-ok stored t in
    let rest = check_tasks-ok ids stored tasks in
    (
      λ h. let (a, c) = test.0 h in let (d, e) = pair.0 a in ((one.0 d, chunk.0 e), rest.0 c),
      λ h. let ((d, e), c) = h in test.1 (pair.1 (one.1 d, chunk.1 e), rest.1 c),
    )

not_again :
    (id : ℕ) (ids seen : List ℕ)
    → (has id ids ≡ true → has id (id ∷ seen) ≡ false)
    → has id ids ≡ false
not_again id ids seen h = ground (arith, h, ==_refl id)

unseen :
    (id x : ℕ) (ids seen : List ℕ)
    → has id ids ≡ false
    → has x ids ≡ true
    → has x seen ≡ false
    → has x (id ∷ seen) ≡ false
unseen id x ids seen n e s = elim (Bool-cases (id == x)) [
  | inl p ↦ cc (n, e, (==_iff id x).0 p)
  | inr p ↦ ground (arith, p, s)
]

pub check_ids-ok :
    (known seen : List ℕ) (tasks : List TaskMessage)
    → (check_ids known seen tasks ≡ ok tt) ↔ (
        Distinct (task_ids tasks)
        × ((x : ℕ) → has x (task_ids tasks) ≡ true → (has x seen ≡ false) × (has x known ≡ false)))
check_ids-ok known seen [] = (λ h. (tt, λ x e. cc), λ h. refl)
check_ids-ok known seen (t ∷ tasks) =
    let id = t.task_id in
    let test =
      two-ok (has id seen) (has id known) (duplicate_task_id_in_plan id)
        (duplicate_task_id_in_session id) (check_ids known (id ∷ seen) tasks) tt in
    let each = each-cons (λ x. (has x seen ≡ false) × (has x known ≡ false)) id (task_ids tasks) in
    let rest = check_ids-ok known (id ∷ seen) tasks in
    (
      λ h.
          let (a, b, c) = test.0 h in
          let (distinct, new) = rest.0 c in
          (
            (not_again id (task_ids tasks) seen (λ e. (new id e).0), distinct),
            each.1 ((a, b), λ x e. (ground (arith, (new x e).0), (new x e).1)),
          ),
      λ h.
          let ((n, distinct), new) = h in
          let ((a, b), later) = each.0 new in
          test.1 (
            a,
            b,
            rest.1 (
              distinct,
              λ x e. (unseen id x (task_ids tasks) seen n e (later x e).0, (later x e).1),
            ),
          ),
    )

pub within : (n limit : ℕ) (e : ProtocolError) → (raise_if (ltb limit n) e ≡ ok tt) ↔ (n ≤ limit)
within n limit e = ground arith

pub check_summary-ok :
    (summary_bytes : ℕ → ℕ) (limit : ℕ) (summary : Option ℕ)
    → (check_summary summary_bytes limit summary ≡ ok tt)
      ↔ ((s : ℕ) → summary ≡ some s → summary_bytes s ≤ limit)
check_summary-ok summary_bytes limit none = (λ h s e. cc, λ h. refl)
check_summary-ok summary_bytes limit (some s) =
    let test = within (summary_bytes s) limit (state_summary_too_large (summary_bytes s) limit) in
    (λ h r e. subst (λ x. summary_bytes x ≤ limit) (cc e) (test.0 h), λ h. test.1 (h s refl))

-- Every dependency of a wired task is a task.
pub wired-IsClosed :
    (ids stored : List ℕ) (tasks : List TaskMessage) (x y : ℕ)
    → All (IsWired ids stored) tasks
    → has y (deps_of tasks x) ≡ true
    → has y ids ≡ true
wired-IsClosed ids stored [] x y w h = cc
wired-IsClosed ids stored (t ∷ tasks) x y (w, ws) h = elim (Bool-cases (t.task_id == x)) [
  | inl p ↦ (w.0 y (ground (arith, h, p))).1
  | inr p ↦ wired-IsClosed ids stored tasks x y ws (ground (arith, h, p))
]

-- Only a task has dependencies.
deps_of-none :
    (tasks : List TaskMessage) (x y : ℕ)
    → has y (deps_of tasks x) ≡ true
    → has x (task_ids tasks) ≡ true
deps_of-none [] x y h = cc
deps_of-none (t ∷ tasks) x y h = ground (arith, deps_of-none tasks x y, h)

pub check_cycle-ok :
    (tasks : List TaskMessage)
    → IsClosed (deps_of tasks) (task_ids tasks)
    → (check_cycle tasks (find_cycle (task_ids tasks) (deps_of tasks)) ≡ ok tt)
      ↔ ((cycle : List ℕ) → IsCycle (deps_of tasks) cycle → ⊥)
check_cycle-ok tasks closed =
    go (find_cycle (task_ids tasks) (deps_of tasks))
      (find_cycle-Decides (task_ids tasks) (deps_of tasks) closed)
  where
    none_found :
        ((x : ℕ) (path : List ℕ)
          → has x (task_ids tasks) ≡ true
          → IsCycle (deps_of tasks) (x ∷ path)
          → ⊥)
        → (cycle : List ℕ) → IsCycle (deps_of tasks) cycle
        → ⊥
    none_found h [] c = c
    none_found h (x ∷ []) c = c
    none_found h (x ∷ y ∷ path) c = h x (y ∷ path) (deps_of-none tasks x y c.0) c

    go :
        (w : Walked)
        → Decides (task_ids tasks) (deps_of tasks) w
        → (check_cycle tasks w ≡ ok tt) ↔ ((cycle : List ℕ) → IsCycle (deps_of tasks) cycle → ⊥)
    go (found cycle) d = (λ h. cc, λ h. elim (h cycle d) [ ])
    go (finished c) d = (λ h. none_found d.1, λ h. refl)
    go exhausted d = elim d [ ]
