-- ===== src/Execution/Collector/Sorted.antt =====
-- src/agentic_local_app/execution/result_collector.py: the order of the tasks of a report.
use mathlib.Core.List.{Perm}
use mathlib.Core.List.Perm
use agentic_local_app.Base.{
  ℕ, ◌≤◌, ◌≡◌, refl, Bool, true, false, List, [], ◌∷◌, leb, if◌then◌else◌, All, arith,
}
use agentic_local_app.Execution.Collector.{StoredTask, insert_stored, sort_stored}

-- The index grows along the list.
abbrev pub IsSorted : List StoredTask → Type 0
IsSorted [] = Unit
IsSorted (t ∷ ts) =
    All (λ (u : StoredTask). t.base.order_index ≤ u.base.order_index) ts × IsSorted ts

insert-Perm : (t : StoredTask) (us : List StoredTask) → Perm (insert_stored t us) (t ∷ us)
insert-Perm t [] = Perm.refl (t ∷ [])
insert-Perm t (u ∷ us) = go (leb t.base.order_index u.base.order_index) (insert-Perm t us)
  where
    go :
        (b : Bool)
        → Perm (insert_stored t us) (t ∷ us)
        → Perm (if b then t ∷ u ∷ us else u ∷ insert_stored t us) (t ∷ u ∷ us)
    go true h = Perm.refl (t ∷ u ∷ us)
    go false h = Perm.trans (Perm.cons u h) (Perm.swap t u us)

pub sort-Perm : (tasks : List StoredTask) → Perm (sort_stored tasks) tasks
sort-Perm [] = Perm.nil
sort-Perm (t ∷ ts) = Perm.trans (insert-Perm t (sort_stored ts)) (Perm.cons t (sort-Perm ts))

insert-All :
    (P : StoredTask → Type 0) (t : StoredTask) (us : List StoredTask)
    → P t
    → All P us
    → All P (insert_stored t us)
insert-All P t [] h hs = (h, tt)
insert-All P t (u ∷ us) h (k, ks) =
    go (leb t.base.order_index u.base.order_index) (insert-All P t us h ks)
  where
    go :
        (b : Bool)
        → All P (insert_stored t us)
        → All P (if b then t ∷ u ∷ us else u ∷ insert_stored t us)
    go true rest = (h, (k, ks))
    go false rest = (k, rest)

All-above :
    (m n : ℕ) (us : List StoredTask)
    → m ≤ n
    → All (λ (u : StoredTask). n ≤ u.base.order_index) us
    → All (λ (u : StoredTask). m ≤ u.base.order_index) us
All-above m n [] h hs = tt
All-above m n (u ∷ us) h (k, ks) = (omega (arith, h, k), All-above m n us h ks)

insert-IsSorted :
    (t : StoredTask) (us : List StoredTask) → IsSorted us → IsSorted (insert_stored t us)
insert-IsSorted t [] h = (tt, tt)
insert-IsSorted t (u ∷ us) (above, sorted) =
    go (leb t.base.order_index u.base.order_index) refl (insert-IsSorted t us sorted)
  where
    later : (m n : ℕ) → leb m n ≡ false → n ≤ m
    later m n e = ground (arith, e)

    sooner : (m n : ℕ) → leb m n ≡ true → m ≤ n
    sooner m n e = ground (arith, e)

    go :
        (b : Bool)
        → leb t.base.order_index u.base.order_index ≡ b
        → IsSorted (insert_stored t us)
        → IsSorted (if b then t ∷ u ∷ us else u ∷ insert_stored t us)
    go true e rest =
        let first = sooner t.base.order_index u.base.order_index e in
        ((first, All-above t.base.order_index u.base.order_index us first above), (above, sorted))
    go false e rest = (
      insert-All (λ (v : StoredTask). u.base.order_index ≤ v.base.order_index) t us
          (later t.base.order_index u.base.order_index e) above,
      rest,
    )

pub sort-IsSorted : (tasks : List StoredTask) → IsSorted (sort_stored tasks)
sort-IsSorted [] = tt
sort-IsSorted (t ∷ ts) = insert-IsSorted t (sort_stored ts) (sort-IsSorted ts)
