-- ===== src/Protocol/Cycles.antt =====
-- src/agentic_local_app/protocol/adapter.py: `_find_cycle`, the depth-first search over the dependencies.
-- A dictionary over the task identifiers is a function. `path` is listed newest first, and so is
-- `stack`, whose iterators are the lists that are left of them.
pub mod Orders
pub mod Sound
pub mod Ends
pub mod Finds
use agentic_local_app.Base.{
  ℕ, zero, suc, ◌+◌, Bool, true, false, List, [], ◌∷◌, ◌==◌, if◌then◌else◌, drop, length,
}

pub data Color : Type 0 where
  white grey black : Color

abbrev pub Deps : Type 0
Deps = ℕ → List ℕ

-- `color[k] = c`
abbrev pub paint : (ℕ → Color) → ℕ → Color → ℕ → Color
paint color k c x = if x == k then c else color x

-- How a search ends; `exhausted` when the fuel is too little.
pub data Walked : Type 0 where
  found : List ℕ → Walked
  finished : (ℕ → Color) → Walked
  exhausted : Walked

-- `[*path[path.index(nxt):], nxt]`, for `tail = [nxt]`.
abbrev pub closed_path : ℕ → List ℕ → List ℕ → List ℕ
closed_path nxt [] tail = tail
closed_path nxt (x ∷ path) tail =
    let rest = closed_path nxt path (x ∷ tail) in if x == nxt then x ∷ tail else rest

-- `while stack: ...`
unfoldable pub walk : ℕ → Deps → (ℕ → Color) → List ℕ → List (ℕ × List ℕ) → Walked
walk zero deps color path stack = exhausted
walk (suc n) deps color path [] = finished color
walk (suc n) deps color path ((node, []) ∷ stack) =
    walk n deps (paint color node black) (drop 1 path) stack
walk (suc n) deps color path ((node, nxt ∷ pending) ∷ stack) = elim (color nxt) [
  | grey ↦ found (closed_path nxt path (nxt ∷ []))
  | white ↦
      walk n deps (paint color nxt grey) (nxt ∷ path) ((nxt, deps nxt) ∷ (node, pending) ∷ stack)
  | black ↦ walk n deps color path ((node, pending) ∷ stack)
]

-- `for start in order: ...`
unfoldable pub walk_all : ℕ → Deps → List ℕ → (ℕ → Color) → Walked
unfolding walk
walk_all n deps [] color = finished color
walk_all n deps (start ∷ order) color = elim (color start) [
  | white ↦ elim (walk n deps (paint color start grey) (start ∷ []) ((start, deps start) ∷ [])) [
    | found cycle ↦ found cycle
    | finished color' ↦ walk_all n deps order color'
    | exhausted ↦ exhausted
  ]
  | grey ↦ walk_all n deps order color
  | black ↦ walk_all n deps order color
]

-- A step for each task and for each dependency, and one more.
abbrev pub effort : Deps → List ℕ → ℕ
effort deps [] = 1
effort deps (x ∷ order) = suc (length (deps x)) + effort deps order

-- `_find_cycle`: `finished` stands for `None`.
unfoldable pub find_cycle : List ℕ → Deps → Walked
unfolding walk_all
find_cycle order deps = walk_all (suc (effort deps order)) deps order (λ x. white)
