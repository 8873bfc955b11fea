-- ===== src/Protocol/Cycles/Orders.antt =====
-- src/agentic_local_app/protocol/adapter.py: orders and cycles of the dependencies.
use agentic_local_app.Base.{
  ℕ, suc, ◌<◌, ◌≤◌, ◌≡◌, true, List, [], ◌∷◌, ◌==◌, if◌then◌else◌, has, length, arith, ==_iff,
  Bool-cases, inl, inr,
}
use agentic_local_app.Protocol.Cycles.{Deps}

-- Each task stands before the tasks that it depends on.
abbrev pub Ordered : Deps → List ℕ → Type 0
Ordered deps [] = Unit
Ordered deps (x ∷ xs) = ((y : ℕ) → has y (deps x) ≡ true → has y xs ≡ true) × Ordered deps xs

-- From `x` along dependencies to `y`.
abbrev pub Leads : Deps → ℕ → List ℕ → ℕ → Type 0
Leads deps x [] y = x ≡ y
Leads deps x (z ∷ zs) y = (has z (deps x) ≡ true) × Leads deps z zs y

-- A path of at least one dependency that ends where it began.
abbrev pub IsCycle : Deps → List ℕ → Type 0
IsCycle deps [] = ⊥
IsCycle deps (x ∷ []) = ⊥
IsCycle deps (x ∷ y ∷ zs) = Leads deps x (y ∷ zs) x

-- How far from the end the last `x` stands.
abbrev rank : ℕ → List ℕ → ℕ
rank x [] = 0
rank x (y ∷ ys) = if has x ys then rank x ys else if y == x then suc (length ys) else 0

rank-le : (x : ℕ) (ys : List ℕ) → rank x ys ≤ length ys
rank-le x [] = ground arith
rank-le x (y ∷ ys) = ground (arith, rank-le x ys)

-- A dependency ranks below.
rank_falls :
    (deps : Deps) (xs : List ℕ) (x y : ℕ)
    → Ordered deps xs
    → has x xs ≡ true
    → has y (deps x) ≡ true
    → (has y xs ≡ true) × (rank y xs < rank x xs)
rank_falls deps [] x y o h d = ground arith
rank_falls deps (z ∷ zs) x y (first, o) h d = elim (Bool-cases (has x zs)) [
  | inl e ↦ ground (arith, rank_falls deps zs x y o e d)
  | inr e ↦ ground (arith, rank-le y zs, (==_iff z x).0, first y)
]

-- Along a path the rank falls.
Leads-falls :
    (deps : Deps) (xs : List ℕ) (x y : ℕ) (path : List ℕ)
    → Ordered deps xs
    → has x xs ≡ true
    → Leads deps x path y
    → rank y xs ≤ rank x xs
Leads-falls deps xs x y [] o h e = rw e (ground arith)
Leads-falls deps xs x y (z ∷ zs) o h (d, rest) =
    let (h', lt) = rank_falls deps xs x z o h d in
    let le = Leads-falls deps xs z y zs o h' rest in omega arith

-- A cycle through an ordered task is impossible.
pub no_cycle :
    (deps : Deps) (xs : List ℕ) (x : ℕ) (path : List ℕ)
    → Ordered deps xs
    → has x xs ≡ true
    → IsCycle deps (x ∷ path)
    → ⊥
no_cycle deps xs x [] o h c = c
no_cycle deps xs x (y ∷ path) o h (d, rest) =
    let (h', lt) = rank_falls deps xs x y o h d in
    let le = Leads-falls deps xs y x path o h' rest in omega arith
