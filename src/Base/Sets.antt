-- ===== src/Base/Sets.antt =====
-- A Python set or the keys of a dict, as a list of numbers.
use Prim.Native.Nat.{ℕ, suc}
use mathlib.Core.Path.{◌≡◌, refl}
use mathlib.Core.Bool.{Bool, true, false, ◌||◌}
use mathlib.Core.List.{List, [], ◌∷◌, ◌++◌}
use native.Mathlib.Omega.{arith}
use agentic_local_app.Base.Tests.{◌==◌, if◌then◌else◌}
use agentic_local_app.Base.Lists.{length}

-- `x in s`
abbrev pub has : ℕ → List ℕ → Bool
has x [] = false
has x (y ∷ s) = y == x || has x s

-- `s.discard(x)`, for a set that lists `x` once or more
abbrev pub discard : ℕ → List ℕ → List ℕ
discard x [] = []
discard x (y ∷ s) = let rest = discard x s in if y == x then rest else y ∷ rest

-- Removing a key from a dict.
abbrev pub pop : ℕ → List ℕ → List ℕ
pop x [] = []
pop x (y ∷ s) = if y == x then s else y ∷ pop x s

pub has-append : (x : ℕ) (s t : List ℕ) → has x (s ++ t) ≡ (has x s || has x t)
has-append x [] t = refl
has-append x (y ∷ s) t = ground (arith, has-append x s t)

pub has-discard : (x y : ℕ) (s : List ℕ) → has x (discard y s) ≡ (if y == x then false else has x s)
has-discard x y [] = ground arith
has-discard x y (z ∷ s) = ground (arith, has-discard x y s)

pub length-pop : (x : ℕ) (s : List ℕ) → has x s ≡ true → suc (length (pop x s)) ≡ length s
length-pop x [] h = ground arith
length-pop x (y ∷ s) h = ground (arith, length-pop x s)
