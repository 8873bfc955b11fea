-- ===== src/Base/Enums.antt =====
-- Enumerations that are compared by value: an index that tells the members apart.
use Prim.Native.Nat.{ℕ}
use mathlib.Core.Path.{◌≡◌, ap}
use mathlib.Core.Logic.{◌↔◌}
use mathlib.Core.Bool.{Bool, true, false, ◌||◌}
use mathlib.Core.List.{List, [], ◌∷◌}
use agentic_local_app.Base.Tests.{◌==◌ as nat_eq, ==_iff}

pub record Enum (A : Type 0) : Type 0 where
  pub index : A → ℕ
  pub index_injective : (a b : A) → index a ≡ index b → a ≡ b

module _ {A : Type 0} ⦃e : Enum A⦄ where
  -- `a is b`
  infix 50 ◌is◌
  abbrev pub ◌is◌ : A → A → Bool
  a is b = nat_eq (e.index a) (e.index b)

  -- `a in s`, for a frozenset `s` listed by its members
  abbrev pub is_in : A → List A → Bool
  is_in a [] = false
  is_in a (b ∷ s) = a is b || is_in a s

  pub is_iff : (a b : A) → (a is b ≡ true) ↔ (a ≡ b)
  is_iff a b = (
    λ h. e.index_injective a b ((==_iff (e.index a) (e.index b)).0 h),
    λ p. (==_iff (e.index a) (e.index b)).1 (ap e.index p),
  )
