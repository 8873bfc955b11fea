-- ===== src/Persistence/Rows.antt =====
-- src/agentic_local_app/persistence/memory.py: one dictionary of records, keyed by an identifier. A Python
-- dict keeps its keys in the order of their first insertion, and so does the list; that order is the
-- one of `_order`, which `_touch` numbers.
use agentic_local_app.Base.{
  ℕ, ◌≡◌, refl, Bool, Option, none, some, List, [], ◌∷◌, arith, if◌then◌else◌, ◌==◌,
}

module _ {A : Type 0} (key : A → ℕ) where
  -- `rows[key] = r`
  abbrev pub put : A → List A → List A
  put r [] = r ∷ []
  put r (x ∷ xs) = if key x == key r then r ∷ xs else x ∷ put r xs

  -- `rows.get(id)`
  abbrev pub get : ℕ → List A → Option A
  get id [] = none
  get id (x ∷ xs) = if key x == id then some x else get id xs

  pub get-put :
      (id : ℕ) (r : A) (rows : List A)
      → get id (put r rows) ≡ (if key r == id then some r else get id rows)
  get-put id r [] = refl
  get-put id r (x ∷ xs) = ground (arith, get-put id r xs)

  -- What is found has the key that was asked for.
  pub get-key : (id : ℕ) (rows : List A) (r : A) → get id rows ≡ some r → key r ≡ id
  get-key id [] r h = cc
  get-key id (x ∷ xs) r h = ground (arith, get-key id xs r)

-- `[r for r in rows.values() if wanted(r)]`
abbrev pub select : {A : Type 0} → (A → Bool) → List A → List A
select wanted [] = []
select wanted (r ∷ rs) = if wanted r then r ∷ select wanted rs else select wanted rs
