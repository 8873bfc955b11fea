-- ===== src/Execution/Payload/Fit/Longest.antt =====
-- `_longest` of src/agentic_local_app/execution/payload_guard.py.
use native.Mathlib.Nat.{zero-add}
use agentic_local_app.Base.{
  ℕ, zero, suc, ◌+◌, ◌<◌, ◌≡◌, ◌⊎◌, inl, inr, refl, sym, ◌∙◌, ap, Bool, true, false, Option, none,
  some, List, [], ◌∷◌, arith, if◌then◌else◌, ltb, All, is_some,
}
use mathlib.Core.Path.{subst}
use agentic_local_app.Domain.States.{OutputStream}
use agentic_local_app.Persistence.Blobs.{Bytes}
use agentic_local_app.Execution.Payload.Fit.{TaskResult, text_size, longest_from, longest}

module _ {Text : Type 0} (encode : Text → Bytes) (decode : Bytes → Text) where
  -- The text of the result at an index is not empty.
  abbrev pub Positive : OutputStream → ℕ → List (TaskResult Text) → Type 0
  Positive stream index [] = ⊥
  Positive stream zero (r ∷ rs) = 0 < text_size encode decode stream r
  Positive stream (suc index) (r ∷ rs) = Positive stream index rs

  longest_from-Positive :
      (stream : OutputStream) (start : ℕ) (best : Option ℕ) (size : ℕ) (rs : List (TaskResult Text))
      (index : ℕ)
      → longest_from encode decode stream start best size rs ≡ some index
      → (best ≡ some index) ⊎ ((j : ℕ) × (index ≡ start + j) × Positive stream j rs)
  longest_from-Positive stream start best size [] index h = inl h
  longest_from-Positive stream start best size (r ∷ rs) index h =
      elim (longest_from-Positive stream (suc start) _ _ rs index h) [
        | inl e ↦ here (ltb size (text_size encode decode stream r)) refl e
        | inr (j, e, p) ↦ inr (suc j, omega arith, p)
      ]
    where
      here :
          (b : Bool)
          → ltb size (text_size encode decode stream r) ≡ b
          → (if b then some start else best) ≡ some index
          → (best ≡ some index) ⊎ ((j : ℕ) × (index ≡ start + j) × Positive stream j (r ∷ rs))
      here true l e = inr (0, ground arith, ground arith)
      here false l e = inl e

  pub longest-Positive :
      (stream : OutputStream) (rs : List (TaskResult Text)) (index : ℕ)
      → longest encode decode rs stream ≡ some index
      → Positive stream index rs
  unfolding longest
  longest-Positive stream rs index h = elim (longest_from-Positive stream 0 none 0 rs index h) [
    | inl e ↦ cc
    | inr (j, e, p) ↦ subst (λ n. Positive stream n rs) (sym (e ∙ zero-add j)) p
  ]

  still_some :
      (b : Bool) (start : ℕ) (best : Option ℕ)
      → is_some best ≡ true
      → is_some (if b then some start else best) ≡ true
  still_some true start best h = refl
  still_some false start best h = h

  longest_from_some :
      (stream : OutputStream) (start : ℕ) (best : Option ℕ) (size : ℕ) (rs : List (TaskResult Text))
      → is_some best ≡ true
      → is_some (longest_from encode decode stream start best size rs) ≡ true
  longest_from_some stream start best size [] h = h
  longest_from_some stream start best size (r ∷ rs) h =
      longest_from_some stream (suc start) _ _ rs
        (still_some (ltb size (text_size encode decode stream r)) start best h)

  pub longest_from-none :
      (stream : OutputStream) (start : ℕ) (rs : List (TaskResult Text))
      → longest_from encode decode stream start none 0 rs ≡ none
      → All (λ r. text_size encode decode stream r ≡ 0) rs
  longest_from-none stream start [] h = tt
  longest_from-none stream start (r ∷ rs) h =
      go (ltb 0 (text_size encode decode stream r)) refl (longest_from-none stream (suc start) rs)
    where
      go :
          (b : Bool)
          → ltb 0 (text_size encode decode stream r) ≡ b
          → (longest_from encode decode stream (suc start) none 0 rs ≡ none
              → All (λ x. text_size encode decode stream x ≡ 0) rs)
          → All (λ x. text_size encode decode stream x ≡ 0) (r ∷ rs)
      go true e rest =
          let none_found : longest_from encode decode stream (suc start) (some start)
                (text_size encode decode stream r) rs
              ≡ none =
            rw e at h in
          cc (
            ap is_some none_found,
            longest_from_some stream (suc start) (some start) (text_size encode decode stream r) rs
                refl,
          )
      go false e rest = (ground arith, rest (rw e at h))
