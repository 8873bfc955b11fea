-- ===== src/Execution/Payload/Fit/Stuck.antt =====
-- The loop of `fit_message` on a text that halving leaves as it is.
use agentic_local_app.Base.{
  ℕ, zero, suc, ◌/◌, ◌<◌, ◌≡◌, refl, sym, ◌∙◌, Option, none, some, List, [], ◌∷◌, lt→ltb, length,
}
use agentic_local_app.Domain.States.{OutputStream}
use agentic_local_app.Persistence.Blobs.{Bytes}
use agentic_local_app.Execution.Payload.{keep_end}
use agentic_local_app.Execution.Payload.Fit.{TaskResult, modify, longest_from, longest, halve, fit}

module _ {Text : Type 0} (encode : Text → Bytes) (decode : Bytes → Text) where
  -- The last half of the text's bytes decodes to the text itself.
  abbrev pub IsStuck : Text → Type 0
  IsStuck t = decode (keep_end (length (encode t) / 2) (encode t)) ≡ t

  -- The same texts, whatever the other fields.
  abbrev pub SameTexts : List (TaskResult Text) → List (TaskResult Text) → Type 0
  SameTexts [] [] = Unit
  SameTexts (r ∷ rs) (r' ∷ rs') = (r.stdout ≡ r'.stdout) × (r.stderr ≡ r'.stderr) × SameTexts rs rs'
  SameTexts _ _ = ⊥

  -- The text at an index.
  abbrev pub StdoutAt : Text → ℕ → List (TaskResult Text) → Type 0
  StdoutAt t index [] = ⊥
  StdoutAt t zero (r ∷ rs) = r.stdout ≡ t
  StdoutAt t (suc index) (r ∷ rs) = StdoutAt t index rs

  SameTexts-refl : (rs : List (TaskResult Text)) → SameTexts rs rs
  SameTexts-refl [] = tt
  SameTexts-refl (r ∷ rs) = (refl, refl, SameTexts-refl rs)

  SameTexts-trans :
      (rs ss ts : List (TaskResult Text)) → SameTexts rs ss → SameTexts ss ts → SameTexts rs ts
  SameTexts-trans [] [] ts p q = q
  SameTexts-trans [] (s ∷ ss) ts p q = absurd p
  SameTexts-trans (r ∷ rs) [] ts p q = absurd p
  SameTexts-trans (r ∷ rs) (s ∷ ss) [] p q = absurd q
  SameTexts-trans (r ∷ rs) (s ∷ ss) (t ∷ ts) p q =
      (p.0 ∙ q.0, p.1 ∙ q.1, SameTexts-trans rs ss ts p.2 q.2)

  longest_from-SameTexts :
      (index : ℕ) (best : Option ℕ) (size : ℕ) (rs ss : List (TaskResult Text))
      → SameTexts rs ss
      → longest_from encode decode OutputStream.stdout index best size rs
        ≡ longest_from encode decode OutputStream.stdout index best size ss
  longest_from-SameTexts index best size [] [] p = refl
  longest_from-SameTexts index best size [] (s ∷ ss) p = absurd p
  longest_from-SameTexts index best size (r ∷ rs) [] p = absurd p
  longest_from-SameTexts index best size (r ∷ rs) (s ∷ ss) p =
      rw p.0 (longest_from-SameTexts (suc index) _ _ rs ss p.2)

  modify-SameTexts :
      (t : Text) (index : ℕ) (rs : List (TaskResult Text))
      → IsStuck t
      → StdoutAt t index rs
      → SameTexts rs (modify index (halve encode decode OutputStream.stdout) rs)
  unfolding halve
  modify-SameTexts t index [] h at = absurd at
  modify-SameTexts t zero (r ∷ rs) h at = (at ∙ sym h ∙ stuck_text, refl, SameTexts-refl rs)
    where
      stuck_text :
          decode (keep_end (length (encode t) / 2) (encode t))
          ≡ decode (keep_end (length (encode r.stdout) / 2) (encode r.stdout))
      stuck_text = rw at refl
  modify-SameTexts t (suc index) (r ∷ rs) h at = (refl, refl, modify-SameTexts t index rs h at)

  StdoutAt-SameTexts :
      (t : Text) (index : ℕ) (rs ss : List (TaskResult Text))
      → SameTexts rs ss
      → StdoutAt t index rs
      → StdoutAt t index ss
  StdoutAt-SameTexts t index [] ss p at = absurd at
  StdoutAt-SameTexts t index (r ∷ rs) [] p at = absurd p
  StdoutAt-SameTexts t zero (r ∷ rs) (s ∷ ss) p at = sym p.0 ∙ at
  StdoutAt-SameTexts t (suc index) (r ∷ rs) (s ∷ ss) p at = StdoutAt-SameTexts t index rs ss p.2 at

  module _ (message_size : List (TaskResult Text) → ℕ) (max_message_bytes : ℕ) where
    -- Where the longest stdout is a text that halving leaves as it is, and the message is too big
    -- with these texts however the ranges are written, the loop of `fit_message` never ends: it runs
    -- out of any fuel. No stderr is ever shortened, however long.
    pub fit-never_ends :
        (t : Text) (index : ℕ) (rs : List (TaskResult Text)) (fuel : ℕ)
        → IsStuck t
        → StdoutAt t index rs
        → longest encode decode rs OutputStream.stdout ≡ some index
        → ((ss : List (TaskResult Text)) → SameTexts rs ss → max_message_bytes < message_size ss)
        → fit encode decode message_size max_message_bytes fuel rs ≡ none
    unfolding fit longest
    fit-never_ends t index rs zero h at first big = refl
    fit-never_ends t index rs (suc fuel) h at first big =
        let next : List (TaskResult Text) =
          modify index (halve encode decode OutputStream.stdout) rs in
        let same = modify-SameTexts t index rs h at in
        rw (lt→ltb _ _ (big rs (SameTexts-refl rs)), first, fit)
          (fit-never_ends t index next fuel h (StdoutAt-SameTexts t index rs next same at)
            (sym (longest_from-SameTexts 0 none 0 rs next same) ∙ first)
            (λ ss p. big ss (SameTexts-trans rs next ss same p)))
