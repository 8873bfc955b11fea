-- ===== src/Execution/Payload/Fit.antt =====
-- src/agentic_local_app/execution/payload_guard.py: `fit_message`. Python's UTF-8 codec (`encode`,
-- and `decode` with replacement characters) and the size of the canonical JSON of the message for
-- a list of results are parameters. The loop runs on fuel; `none` is that the fuel ran out.
pub mod Longest
pub mod Ascii
pub mod Stuck
use agentic_local_app.Base.{
  ℕ, zero, suc, ◌+◌, ◌/◌, Bool, true, false, Option, none, some, List, [], ◌∷◌, if◌then◌else◌, ltb,
  get_or, length, ℤ, pos, sub_ℕ,
}
use agentic_local_app.Domain.States.{OutputStream}
use agentic_local_app.Persistence.Blobs.{Bytes}
use agentic_local_app.Execution.Payload.{keep_end}

-- The fields of a `TaskResult` that the guard reads or writes; a range starts at an integer.
pub record TaskResult (Text : Type 0) : Type 0 where
  pub task_id : ℕ
  pub stdout : Text
  pub stderr : Text
  pub truncated : Bool
  pub stdout_total : Option ℕ
  pub stderr_total : Option ℕ
  pub stdout_range : Option (ℤ × ℕ)
  pub stderr_range : Option (ℤ × ℕ)

-- `results[index] = f(results[index])`
abbrev pub modify {ℓ} : {A : Type ℓ} → ℕ → (A → A) → List A → List A
modify index f [] = []
modify zero f (x ∷ xs) = f x ∷ xs
modify (suc index) f (x ∷ xs) = x ∷ modify index f xs

module _ {Text : Type 0} (encode : Text → Bytes) (decode : Bytes → Text) where
  -- `getattr(result, stream)`
  abbrev pub text_of : OutputStream → TaskResult Text → Text
  text_of OutputStream.stdout r = r.stdout
  text_of OutputStream.stderr r = r.stderr

  abbrev pub text_size : OutputStream → TaskResult Text → ℕ
  text_size stream r = length (encode (text_of stream r))

  abbrev longest_from : OutputStream → ℕ → Option ℕ → ℕ → List (TaskResult Text) → Option ℕ
  longest_from stream index best best_size [] = best
  longest_from stream index best best_size (r ∷ rs) =
      longest_from stream (suc index)
        (if ltb best_size (text_size stream r) then some index else best)
        (if ltb best_size (text_size stream r) then text_size stream r else best_size) rs

  -- `_longest`
  unfoldable pub longest : List (TaskResult Text) → OutputStream → Option ℕ
  longest rs stream = longest_from stream 0 none 0 rs

  -- The new range and total: a missing range is the whole text, a missing total its end.
  abbrev range_end : Option (ℤ × ℕ) → ℕ → ℕ
  range_end none size = size
  range_end (some (start, end)) size = end

  -- `_halve`
  unfoldable pub halve : OutputStream → TaskResult Text → TaskResult Text
  halve OutputStream.stdout r =
      let encoded = encode r.stdout in
      let kept = keep_end (length encoded / 2) encoded in
      let end = range_end r.stdout_range (length encoded) in
      record r {
        stdout = decode kept;
        stdout_range = some (sub_ℕ end (length kept), end);
        stdout_total = some (get_or r.stdout_total end);
        truncated = true;
      }
  halve OutputStream.stderr r =
      let encoded = encode r.stderr in
      let kept = keep_end (length encoded / 2) encoded in
      let end = range_end r.stderr_range (length encoded) in
      record r {
        stderr = decode kept;
        stderr_range = some (sub_ℕ end (length kept), end);
        stderr_total = some (get_or r.stderr_total end);
        truncated = true;
      }

  module _ (message_size : List (TaskResult Text) → ℕ) (max_message_bytes : ℕ) where
    -- The `while` loop.
    unfoldable pub fit : ℕ → List (TaskResult Text) → Option (List (TaskResult Text))
    fit zero rs = none
    fit (suc fuel) rs = elim (ltb max_message_bytes (message_size rs)) [
      | false ↦ some rs
      | true ↦ elim (longest rs OutputStream.stdout) [
        | some index ↦ fit fuel (modify index (halve OutputStream.stdout) rs)
        | none ↦ elim (longest rs OutputStream.stderr) [
          | some index ↦ fit fuel (modify index (halve OutputStream.stderr) rs)
          | none ↦ some rs
        ]
      ]
    ]
