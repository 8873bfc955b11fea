-- ===== src/Execution/Payload/Truncation.antt =====
-- `apply` and `effective_budget` of src/agentic_local_app/execution/payload_guard.py.
use native.Mathlib.Nat.{sub-zero}
use mathlib.Core.List.{append-nil}
use agentic_local_app.Base.{
  ℕ, ◌+◌, ◌-◌, ◌/◌, ◌≤◌, ◌<◌, min, ◌≡◌, ◌↔◌, refl, true, Option, some, ◌++◌, arith, length, take,
  length-drop, Bool-cases, ==_iff, ◌==◌, inl, inr, take-append-drop, take-of_le,
}
use agentic_local_app.Persistence.Blobs.{Bytes}
use agentic_local_app.Execution.Payload.{
  PayloadConfig, TruncatedOutput, effective_budget, keep_end, apply,
}

pub length-keep_end : (keep : ℕ) (s : Bytes) → keep ≤ length s → length (keep_end keep s) ≡ keep
length-keep_end keep s h = ground (arith, length-drop (length s - keep) s)

pub keep_end-suffix :
    (keep : ℕ) (s : Bytes) → keep ≤ length s → take (length s - keep) s ++ keep_end keep s ≡ s
keep_end-suffix keep s h = elim (Bool-cases (keep == 0)) [
  | inl none_kept ↦
      rw (none_kept, (==_iff keep 0).0 none_kept, sub-zero, append-nil)
        (take-of_le (length s) s (omega arith))
  | inr kept ↦ rw kept (take-append-drop (length s - keep) s)
]

pub record IsTruncation (stdout stderr : Bytes) (budget : ℕ) (t : TruncatedOutput) : Type 0 where
  pub exact :
      length t.stdout_kept + length t.stderr_kept ≡ min budget (length stdout + length stderr)
  pub stdout_share : min (length stdout) (budget / 2) ≤ length t.stdout_kept
  pub stderr_share : min (length stderr) (budget / 2) ≤ length t.stderr_kept
  pub stderr_first : length t.stderr_kept < length stderr → length t.stdout_kept ≤ budget / 2
  pub stdout_end : take t.stdout_range.0 stdout ++ t.stdout_kept ≡ stdout
  pub stderr_end : take t.stderr_range.0 stderr ++ t.stderr_kept ≡ stderr
  pub stdout_bounds :
      (t.stdout_range.1 ≡ length stdout) × (t.stdout_range.0 + length t.stdout_kept ≡ length stdout)
  pub stderr_bounds :
      (t.stderr_range.1 ≡ length stderr) × (t.stderr_range.0 + length t.stderr_kept ≡ length stderr)
  pub truncated_iff : (t.truncated ≡ true) ↔ (budget < length stdout + length stderr)

-- Whatever the streams and the budget: together the kept parts use the budget exactly, or hold both
-- streams whole; each stream keeps at least half the budget or all of itself; stdout gets more than
-- its half only once stderr is whole; what is kept is the end of the stream, at the range stated;
-- and `truncated` is set exactly when the streams exceed the budget.
pub apply-IsTruncation :
    (stdout stderr : Bytes) (budget : ℕ)
    → IsTruncation stdout stderr budget (apply stdout stderr budget)
unfolding apply
apply-IsTruncation stdout stderr budget =
    let half : ℕ = budget / 2 in
    let e0 : ℕ = min (length stderr) half in
    let o0 : ℕ = min (length stdout) half in
    let spare : ℕ = budget - e0 - o0 in
    let taken : ℕ = min spare (length stderr - e0) in
    let e : ℕ = e0 + taken in
    let o : ℕ = o0 + min (spare - taken) (length stdout - o0) in
    let le : length (keep_end e stderr) ≡ e = length-keep_end e stderr (omega arith) in
    let lo : length (keep_end o stdout) ≡ o = length-keep_end o stdout (omega arith) in
    record {
      exact = omega (arith, le, lo);
      stdout_share = omega (arith, lo);
      stderr_share = omega (arith, le);
      stderr_first = λ h. omega (arith, lo, le);
      stdout_end = keep_end-suffix o stdout (omega arith);
      stderr_end = keep_end-suffix e stderr (omega arith);
      stdout_bounds = (refl, omega (arith, lo));
      stderr_bounds = (refl, omega (arith, le));
      truncated_iff = (λ h. ground arith, λ h. ground arith);
    }

-- The budget applied is the first one declared, task before plan before application, and never
-- above the hard maximum.
pub effective_budget_bounds :
    (c : PayloadConfig) (task plan : Option ℕ)
    → (effective_budget c task plan ≤ c.hard_max_output_bytes)
      × ((n : ℕ) → task ≡ some n → n ≤ c.hard_max_output_bytes → effective_budget c task plan ≡ n)
unfolding effective_budget
effective_budget_bounds c task plan = (ground arith, λ n p h. ground arith)
