-- ===== src/Execution/Payload.antt =====
-- src/agentic_local_app/execution/payload_guard.py: budgets and truncation. The other services are
-- in the child modules.
pub mod Truncation
pub mod Fit
pub mod Chunk
use agentic_local_app.Base.{
  ℕ, ◌+◌, ◌-◌, ◌/◌, min, Bool, true, false, ◌||◌, Option, none, some, List, [], ◌∷◌, if◌then◌else◌,
  ltb, ◌==◌, length, drop,
}
use agentic_local_app.Persistence.Blobs.{Bytes}

-- `PayloadSection`, the part that the guard reads.
pub record PayloadConfig : Type 0 where
  pub default_max_output_bytes : ℕ
  pub hard_max_output_bytes : ℕ
  pub max_message_bytes : ℕ

abbrev declared_budget : Option ℕ → Option ℕ → ℕ → ℕ
declared_budget (some task) plan app = task
declared_budget none (some plan) app = plan
declared_budget none none app = app

unfoldable pub effective_budget : PayloadConfig → Option ℕ → Option ℕ → ℕ
effective_budget c task_max plan_default =
    min (declared_budget task_max plan_default c.default_max_output_bytes) c.hard_max_output_bytes

pub record TruncatedOutput : Type 0 where
  pub stdout_kept : Bytes
  pub stderr_kept : Bytes
  pub truncated : Bool
  pub original_size_bytes : ℕ
  pub stdout_total : ℕ
  pub stderr_total : ℕ
  pub stdout_range : ℕ × ℕ
  pub stderr_range : ℕ × ℕ

-- `s[total - keep :] if keep else b""`
abbrev pub keep_end : ℕ → Bytes → Bytes
keep_end keep s = if keep == 0 then [] else drop (length s - keep) s

unfoldable pub apply : Bytes → Bytes → ℕ → TruncatedOutput
apply stdout stderr budget =
    let stderr_total = length stderr in
    let stdout_total = length stdout in
    let half = budget / 2 in
    let stderr_first = min stderr_total half in
    let stdout_first = min stdout_total half in
    let spare = budget - stderr_first - stdout_first in
    let taken = min spare (stderr_total - stderr_first) in
    let stderr_keep = stderr_first + taken in
    let left = spare - taken in
    let stdout_keep = stdout_first + min left (stdout_total - stdout_first) in
    record {
      stdout_kept = keep_end stdout_keep stdout;
      stderr_kept = keep_end stderr_keep stderr;
      truncated = ltb stderr_keep stderr_total || ltb stdout_keep stdout_total;
      original_size_bytes = stderr_total + stdout_total;
      stdout_total = stdout_total;
      stderr_total = stderr_total;
      stdout_range = (stdout_total - stdout_keep, stdout_total);
      stderr_range = (stderr_total - stderr_keep, stderr_total);
    }
