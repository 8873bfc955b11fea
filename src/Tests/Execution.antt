-- ===== src/Tests/Execution.antt =====
-- Truncation, chunks and the fit of a message at concrete inputs.
use agentic_local_app.Base.{
  ℕ, ◌+◌, List, lt→ltb, ltb, if◌then◌else◌, false, none, ◌≡◌, refl, true, some, [], ◌∷◌, arith, ok,
  pos,
}
use agentic_local_app.Domain.States.{OutputStream}
use agentic_local_app.Persistence.Blobs.{Bytes, get_blob_for_task}
use agentic_local_app.Execution.Payload.{PayloadConfig, apply}
use agentic_local_app.Execution.Payload.Truncation.{IsTruncation, apply-IsTruncation}
use agentic_local_app.Execution.Payload.Chunk.{served, serve_chunk}
use agentic_local_app.Execution.Payload.Chunk.Reassembly.{
  serve_chunk_inside, follow, follow-content,
}
use agentic_local_app.Execution.Payload.Fit.{TaskResult, longest, fit}
use agentic_local_app.Execution.Payload.Fit.Ascii.{IsAscii, total_size, Fitted, fit-Fitted}
use agentic_local_app.Execution.Payload.Fit.Stuck.{fit-never_ends}
use agentic_local_app.Tests.Persistence.{letters, store, store-IsValid}

apply-IsTruncation_example :
    IsTruncation (1 ∷ 2 ∷ 3 ∷ 4 ∷ []) (5 ∷ []) 3 (apply (1 ∷ 2 ∷ 3 ∷ 4 ∷ []) (5 ∷ []) 3)
apply-IsTruncation_example = apply-IsTruncation (1 ∷ 2 ∷ 3 ∷ 4 ∷ []) (5 ∷ []) 3

abbrev config : PayloadConfig
config = record { default_max_output_bytes = 4; hard_max_output_bytes = 2; max_message_bytes = 9 }

serve_chunk_inside_example :
    serve_chunk config store 7 3 OutputStream.stdout (pos 4) (pos 8)
    ≡ ok (served (record { content = 101 ∷ []; range = (4, 5); total = 5; eof = true }))
unfolding get_blob_for_task
serve_chunk_inside_example =
    serve_chunk_inside config store 7 3 OutputStream.stdout letters 4 8 store-IsValid refl
      (omega arith) (omega arith)

follow-content_example :
    follow config store 7 3 OutputStream.stdout 5 3 0 ≡ some (97 ∷ 98 ∷ 99 ∷ 100 ∷ 101 ∷ [])
unfolding get_blob_for_task
follow-content_example =
    follow-content config store 7 3 OutputStream.stdout letters 3 store-IsValid refl (omega arith)
      (omega arith) (omega arith)

-- Texts by their bytes, and a decoder of ASCII with replacement characters (EF BF BD).
abbrev encode : Bytes → Bytes
encode bs = bs

abbrev decode : Bytes → Bytes
decode [] = []
decode (b ∷ bs) = if ltb b 128 then b ∷ decode bs else 239 ∷ 191 ∷ 189 ∷ decode bs

decode-ascii : (bs : Bytes) → IsAscii bs → encode (decode bs) ≡ bs
decode-ascii [] h = refl
decode-ascii (b ∷ bs) h = rw (lt→ltb _ _ h.0, decode-ascii bs h.1) refl

abbrev result : Bytes → Bytes → TaskResult Bytes
result out errors = record {
  task_id = 3;
  stdout = out;
  stderr = errors;
  truncated = false;
  stdout_total = none;
  stderr_total = none;
  stdout_range = none;
  stderr_range = none;
}

-- A message with ten bytes besides the outputs.
abbrev size : List (TaskResult Bytes) → ℕ
size rs = 10 + total_size encode decode rs

abbrev plain : List (TaskResult Bytes)
plain = result (97 ∷ 98 ∷ 99 ∷ 100 ∷ []) (101 ∷ []) ∷ []

fit-Fitted_example :
    Fitted encode decode decode-ascii size 13 plain (fit encode decode size 13 6 plain)
fit-Fitted_example =
    fit-Fitted encode decode decode-ascii size 13 6 plain
      (((omega arith, (omega arith, (omega arith, (omega arith, tt)))), (omega arith, tt)), tt)
      (omega arith)

abbrev replaced : List (TaskResult Bytes)
replaced = result (239 ∷ 191 ∷ 189 ∷ []) (101 ∷ 102 ∷ 103 ∷ []) ∷ []

fit-never_ends_example : fit encode decode (λ rs. 100) 50 1000 replaced ≡ none
unfolding longest
fit-never_ends_example =
    fit-never_ends encode decode (λ rs. 100) 50 (239 ∷ 191 ∷ 189 ∷ []) 0 replaced 1000 refl refl
      refl (λ ss p. omega arith)
