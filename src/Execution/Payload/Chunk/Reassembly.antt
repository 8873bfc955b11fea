-- ===== src/Execution/Payload/Chunk/Reassembly.antt =====
-- A client that follows the chunks of `serve_chunk` in src/agentic_local_app/execution/payload_guard.py.
use mathlib.Core.Option
use agentic_local_app.Base.{
  ℕ, zero, suc, ◌+◌, ◌≤◌, ◌<◌, ◌≡◌, refl, false, Option, none, some, ◌++◌, ap, arith, take-of_le,
  drop-drop, min, ◌==◌, if◌then◌else◌, leb, length, take, drop, Bool-cases, ok, pos, inl, inr,
  length-take, length-drop, take-append-drop,
}
use agentic_local_app.Domain.States.{OutputStream}
use agentic_local_app.Persistence.Blobs.{Bytes, BlobRecord, BlobStore, slice, get_blob_for_task}
use agentic_local_app.Persistence.Blobs.Keyed.{IsValid, found-read_blob_range}
use agentic_local_app.Execution.Payload.{PayloadConfig}
use agentic_local_app.Execution.Payload.Chunk.{served, serve_chunk}

module _ (c : PayloadConfig) (s : BlobStore) (session task : ℕ) (stream : OutputStream) where
  -- A valid store answers a request inside the stream with the bytes asked for.
  pub serve_chunk_inside :
      (b : BlobRecord) (offset max_bytes : ℕ)
      → IsValid s
      → get_blob_for_task session task stream s ≡ some b
      → offset < length b.content
      → 0 < min max_bytes c.hard_max_output_bytes
      → let part = slice offset (min max_bytes c.hard_max_output_bytes) b.content in
        serve_chunk c s session task stream (pos offset) (pos max_bytes)
        ≡ ok (
            served (record {
              content = part;
              range = (offset, offset + length part);
              total = length b.content;
              eof = leb (length b.content) (offset + length part);
            }))
  unfolding serve_chunk
  serve_chunk_inside b offset max_bytes v found inside room =
      let (read, size) =
        found-read_blob_range session task stream s b offset (min max_bytes c.hard_max_output_bytes)
          v found in
      rw (found, size, leb_false _ _ inside, eq_false _ room, read) refl
    where
      leb_false : (n m : ℕ) → m < n → leb n m ≡ false
      leb_false n m h = ground arith

      eq_false : (n : ℕ) → 0 < n → (n == 0) ≡ false
      eq_false n h = ground arith

  -- A client that starts at an offset and asks for `max_bytes` at the end of each range it was
  -- given, until `eof`; `none` where a request is refused or the rounds run out.
  pub follow : ℕ → ℕ → ℕ → Option Bytes
  follow zero max_bytes offset = none
  follow (suc rounds) max_bytes offset =
      elim (serve_chunk c s session task stream (pos offset) (pos max_bytes)) [
        | ok (served r) ↦
            if r.eof
            then some r.content
            else Option.map (λ rest. r.content ++ rest) (follow rounds max_bytes r.range.1)
        | _ ↦ none
      ]

  follow_lem :
      (b : BlobRecord) (rounds max_bytes offset : ℕ)
      → IsValid s
      → get_blob_for_task session task stream s ≡ some b
      → 0 < min max_bytes c.hard_max_output_bytes
      → offset < length b.content
      → length b.content ≤ offset + rounds
      → follow rounds max_bytes offset ≡ some (drop offset b.content)
  unfolding follow
  follow_lem b zero max_bytes offset v found room inside enough = absurd (omega arith)
  follow_lem b (suc rounds) max_bytes offset v found room inside enough =
      rw (serve_chunk_inside b offset max_bytes v found inside room, follow)
        (elim (Bool-cases (leb (length b.content) (offset + length part))) [
          | inl last ↦ rw last (
              ap some (
                take-of_le k rest
                  (ground (arith, length-take k rest, length-drop offset b.content))))
          | inr more ↦
              rw
                (
                  more,
                  follow_lem b rounds max_bytes (offset + length part) v found room (ground arith)
                      (ground (arith, length-take k rest, length-drop offset b.content)),
                )
                (ap some (step more))
        ])
    where
      k : ℕ
      k = min max_bytes c.hard_max_output_bytes

      rest : Bytes
      rest = drop offset b.content

      part : Bytes
      part = take k rest

      full : leb (length b.content) (offset + length part) ≡ false → length part ≡ k
      full more = ground (arith, length-take k rest, length-drop offset b.content)

      step :
          leb (length b.content) (offset + length part) ≡ false
          → part ++ drop (offset + length part) b.content ≡ rest
      step more = rw (full more, ← drop-drop offset k b.content) (take-append-drop k rest)

  -- Over a store with one blob for each identifier, a stream that is not empty comes back whole from
  -- chunk requests that start at 0 and go on at the end of each range answered, for any positive
  -- `max_bytes` and hard maximum: none of them is refused, and the rounds are at most its length.
  pub follow-content :
      (b : BlobRecord) (max_bytes : ℕ)
      → IsValid s
      → get_blob_for_task session task stream s ≡ some b
      → 0 < max_bytes
      → 0 < c.hard_max_output_bytes
      → 0 < length b.content
      → follow (length b.content) max_bytes 0 ≡ some b.content
  follow-content b max_bytes v found asked hard inside =
      follow_lem b (length b.content) max_bytes 0 v found (omega arith) inside (omega arith)
