-- ===== src/Execution/Payload/Chunk.antt =====
-- src/agentic_local_app/execution/payload_guard.py: `serve_chunk`, over the in-memory store.
pub mod Reassembly
use agentic_local_app.Base.{
  ℕ, ◌+◌, min, Bool, ◌||◌, Option, none, some, List, [], ◌∷◌, if◌then◌else◌, leb, ◌==◌, length,
  Result, ok, err, ◌>>=◌, ℤ, pos, negsuc,
}
use agentic_local_app.Domain.States.{OutputStream}
use agentic_local_app.Persistence.Blobs.{
  Bytes, BlobRecord, BlobStore, PersistenceError, get_blob_for_task, read_blob_range,
}
use agentic_local_app.Execution.Payload.{PayloadConfig}

pub record ChunkResult : Type 0 where
  pub content : Bytes
  pub range : ℕ × ℕ
  pub total : ℕ
  pub eof : Bool

pub data ChunkErrorCode : Type 0 where
  chunk_ref_not_found chunk_range_invalid : ChunkErrorCode

pub data ChunkReply : Type 0 where
  served : ChunkResult → ChunkReply
  refused : ChunkErrorCode → ChunkReply

abbrev chunk_at : ℕ → ℕ → Bytes → ChunkReply
chunk_at offset total content = served (record {
  content = content;
  range = (offset, offset + length content);
  total = total;
  eof = leb total (offset + length content);
})

-- `offset < 0 or offset >= total or capped <= 0` refuses; a negative `max_bytes` makes `capped`
-- negative.
abbrev serve_range :
    PayloadConfig → BlobRecord → ℤ → ℤ → BlobStore → Result PersistenceError ChunkReply
serve_range c b (pos offset) (pos max_bytes) s =
    let capped = min max_bytes c.hard_max_output_bytes in
    if leb b.size_bytes offset || capped == 0
    then ok (refused chunk_range_invalid)
    else (read_blob_range b.blob_id (pos offset) (pos capped) s >>= λ content.
        ok (chunk_at offset b.size_bytes content))
serve_range c b _ _ s = ok (refused chunk_range_invalid)

abbrev serve_found :
    PayloadConfig → Option BlobRecord → ℤ → ℤ → BlobStore → Result PersistenceError ChunkReply
serve_found c none offset max_bytes s = ok (refused chunk_ref_not_found)
serve_found c (some b) offset max_bytes s = serve_range c b offset max_bytes s

unfoldable pub serve_chunk :
    PayloadConfig → BlobStore → ℕ → ℕ → OutputStream → ℤ → ℤ → Result PersistenceError ChunkReply
serve_chunk c s session ref_task stream offset max_bytes =
    serve_found c (get_blob_for_task session ref_task stream s) offset max_bytes s
