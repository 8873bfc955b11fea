-- ===== src/Persistence/Blobs.antt =====
-- src/agentic_local_app/persistence/memory.py: the blobs. A Python dict keeps its keys in the order
-- of their first insertion, and so does the list. Texts (identifiers) are compared by number.
pub mod Keyed
use agentic_local_app.Base.{
  ℕ, ◌+◌, ◌≡◌, refl, Bool, true, false, ◌&&◌, ◌||◌, not, Option, none, some, List, [], ◌∷◌,
  if◌then◌else◌, ◌==◌, ◌is◌, length, take, drop, Result, ok, err, ℤ, pos, negsuc,
}
use agentic_local_app.Domain.States.{OutputStream}
use agentic_local_app.Domain.Values.{output_stream_enum}

abbrev pub Bytes : Type 0
Bytes = List ℕ

pub record BlobRecord : Type 0 where
  pub blob_id : ℕ
  pub session_id : ℕ
  pub task_id : ℕ
  pub blob_type : OutputStream
  pub content : Bytes
  pub size_bytes : ℕ

pub data PersistenceError : Type 0 where
  store_closed simulated_write_failure blob_size_mismatch blob_not_found blob_range_invalid :
      PersistenceError

-- The part of `InMemoryConversationStore` that the blobs use.
pub record BlobStore : Type 0 where
  pub blobs : List BlobRecord
  pub fail_next_write : Bool
  pub closed : Bool

-- `self._blobs[record.blob_id] = record`
abbrev pub put_blob : BlobRecord → List BlobRecord → List BlobRecord
put_blob r [] = r ∷ []
put_blob r (b ∷ bs) = if b.blob_id == r.blob_id then r ∷ bs else b ∷ put_blob r bs

-- `_write_guard` then the size check; the test hook is reset by the write that it fails. The
-- answer is the store after the call and the error that was raised, if any.
unfoldable pub save_blob : BlobRecord → BlobStore → BlobStore × Option PersistenceError
save_blob r s =
    if s.closed
    then (s, some store_closed)
    else if s.fail_next_write
    then (record s { fail_next_write = false }, some simulated_write_failure)
    else if not (r.size_bytes == length r.content)
    then (s, some blob_size_mismatch)
    else (record s { blobs = put_blob r s.blobs }, none)

abbrev is_for : ℕ → ℕ → OutputStream → BlobRecord → Bool
is_for session task type b = b.session_id == session && b.task_id == task && b.blob_type is type

abbrev find_for : ℕ → ℕ → OutputStream → List BlobRecord → Option BlobRecord
find_for session task type [] = none
find_for session task type (b ∷ bs) =
    if is_for session task type b then some b else find_for session task type bs

unfoldable pub get_blob_for_task : ℕ → ℕ → OutputStream → BlobStore → Option BlobRecord
get_blob_for_task session task type s = find_for session task type s.blobs

abbrev find_blob : ℕ → List BlobRecord → Option BlobRecord
find_blob id [] = none
find_blob id (b ∷ bs) = if b.blob_id == id then some b else find_blob id bs

unfoldable pub get_blob : ℕ → BlobStore → Option BlobRecord
get_blob id s = find_blob id s.blobs

-- `content[offset : offset + max_bytes]` for counts that are not negative
abbrev pub slice : ℕ → ℕ → Bytes → Bytes
slice offset count xs = take count (drop offset xs)

abbrev read_range : Option BlobRecord → ℤ → ℤ → Result PersistenceError Bytes
read_range none offset max_bytes = err blob_not_found
read_range (some b) (pos offset) (pos max_bytes) = ok (slice offset max_bytes b.content)
read_range (some b) _ _ = err blob_range_invalid

unfoldable pub read_blob_range : ℕ → ℤ → ℤ → BlobStore → Result PersistenceError Bytes
unfolding get_blob
read_blob_range id offset max_bytes s = read_range (get_blob id s) offset max_bytes
