-- ===== src/Persistence/Blobs/Keyed.antt =====
-- The keys and sizes of the blobs of src/agentic_local_app/persistence/memory.py.
use agentic_local_app.Base.{
  ℕ, ◌≡◌, ◌≢◌, refl, inl, inr, true, none, some, List, [], ◌∷◌, arith, length, ok, pos, Bool-cases,
}
use agentic_local_app.Domain.States.{OutputStream}
use agentic_local_app.Persistence.Blobs.{
  BlobRecord, BlobStore, put_blob, save_blob, is_for, find_for, find_blob, get_blob_for_task, slice,
  read_blob_range,
}

abbrev pub IsKeyed : List BlobRecord → Type 0
IsKeyed [] = Unit
IsKeyed (b ∷ bs) = (find_blob b.blob_id bs ≡ none) × (b.size_bytes ≡ length b.content) × IsKeyed bs

abbrev pub IsValid : BlobStore → Type 0
IsValid s = IsKeyed s.blobs

find_blob-put_ne :
    (id : ℕ) (r : BlobRecord) (bs : List BlobRecord)
    → id ≢ r.blob_id
    → find_blob id (put_blob r bs) ≡ find_blob id bs
find_blob-put_ne id r [] h = ground arith
find_blob-put_ne id r (b ∷ bs) h = ground (arith, find_blob-put_ne id r bs h)

put_blob-IsKeyed :
    (r : BlobRecord) (bs : List BlobRecord)
    → r.size_bytes ≡ length r.content
    → IsKeyed bs
    → IsKeyed (put_blob r bs)
put_blob-IsKeyed r [] e k = (refl, e, tt)
put_blob-IsKeyed r (b ∷ bs) e k =
    ground (arith, put_blob-IsKeyed r bs e k.2, find_blob-put_ne b.blob_id r bs)

-- Whatever `save_blob` answers, a store with one blob for each identifier, each with the size of its
-- content, remains one.
pub save_blob-IsValid : (r : BlobRecord) (s : BlobStore) → IsValid s → IsValid (save_blob r s).0
unfolding save_blob
save_blob-IsValid r s v = ground (arith, put_blob-IsKeyed r s.blobs)

-- What `get_blob_for_task` finds, its own identifier finds too.
pub find_for-find_blob :
    (session task : ℕ) (type : OutputStream) (bs : List BlobRecord) (b : BlobRecord)
    → IsKeyed bs
    → find_for session task type bs ≡ some b
    → (find_blob b.blob_id bs ≡ some b) × (b.size_bytes ≡ length b.content)
find_for-find_blob session task type [] b k h = cc
find_for-find_blob session task type (c ∷ bs) b k h =
    elim (Bool-cases (is_for session task type c)) [
      | inl e ↦ found e
      | inr e ↦
          let further : find_for session task type bs ≡ some b = rw e at h in
          let (there, size) = find_for-find_blob session task type bs b k.2 further in
          (skip there, size)
    ]
  where
    found :
        is_for session task type c ≡ true
        → (find_blob b.blob_id (c ∷ bs) ≡ some b) × (b.size_bytes ≡ length b.content)
    found e = ground arith

    skip : find_blob b.blob_id bs ≡ some b → find_blob b.blob_id (c ∷ bs) ≡ some b
    skip there = ground arith

-- A blob found for a task is read by its own identifier.
pub found-read_blob_range :
    (session task : ℕ) (type : OutputStream) (s : BlobStore) (b : BlobRecord) (offset count : ℕ)
    → IsValid s
    → get_blob_for_task session task type s ≡ some b
    → (read_blob_range b.blob_id (pos offset) (pos count) s ≡ ok (slice offset count b.content))
      × (b.size_bytes ≡ length b.content)
unfolding get_blob_for_task read_blob_range
found-read_blob_range session task type s b offset count v h =
    let (there, size) = find_for-find_blob session task type s.blobs b v h in (rw there refl, size)
