-- ===== src/Tests/Persistence.antt =====
-- The blob store at a concrete input.
use agentic_local_app.Base.{refl, false, [], ◌∷◌}
use agentic_local_app.Domain.States.{OutputStream}
use agentic_local_app.Persistence.Blobs.{BlobRecord, BlobStore, save_blob}
use agentic_local_app.Persistence.Blobs.Keyed.{IsValid, save_blob-IsValid}

abbrev pub letters : BlobRecord
letters = record {
  blob_id = 1;
  session_id = 7;
  task_id = 3;
  blob_type = OutputStream.stdout;
  content = 97 ∷ 98 ∷ 99 ∷ 100 ∷ 101 ∷ [];
  size_bytes = 5;
}

abbrev pub store : BlobStore
store = record { blobs = letters ∷ []; fail_next_write = false; closed = false }

pub store-IsValid : IsValid store
store-IsValid = (refl, refl, tt)

save_blob-IsValid_example : IsValid (save_blob (record letters { blob_id = 2 }) store).0
save_blob-IsValid_example = save_blob-IsValid (record letters { blob_id = 2 }) store store-IsValid
