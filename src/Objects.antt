-- ===== src/Objects.antt =====
-- What the snapshots use of the buffer file controller: whole files to and from the cloud, which pass
-- by the cache, and the deletion of an object.
use cloud_file_system.Base.{ℕ, ◌≡◌, length}
use cloud_file_system.Base.Outcome.{Outcome}
use cloud_file_system.Bytes.{Bytes, Str}

pub record Objects : Type 1 where
  pub State : Type 0
  pub upload_file : Str → Bytes → ℕ → State → State
  pub download_file : Str → State → Bytes
  pub delete_object : Str → State → Outcome State
  pub download_file-upload_file :
      (k : Str) (bs : Bytes) (s : State) → download_file k (upload_file k bs (length bs) s) ≡ bs
