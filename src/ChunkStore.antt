-- ===== src/ChunkStore.antt =====
-- What the controller of files uses of the buffer file controller: the chunks in the cloud and in the
-- cache, with what every state promises of them.
use cloud_file_system.Base.{ℕ, ◌+◌, ◌^◌, ◌≤◌, ◌<◌, ◌≡◌, ◌≢◌, Option, none, some, length}
use cloud_file_system.Base.Outcome.{Outcome, ok}
use cloud_file_system.Bytes.{Bytes, Str, write_at, read_at}

pub record ChunkStore : Type 1 where
  pub State : Type 0
  pub Valid : State → Type 0
  pub contents : Str → State → Option Bytes
  pub upload_chunk : Str → Bytes → ℕ → ℕ → State → Outcome State
  pub download_chunk : Str → Bytes → ℕ → ℕ → State → Outcome (Bytes × State)
  pub delete_object : Str → State → Outcome State
  pub upload_chunk_new :
      (k : Str) (file : Bytes) (offset size : ℕ) (s : State)
      → Valid s
      → contents k s ≡ none
      → offset + size ≤ length file
      → size < 2 ^ 31
      → (s' : State) × (upload_chunk k file offset size s ≡ ok s')
        × Valid s'
        × (contents k s' ≡ some (read_at size offset file))
        × ((j : Str) → j ≢ k → contents j s' ≡ contents j s)
  pub download_chunk_stored :
      (k : Str) (file bs : Bytes) (offset size : ℕ) (s : State)
      → Valid s
      → contents k s ≡ some bs
      → length bs ≡ size
      → size < 2 ^ 31
      → (s' : State) × (download_chunk k file offset size s ≡ ok (write_at offset bs file, s'))
        × Valid s'
        × ((j : Str) → contents j s' ≡ contents j s)
  pub delete_object_lem :
      (k : Str) (s : State)
      → Valid s
      → (s' : State) × (delete_object k s ≡ ok s')
        × Valid s'
        × (contents k s' ≡ none)
        × ((j : Str) → j ≢ k → contents j s' ≡ contents j s)
