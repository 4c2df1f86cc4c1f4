-- ===== src/BufferFile/Chunks.antt =====
-- The buffer file controller as the controller of files uses it.
use cloud_file_system.Base.{ℕ, List}
use cloud_file_system.Bytes.{Str}
use cloud_file_system.Replacer.{Replacer}
use cloud_file_system.Cloud.{Cloud}
use cloud_file_system.ChunkStore.{ChunkStore}
use cloud_file_system.BufferFile.{Controller, upload_chunk, download_chunk, delete_object}
use cloud_file_system.BufferFile.Valid.{Valid, contents}
use cloud_file_system.BufferFile.Calls.{upload_chunk-Valid, delete_object-Valid}
use cloud_file_system.BufferFile.Download.{download_chunk-Valid}

module _ (replacer : Replacer) (cloud : Cloud) where
  -- A state with some list of cached keys and some capacity for which the invariant holds.
  abbrev pub SomeValid : Controller replacer cloud → Type 0
  SomeValid s = (ks : List Str) × (capacity : ℕ) × Valid replacer cloud s ks capacity

  abbrev pub buffer_chunks : ChunkStore
  buffer_chunks = record {
    State = Controller replacer cloud;
    Valid = SomeValid;
    contents = contents replacer cloud;
    upload_chunk = upload_chunk replacer cloud;
    download_chunk = download_chunk replacer cloud;
    delete_object = delete_object replacer cloud;
    upload_chunk_new = λ k file offset size s (ks, capacity, v) new inside small.
        let (s', ks', eq, v', here, rest) =
          upload_chunk-Valid replacer cloud k file offset size s ks capacity v new inside small in
        (s', eq, (ks', capacity, v'), here, rest);
    download_chunk_stored = λ k file bs offset size s (ks, capacity, v) stored len small.
        let (s', ks', eq, v', rest) =
          download_chunk-Valid replacer cloud k file bs offset size s ks capacity v stored len
            small in
        (s', eq, (ks', capacity, v'), rest);
    delete_object_lem = λ k s (ks, capacity, v).
        let (s', ks', eq, v', here, rest) = delete_object-Valid replacer cloud k s ks capacity v in
        (s', eq, (ks', capacity, v'), here, rest);
  }
