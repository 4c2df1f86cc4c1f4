-- ===== src/Dedup/Chunks.antt =====
-- The loops of `write_file`, `truncate_file` and `unlink_file` that use and release chunks: the chunk
-- table counts the uses, the buffer file controller has the bytes. The source does not look at the
-- codes that `upload_chunk` and `delete_object` return in these loops; a call that fails there ends
-- the model, since the state that it leaves is not known.
use cloud_file_system.Base.{
  ℕ, zero, suc, ◌+◌, ◌-◌, not, List, [], ◌∷◌, ◌++◌, length, ltb, if◌then◌else◌,
}
use cloud_file_system.Base.Outcome.{Outcome, ok, stuck, ◌>>=◌}
use cloud_file_system.Bytes.{Bytes, Str, read_at}
use cloud_file_system.ChunkTable.{Table, use_chunk, release}
use cloud_file_system.ChunkStore.{ChunkStore}
use cloud_file_system.ChunkSplitter.{Rabin, Splitter, get_chunks_next, get_chunk_last}
use cloud_file_system.Snapshot.Format.{Chunk}

-- `chunk_table_` and `buffer_controller_`.
pub record Shared (S : Type 0) : Type 0 where
  pub table : Table
  pub store : S

abbrev pub rechunk_buf_size : ℕ
rechunk_buf_size = 4096

module _ (store : ChunkStore) where
  abbrev pub World : Type 0
  World = Shared store.State

  -- `use`, and the upload of a chunk that is new, from the buffer file that starts at `base`.
  unfoldable pub add_chunk : Bytes → ℕ → Chunk → World → Outcome World
  add_chunk file base c w =
      let used = use_chunk c.key w.table in
      let counted : World = record w { table = used.0 } in
      let uploaded : Outcome World =
        store.upload_chunk c.key file (c.start - base) c.len w.store >>= λ s.
        ok (record counted { store = s }) in
      if used.1 then uploaded else ok counted

  unfoldable pub add_chunks : Bytes → ℕ → List Chunk → World → Outcome World
  add_chunks file base [] w = ok w
  add_chunks file base (c ∷ cs) w = do w' ← add_chunk file base c w; add_chunks file base cs w'

  -- `release`, and the deletion of a chunk without users.
  unfoldable pub drop_chunk : Str → World → Outcome World
  drop_chunk key w = do
    (t, is_last) ← release key w.table
    let counted : World = record w { table = t }
    let removed : Outcome World =
        store.delete_object key w.store >>= λ s. ok (record counted { store = s })
    if is_last then removed else ok counted

  unfoldable pub drop_chunks : List Chunk → World → Outcome World
  drop_chunks [] w = ok w
  drop_chunks (c ∷ cs) w = do w' ← drop_chunk c.key w; drop_chunks cs w'

  module _ (rabin : Rabin) (md5 : Bytes → Bytes) where
    -- The loop over the buffer file, of which `read_p` bytes are read.
    unfoldable pub rechunk_rounds :
        ℕ
        → Bytes
        → ℕ
        → ℕ
        → ℕ
        → Splitter rabin.State × World
        → Outcome (List Chunk × (Splitter rabin.State × World))
    rechunk_rounds zero file base len read_p (sp, w) =
        if ltb read_p len then stuck else ok ([], (sp, w))
    rechunk_rounds (suc fuel) file base len read_p (sp, w) =
        if not (ltb read_p len) then ok ([], (sp, w)) else do
          let buf = read_at rechunk_buf_size read_p file
          (here, sp1) ← get_chunks_next rabin md5 buf sp
          w1 ← add_chunks file base here w
          (rest, end) ← rechunk_rounds fuel file base len (read_p + length buf) (sp1, w1)
          ok (here ++ rest, end)

    -- The loop, and the chunk that is left at the end.
    unfoldable pub rechunk :
        Bytes
        → ℕ
        → ℕ
        → Splitter rabin.State × World
        → Outcome (List Chunk × (Splitter rabin.State × World))
    rechunk file base len sw = do
      (chunks, (sp1, w1)) ← rechunk_rounds len file base len 0 sw
      (last_chunk, sp2) ← get_chunk_last rabin md5 sp1
      let with_last : Outcome (List Chunk × (Splitter rabin.State × World)) =
          add_chunk file base last_chunk w1 >>= λ w2. ok (chunks ++ (last_chunk ∷ []), (sp2, w2))
      if ltb 0 last_chunk.len then with_last else ok (chunks, (sp2, w1))
