-- ===== src/Dedup/Paths.antt =====
-- The calls on paths: `unlink_file`, `truncate_file` and `destroy`.
use cloud_file_system.Base.{
  ℕ, suc, ◌+◌, ◌-◌, true, List, [], ◌++◌, none, some, length, take, drop, leb, ltb, ◌==◌,
  if◌then◌else◌,
}
use cloud_file_system.Base.Outcome.{Outcome, ok, failure, ◌>>=◌}
use cloud_file_system.Bytes.{Bytes, Str}
use cloud_file_system.ChunkStore.{ChunkStore}
use cloud_file_system.ChunkSplitter.{Rabin}
use cloud_file_system.Snapshot.Format.{Chunk}
use cloud_file_system.FileController.{
  MainFile, regular_file, other_file, inode_of, get_chunkinfo, set_chunkinfo, main_file, set_main,
  buffer_file, get_chunk_idx, unlink_main, unlink_buffer, is_last_link, resize,
}
use cloud_file_system.Dedup.Chunks.{drop_chunks, rechunk}
use cloud_file_system.Dedup.Prepare.{load_chunks, chunk_at, asserted}
use cloud_file_system.Dedup.Files.{Controller, set_content, set_size}

module _ (store : ChunkStore) (rabin : Rabin) (md5 : Bytes → Bytes) (threshold : ℕ) where
  -- The part of `unlink_file` for the last link of a main file.
  unfoldable pub unlink_chunks :
      MainFile
      → Controller store rabin md5 threshold
      → Outcome (Controller store rabin md5 threshold)
  unlink_chunks m c = do
    d ← unlink_buffer m.buffer_path c.disk
    chunks ← get_chunkinfo m.chunkinfo
    w ← drop_chunks store chunks c.shared
    ok (record c { disk = d; shared = w })

  unfoldable pub unlink_file :
      Str
      → Str
      → Controller store rabin md5 threshold
      → Outcome (Controller store rabin md5 threshold)
  unlink_file ssd_path path c = do
    let main_path = ssd_path ++ path
    c1 ← (elim (inode_of main_path c.disk) [
      | none ↦ failure
      | some (other_file size) ↦ ok c
      | some (regular_file m) ↦
          let last = unlink_chunks m c in if is_last_link main_path c.disk then last else ok c
    ])
    d ← unlink_main main_path c1.disk
    ok (record c1 { disk = d })

  -- The end of `truncate_file`: the new chunk list, the attribute `truncated` and the size.
  abbrev pub record_truncated :
      Str
      → Str
      → MainFile
      → List Chunk
      → ℕ
      → Controller store rabin md5 threshold
      → Controller store rabin md5 threshold
  record_truncated main_path buffer_path m chunks size c =
      let m' : MainFile = record m { truncated = true; chunkinfo = set_chunkinfo chunks } in
      record c { disk = set_size buffer_path size (set_main main_path m' c.disk) }

  -- A large file becomes small: its chunks up to the new end are loaded, and all are released.
  unfoldable pub truncate_local :
      Str
      → MainFile
      → List Chunk
      → ℕ
      → Controller store rabin md5 threshold
      → Outcome (Controller store rabin md5 threshold)
  truncate_local main_path m chunks size c = do
    let stop : ℕ = elim (get_chunk_idx chunks size) [ none ↦ 0 | some i ↦ suc i ]
    ((len, content), s) ← load_chunks store (take stop chunks) 0 [] c.shared.store
    w ← drop_chunks store chunks (record c.shared { store = s })
    let d = set_content m.buffer_path (resize size content) c.disk
    ok (record_truncated main_path m.buffer_path m [] size (record c { disk = d; shared = w }))

  -- The chunk that holds the new end: the next one, if the new end is the end of the chunk.
  abbrev pub truncate_point : List Chunk → ℕ → Outcome ℕ
  truncate_point chunks size = do
    i ← asserted (get_chunk_idx chunks size)
    c ← chunk_at chunks i
    let idx = if c.start + c.len == size then suc i else i
    asserted (if ltb idx (length chunks) then some idx else none)

  -- A file that stays large: the chunk that holds the new end is cut again, with the splitter as it is.
  unfoldable pub truncate_cloud :
      Str
      → MainFile
      → List Chunk
      → ℕ
      → Controller store rabin md5 threshold
      → Outcome (Controller store rabin md5 threshold)
  truncate_cloud main_path m chunks size c = do
    idx ← truncate_point chunks size
    last ← chunk_at chunks idx
    (content, s) ← store.download_chunk last.key [] 0 last.len c.shared.store
    let buffer = resize (size - last.start) content
    w ← drop_chunks store (drop idx chunks) (record c.shared { store = s })
    (new_chunks, (sp, w')) ←
        rechunk store rabin md5 buffer last.start (size - last.start) (c.chunk_splitter, w)
    let d = set_content m.buffer_path buffer c.disk
    ok (
        record_truncated main_path m.buffer_path m (take idx chunks ++ new_chunks) size
          (record c { disk = d; chunk_splitter = sp; shared = w' }))

  unfoldable pub truncate_file :
      Str
      → Str
      → ℕ
      → Controller store rabin md5 threshold
      → Outcome (Controller store rabin md5 threshold)
  truncate_file ssd_path path size c = do
    let main_path = ssd_path ++ path
    m ← main_file main_path c.disk
    b ← buffer_file m.buffer_path c.disk
    let small : Controller store rabin md5 threshold = record c {
      disk = set_size m.buffer_path size (set_content m.buffer_path (resize size b.content) c.disk);
    }
    let large : Outcome (Controller store rabin md5 threshold) =
        get_chunkinfo m.chunkinfo >>= λ chunks.
        (let to_local = truncate_local main_path m chunks size c in
          let to_cloud = truncate_cloud main_path m chunks size c in
          if leb size threshold then to_local else to_cloud)
    let shorter = if leb b.size threshold then ok small else large
    if leb b.size size then ok c else shorter
