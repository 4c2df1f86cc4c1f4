-- ===== src/Dedup/Write.antt =====
-- `write_file` on an open large file.
use cloud_file_system.Base.{
  Option-cases, inl, inr, ℕ, ◌+◌, ◌-◌, ◌≤◌, ◌<◌, ◌≡◌, refl, ap, ◌∙◌, max, true, false, List, Option,
  none, some, length, arith, leb, ltb, lt→ltb, ℕ_discrete,
}
use cloud_file_system.Base.Dict.{lookup, insert, lookup-insert_self}
use cloud_file_system.Base.Outcome.{ok, runtime_error, ◌>>=◌}
use cloud_file_system.Bytes.{Bytes, Str, str_dec, write_at}
use cloud_file_system.ChunkStore.{ChunkStore}
use cloud_file_system.ChunkSplitter.{Rabin, Splitter}
use cloud_file_system.Snapshot.Format.{Chunk}
use cloud_file_system.Snapshot.Tree.{Buffer}
use cloud_file_system.FileController.{
  inode_of, Disk, MainFile, OpenFile, main_file, set_main, set_chunkinfo,
}
use cloud_file_system.Dedup.Chunks.{World}
use cloud_file_system.Dedup.Prepare.{prepare_write_data}
use cloud_file_system.Dedup.Files.{
  Controller, set_content, set_size, put_prepared, replace_chunks, reload, prepare_write,
  rechunk_file, write_file,
}
use cloud_file_system.Dedup.Loaded.{stop_of}
use cloud_file_system.Dedup.Delivery.{Opened, lookup-set_content}

module _ (store : ChunkStore) (rabin : Rabin) (md5 : Bytes → Bytes) (threshold : ℕ) where
  -- The state behind `pwrite`.
  abbrev pub pwritten :
      ℕ
      → Str
      → Bytes
      → ℕ
      → OpenFile
      → Bytes
      → store.State
      → ℕ
      → Controller store rabin md5 threshold
      → Controller store rabin md5 threshold
  pwritten fd path buf offset f content s size c =
      let c2 = put_prepared store rabin md5 threshold fd path (f, content, s) c in
      record c2 {
        disk =
            set_size path size (set_content path (write_at (offset - f.start) buf content) c2.disk);
      }

  pub write_large :
      (fd offset : ℕ) (buf : Bytes) (f f1 : OpenFile) (path : Str) (b : Buffer) (m : MainFile)
      (content : Bytes) (s : store.State) (start : ℕ) (end : Option ℕ)
      (c : Controller store rabin md5 threshold)
      → Opened store rabin md5 threshold fd f path b c
      → threshold < b.size
      → main_file f.main_path c.disk ≡ ok m
      → m.truncated ≡ false
      → prepare_write_data store offset (length buf) f c.shared.store
        ≡ ok ((f1, content, s), (start, end))
      → f1.start ≤ offset
      → (size : ℕ) → size ≡ b.size + (offset + length buf - f1.start - f1.len)
      → write_file store rabin md5 threshold fd buf offset c ≡ (
          rechunk_file store rabin md5 threshold fd f1 f1.start
            (max f1.len (offset + length buf - f1.start))
            start
            end
            (pwritten fd path buf offset f1 content s size c)
          >>= λ c4. ok (length buf, c4))
  unfolding write_file reload prepare_write
  write_large fd offset buf f f1 path b m content s start end c o large main current prepared low
        size grown =
      let test : ltb threshold b.size ≡ true = lt→ltb threshold b.size large in
      let test' : leb b.size threshold ≡ false = ground (arith, large) in
      let test'' : leb size threshold ≡ false = ground (arith, large, grown) in
      let inside : ltb offset f1.start ≡ false = ground (arith, low) in
      rw
        (
          o.entry,
          o.named,
          o.buffer,
          ◌>>=◌,
          main,
          current,
          test,
          o.op_named,
          prepared,
          lookup-set_content store rabin md5 threshold path b content c.disk o.buffer,
          inside,
          ← grown,
          test',
          test'',
        )
        refl

  pub rechunk_large :
      (fd : ℕ) (f : OpenFile) (path : Str) (b : Buffer) (m : MainFile) (base len start : ℕ)
      (end : Option ℕ) (c : Controller store rabin md5 threshold) (chunks : List Chunk)
      (sp : Splitter rabin.State) (w : World store)
      → lookup ℕ_discrete f.op_fd c.descriptors ≡ some path
      → lookup str_dec path c.disk.buffers ≡ some b
      → main_file f.main_path c.disk ≡ ok m
      → replace_chunks store rabin md5 f.chunks start
          (stop_of f.chunks end)
          b.content
          base
          len
          (c.chunk_splitter, c.shared)
        ≡ ok (chunks, (sp, w))
      → rechunk_file store rabin md5 threshold fd f base len start end c
        ≡ ok (record c {
          disk = set_main f.main_path (record m { chunkinfo = set_chunkinfo chunks }) c.disk;
          open_files = insert ℕ_discrete fd (record f { chunks = chunks }) c.open_files;
          chunk_splitter = sp;
          shared = w;
        })
  unfolding rechunk_file
  rechunk_large fd f path b m base len start none c chunks sp w named there main eq =
      rw (named, there, ◌>>=◌, eq, main) refl
  rechunk_large fd f path b m base len start (some i) c chunks sp w named there main eq =
      rw (named, there, ◌>>=◌, eq, main) refl

  -- The splitter throws.
  pub rechunk_throws :
      (fd : ℕ) (f : OpenFile) (path : Str) (b : Buffer) (base len start : ℕ) (end : Option ℕ)
      (c : Controller store rabin md5 threshold)
      → lookup ℕ_discrete f.op_fd c.descriptors ≡ some path
      → lookup str_dec path c.disk.buffers ≡ some b
      → replace_chunks store rabin md5 f.chunks start
          (stop_of f.chunks end)
          b.content
          base
          len
          (c.chunk_splitter, c.shared)
        ≡ runtime_error
      → rechunk_file store rabin md5 threshold fd f base len start end c ≡ runtime_error
  unfolding rechunk_file
  rechunk_throws fd f path b base len start none c named there eq =
      rw (named, there, ◌>>=◌, eq) refl
  rechunk_throws fd f path b base len start (some i) c named there eq =
      rw (named, there, ◌>>=◌, eq) refl

  set_content_eq :
      (path : Str) (content : Bytes) (b : Buffer) (d : Disk)
      → lookup str_dec path d.buffers ≡ some b
      → set_content path content d
        ≡ record d { buffers = insert str_dec path (record b { content = content }) d.buffers }
  unfolding set_content
  set_content_eq path content b d there = rw (there, set_content) refl

  set_size_eq :
      (path : Str) (size : ℕ) (b : Buffer) (d : Disk)
      → lookup str_dec path d.buffers ≡ some b
      → set_size path size d
        ≡ record d { buffers = insert str_dec path (record b { size = size }) d.buffers }
  unfolding set_size
  set_size_eq path size b d there = rw (there, set_size) refl

  -- A write changes the buffer file and no main file.
  pub main_file-pwritten :
      (fd : ℕ) (path main_path : Str) (buf : Bytes) (offset : ℕ) (f : OpenFile) (b : Buffer)
      (content : Bytes) (s : store.State) (size : ℕ) (c : Controller store rabin md5 threshold)
      → lookup str_dec path c.disk.buffers ≡ some b
      → (main_file main_path (pwritten fd path buf offset f content s size c).disk
          ≡ main_file main_path c.disk)
        × (lookup str_dec path (pwritten fd path buf offset f content s size c).disk.buffers
            ≡ some (record { content = write_at (offset - f.start) buf content; size = size }))
  unfolding inode_of
  main_file-pwritten fd path main_path buf offset f b content s size c there =
      let written = write_at (offset - f.start) buf content in
      let b1 : Buffer = record b { content = content } in
      let b2 : Buffer = record b { content = written } in
      let d1 : Disk = record c.disk { buffers = insert str_dec path b1 c.disk.buffers } in
      let d2 : Disk = record d1 { buffers = insert str_dec path b2 d1.buffers } in
      let first = lookup-insert_self str_dec path b1 c.disk.buffers in
      let second = lookup-insert_self str_dec path b2 d1.buffers in
      let disk =
        ap (λ d. set_size path size (set_content path written d))
          (set_content_eq path content b c.disk there)
        ∙ ap (λ d. set_size path size d) (set_content_eq path written b1 d1 first)
        ∙ set_size_eq path size b2 d2 second in
      (
        ap (λ d. main_file main_path d) disk,
        ap (λ d. lookup str_dec path d.buffers) disk
            ∙ lookup-insert_self str_dec path (record b2 { size = size }) d2.buffers,
      )

  pub set_main_buffers :
      (path : Str) (m : MainFile) (d : Disk) → (set_main path m d).buffers ≡ d.buffers
  unfolding set_main
  set_main_buffers path m d = elim (Option-cases (lookup str_dec path d.names)) [
    | inl missing ↦ rw (missing, set_main) refl
    | inr (i, found) ↦ rw (found, set_main) refl
  ]
