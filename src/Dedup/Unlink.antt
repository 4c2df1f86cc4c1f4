-- ===== src/Dedup/Unlink.antt =====
-- `unlink_file` of the last name of a file, and a splitter that is used without `init`.
use cloud_file_system.Base.{
  ℕ, ◌≡◌, refl, ◌∙◌, inl, inr, true, List, ◌++◌, none, some, arith, ◌==◌, Bool-cases, ℕ_discrete,
}
use cloud_file_system.Base.Dict.{lookup, erase, NodupKeys, lookup-erase_self}
use cloud_file_system.Base.Outcome.{ok, ◌>>=◌}
use cloud_file_system.Bytes.{Bytes, Str, str_dec}
use cloud_file_system.ChunkStore.{ChunkStore}
use cloud_file_system.ChunkSplitter.{Rabin}
use cloud_file_system.Snapshot.Format.{Chunk}
use cloud_file_system.Snapshot.Tree.{Buffer}
use cloud_file_system.FileController.{
  Disk, MainFile, regular_file, inode_of, links, get_chunkinfo, unlink_main,
}
use cloud_file_system.Dedup.Chunks.{World, drop_chunks}
use cloud_file_system.Dedup.Counting.{Consistent, keys_of}
use cloud_file_system.Dedup.Release.{Remains, drop_chunks-Consistent}
use cloud_file_system.Dedup.Files.{Controller}
use cloud_file_system.Dedup.Paths.{unlink_file, unlink_chunks}

unlink_main_lem :
    (path : Str) (i : ℕ) (d : Disk)
    → lookup str_dec path d.names ≡ some i
    → (d' : Disk) × (unlink_main path d ≡ ok d')
      × (d'.names ≡ erase str_dec path d.names)
      × (d'.buffers ≡ d.buffers)
unfolding unlink_main
unlink_main_lem path i d named =
    let d' : Disk = record d { names = erase str_dec path d.names } in
    elim (Bool-cases (links i (erase str_dec path d.names) == 0)) [
      | inl none_left ↦ (
        record d' { inodes = erase ℕ_discrete i d.inodes },
        rw (named, unlink_main, none_left) refl,
        refl,
        refl,
      )
      | inr some_left ↦ (d', rw (named, unlink_main, some_left) refl, refl, refl)
    ]

module _ (store : ChunkStore) (rabin : Rabin) (md5 : Bytes → Bytes) (threshold : ℕ) where
  unlink_chunks_eq :
      (m : MainFile) (b : Buffer) (chunks : List Chunk) (w : World store)
      (c : Controller store rabin md5 threshold)
      → lookup str_dec m.buffer_path c.disk.buffers ≡ some b
      → get_chunkinfo m.chunkinfo ≡ ok chunks
      → drop_chunks store chunks c.shared ≡ ok w
      → unlink_chunks store rabin md5 threshold m c
        ≡ ok (record c {
          disk = record c.disk { buffers = erase str_dec m.buffer_path c.disk.buffers };
          shared = w;
        })
  unfolding unlink_chunks
  unlink_chunks_eq m b chunks w c there listed eq = rw (there, listed, eq, ◌>>=◌) refl

  unlink_file_eq :
      (ssd_path path : Str) (m : MainFile) (i : ℕ) (c c1 : Controller store rabin md5 threshold)
      → inode_of (ssd_path ++ path) c.disk ≡ some (regular_file m)
      → lookup str_dec (ssd_path ++ path) c.disk.names ≡ some i
      → links i c.disk.names ≡ 1
      → unlink_chunks store rabin md5 threshold m c ≡ ok c1
      → unlink_file store rabin md5 threshold ssd_path path c
        ≡ (unlink_main (ssd_path ++ path) c1.disk >>= λ d. ok (record c1 { disk = d }))
  unfolding unlink_file
  unlink_file_eq ssd_path path m i c c1 there named last eq =
      let test : (links i c.disk.names == 1) ≡ true = ground (arith, last) in
      rw (there, named, test, eq, ◌>>=◌) refl

module _ (store : ChunkStore) (rabin : Rabin) (md5 : Bytes → Bytes) (threshold : ℕ)
    (Known : Bytes → Type 0) where
  -- Where the counts agree with the chunk list of a file and the chunks of the other files, to unlink
  -- the only name of the file succeeds: the name and the buffer file are gone, the counts agree with
  -- the chunks of the other files alone, and their stored chunks have not changed.
  pub unlink_file_lem :
      (ssd_path path : Str) (m : MainFile) (i : ℕ) (b : Buffer) (chunks : List Chunk)
      (live : List Str) (c : Controller store rabin md5 threshold)
      → inode_of (ssd_path ++ path) c.disk ≡ some (regular_file m)
      → lookup str_dec (ssd_path ++ path) c.disk.names ≡ some i
      → links i c.disk.names ≡ 1
      → lookup str_dec m.buffer_path c.disk.buffers ≡ some b
      → NodupKeys str_dec c.disk.names
      → NodupKeys str_dec c.disk.buffers
      → get_chunkinfo m.chunkinfo ≡ ok chunks
      → Consistent store md5 rabin Known (keys_of chunks ++ live) c.shared
      → (c' : Controller store rabin md5 threshold) × (unlink_file store rabin md5 threshold
            ssd_path path c
          ≡ ok c')
        × (lookup str_dec (ssd_path ++ path) c'.disk.names ≡ none)
        × (lookup str_dec m.buffer_path c'.disk.buffers ≡ none)
        × Consistent store md5 rabin Known live c'.shared
        × Remains store md5 rabin Known live c.shared c'.shared
  unlink_file_lem ssd_path path m i b chunks live c there named last buffer names_nodup
        buffers_nodup listed consistent =
      let (w, eq, consistent', remains) =
        drop_chunks-Consistent store md5 rabin Known chunks live c.shared consistent in
      let gone = lookup-erase_self str_dec (ssd_path ++ path) c.disk.names names_nodup in
      let gone' = lookup-erase_self str_dec m.buffer_path c.disk.buffers buffers_nodup in
      let first =
        unlink_file_eq store rabin md5 threshold ssd_path path m i c _ there named last
          (unlink_chunks_eq store rabin md5 threshold m b chunks w c buffer listed eq) in
      let (d, eq', names_left, buffers_left) =
        unlink_main_lem (ssd_path ++ path) i
          (record c.disk { buffers = erase str_dec m.buffer_path c.disk.buffers }) named in
      (
        record c { disk = d; shared = w },
        first ∙ rw (eq', ◌>>=◌) refl,
        rw names_left gone,
        rw buffers_left gone',
        consistent',
        remains,
      )
