-- ===== src/Dedup/Delivery.antt =====
-- `read_file` on an open file.
use cloud_file_system.Base.{
  ℕ, ◌-◌, ◌≤◌, ◌^◌, ◌<◌, ◌≡◌, refl, ◌∙◌, some, length, arith, ltb, lt→ltb, true, false, ℕ_discrete,
}
use cloud_file_system.Base.Dict.{lookup, lookup-insert_self}
use cloud_file_system.Base.Outcome.{ok, ◌>>=◌}
use cloud_file_system.Bytes.{Bytes, Str, str_dec, read_at}
use cloud_file_system.ChunkStore.{ChunkStore}
use cloud_file_system.ChunkSplitter.{Rabin}
use cloud_file_system.Snapshot.Tree.{Buffer}
use cloud_file_system.FileController.{Disk, OpenFile}
use cloud_file_system.Dedup.Prepare.{prepare_read_data}
use cloud_file_system.Dedup.Files.{Controller, set_content, put_prepared, read_file}
use cloud_file_system.Dedup.Contents.{Describes, Describes-congr}
use cloud_file_system.Dedup.Read.{prepare_read_data-Ready}

module _ (store : ChunkStore) (rabin : Rabin) (md5 : Bytes → Bytes) (threshold : ℕ) where
  -- An open file with both of its descriptors, which name its buffer file.
  pub record Opened (fd : ℕ) (f : OpenFile) (path : Str) (b : Buffer)
      (c : Controller store rabin md5 threshold) : Type 0 where
    pub entry : lookup ℕ_discrete fd c.open_files ≡ some f
    pub named : lookup ℕ_discrete fd c.descriptors ≡ some path
    pub op_named : lookup ℕ_discrete f.op_fd c.descriptors ≡ some path
    pub buffer : lookup str_dec path c.disk.buffers ≡ some b

  -- The bytes of a large file: its chunk list stands for them, and has a chunk.
  abbrev pub Holds : OpenFile → Bytes → Controller store rabin md5 threshold → Type 0
  Holds f bs c =
      store.Valid c.shared.store
      × Describes store c.shared.store 0 f.chunks bs
      × (0 < length f.chunks)

  pub lookup-set_content :
      (path : Str) (b : Buffer) (content : Bytes) (d : Disk)
      → lookup str_dec path d.buffers ≡ some b
      → lookup str_dec path (set_content path content d).buffers
        ≡ some (record b { content = content })
  unfolding set_content
  lookup-set_content path b content d h =
      rw (h, set_content)
        (lookup-insert_self str_dec path (record b { content = content }) d.buffers)

  read_large :
      (fd size offset : ℕ) (f f' : OpenFile) (path : Str) (b : Buffer) (content : Bytes)
      (s : store.State) (c : Controller store rabin md5 threshold)
      → Opened fd f path b c
      → threshold < b.size
      → prepare_read_data store offset size f c.shared.store ≡ ok (f', content, s)
      → f'.start ≤ offset
      → read_file store rabin md5 threshold fd size offset c
        ≡ ok (
          read_at size (offset - f'.start) content,
          put_prepared store rabin md5 threshold fd path (f', content, s) c,
        )
  unfolding read_file
  read_large fd size offset f f' path b content s c o large prepared low =
      let test : ltb threshold b.size ≡ true = lt→ltb threshold b.size large in
      let inside : ltb offset f'.start ≡ false = ground (arith, low) in
      rw
        (
          o.entry,
          o.named,
          o.buffer,
          test,
          o.op_named,
          prepared,
          ◌>>=◌,
          lookup-set_content path b content c.disk o.buffer,
          inside,
        )
        refl

  -- For an open large file whose chunk list stands for less than 2^31 bytes, `read_file` succeeds at every
  -- offset and size and gives exactly the bytes that stand there, fewer at the end of the file and
  -- none behind it; afterwards the file is still open, with the same chunk list, and it still stands
  -- for the same bytes.
  pub read_file_lem :
      (fd size offset : ℕ) (f : OpenFile) (path : Str) (b : Buffer) (bs : Bytes)
      (c : Controller store rabin md5 threshold)
      → Opened fd f path b c
      → threshold < b.size
      → Holds f bs c
      → length bs < 2 ^ 31
      → (f' : OpenFile) × (b' : Buffer) × (c' : Controller store rabin md5 threshold) × (read_file
            store rabin md5 threshold fd size offset c
          ≡ ok (read_at size offset bs, c'))
        × Opened fd f' path b' c'
        × (b'.size ≡ b.size)
        × (f'.chunks ≡ f.chunks)
        × Holds f' bs c'
  read_file_lem fd size offset f path b bs c o large (v, d, some_chunk) in_int =
      let (f', content, s', eq, low, bytes, same_chunks, same_fd, v', same) =
        prepare_read_data-Ready store offset size f c.shared.store bs v d some_chunk in_int in
      (
        f',
        record b { content = content },
        put_prepared store rabin md5 threshold fd path (f', content, s') c,
        read_large fd size offset f f' path b content s' c o large eq low ∙ rw bytes refl,
        record {
          entry = lookup-insert_self ℕ_discrete fd f' c.open_files;
          named = o.named;
          op_named = rw same_fd o.op_named;
          buffer = lookup-set_content path b content c.disk o.buffer;
        },
        refl,
        same_chunks,
        (
          v',
          rw same_chunks (Describes-congr store c.shared.store s' 0 f.chunks bs same d),
          rw same_chunks some_chunk,
        ),
      )
