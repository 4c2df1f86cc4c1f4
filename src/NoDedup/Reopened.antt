-- ===== src/NoDedup/Reopened.antt =====
-- The next session of a file.
use cloud_file_system.Base.{
  ℕ, ◌≡◌, refl, ap, ◌∙◌, true, false, ◌++◌, some, length, ℕ_discrete, [], sym,
}
use cloud_file_system.Base.Dict.{lookup, insert, lookup-insert_self}
use cloud_file_system.Base.Outcome.{ok, ◌>>=◌}
use cloud_file_system.Bytes.{Bytes, Str, str_dec}
use cloud_file_system.Objects.{Objects}
use cloud_file_system.Snapshot.Tree.{Buffer}
use cloud_file_system.FileController.{
  MainFile, regular_file, inode_of, set_buffer, set_main, generate_object_key, resize,
}
use cloud_file_system.NoDedup.{Controller, fetched, open_file, close_file, truncate_file}
use cloud_file_system.NoDedup.Sessions.{
  Closed, Deletes, Synced, close_file-Closed, inode_of-set_buffer,
}

same_buffer :
    (content bs : Bytes) (b : Buffer)
    → b.size ≡ length bs
    → content ≡ bs
    → record b { content = content } ≡ record { size = length bs; content = bs }
same_buffer content bs b size same = rw (size, same) refl

module _ (store : Objects) (threshold : ℕ) where
  -- A file that is opened, with its bytes in the buffer file.
  abbrev pub Opens : Str → Str → ℕ → Str → Bytes → Controller store threshold → Type 0
  Opens ssd_path path fd buffer_path bs c =
      (c' : Controller store threshold) × (open_file store threshold ssd_path path false fd c
        ≡ ok c')
      × (lookup ℕ_discrete fd c'.descriptors ≡ some buffer_path)
      × (lookup str_dec buffer_path c'.disk.buffers
          ≡ some (record { size = length bs; content = bs }))

  open_eq :
      (ssd_path path : Str) (fd : ℕ) (m : MainFile) (b : Buffer) (c : Controller store threshold)
      → inode_of (ssd_path ++ path) c.disk ≡ some (regular_file m)
      → lookup str_dec m.buffer_path c.disk.buffers ≡ some b
      → (c' : Controller store threshold) × (open_file store threshold ssd_path path false fd c
          ≡ ok c')
        × (lookup ℕ_discrete fd c'.descriptors ≡ some m.buffer_path)
        × (lookup str_dec m.buffer_path c'.disk.buffers
            ≡ some (record b { content = fetched store threshold m b c }))
  unfolding open_file
  open_eq ssd_path path fd m b c there buffer =
      let b' : Buffer = record b { content = fetched store threshold m b c } in
      let d = set_main (ssd_path ++ path) m c.disk in
      (
        record c {
          disk = set_buffer m.buffer_path b' d;
          descriptors = insert ℕ_discrete fd m.buffer_path c.descriptors;
          open_files =
              insert ℕ_discrete fd
                (record {
                  main_path = ssd_path ++ path;
                  start = 0;
                  len = 0;
                  is_dirty = false;
                  chunks = [];
                  op_fd = 0;
                })
                c.open_files;
        },
        rw (there, buffer, ◌>>=◌) refl,
        lookup-insert_self ℕ_discrete fd m.buffer_path c.descriptors,
        lookup-insert_self str_dec m.buffer_path b' d.buffers,
      )

  open_file-Closed :
      (ssd_path path : Str) (fd : ℕ) (buffer_path : Str) (bs : Bytes)
      (c : Controller store threshold)
      → Closed store threshold (ssd_path ++ path) buffer_path bs c
      → Opens ssd_path path fd buffer_path bs c
  open_file-Closed ssd_path path fd buffer_path bs c (m, b, there, named, buffer, size, bytes) =
      let (c', eq, opened, content) = open_eq ssd_path path fd m b c there (rw named buffer) in
      (
        c',
        eq,
        opened ∙ ap some named,
        ap (λ p. lookup str_dec p c'.disk.buffers) (sym named)
            ∙ content
            ∙ ap some (same_buffer (fetched store threshold m b c) bs b size bytes),
      )

  -- When an open file is closed and opened again, the close and the open succeed and the buffer file
  -- has the same bytes, and their number as its size: where the file is large they come back from the
  -- cloud. It is assumed that the deletion of an old object succeeds, and that the object of a file
  -- that has not changed is its bytes.
  pub open_file-close_file :
      (ssd_path path : Str) (fd fd' : ℕ) (m : MainFile) (b : Buffer)
      (c : Controller store threshold)
      → inode_of (ssd_path ++ path) c.disk ≡ some (regular_file m)
      → lookup ℕ_discrete fd c.descriptors ≡ some m.buffer_path
      → lookup str_dec m.buffer_path c.disk.buffers ≡ some b
      → Deletes store threshold m c.objects
      → Synced store threshold fd m b c
      → (c1 : Controller store threshold) × (close_file store threshold ssd_path path fd c ≡ ok c1)
        × Opens ssd_path path fd' m.buffer_path b.content c1
  open_file-close_file ssd_path path fd fd' m b c there named buffer deletes synced =
      let (c1, eq, closed) =
        close_file-Closed store threshold ssd_path path fd m b c there named buffer deletes
          synced in
      (c1, eq, open_file-Closed ssd_path path fd' m.buffer_path b.content c1 closed)

  -- When a closed file in the cloud is truncated, to any size, and opened again, the truncation
  -- succeeds and the buffer file has all the bytes of the object, as before.
  pub open_file-truncate_file :
      (ssd_path path : Str) (fd size : ℕ) (m : MainFile) (b : Buffer) (bs : Bytes)
      (c : Controller store threshold)
      → inode_of (ssd_path ++ path) c.disk ≡ some (regular_file m)
      → lookup str_dec m.buffer_path c.disk.buffers ≡ some b
      → m.is_on_cloud ≡ true
      → store.download_file (generate_object_key m.buffer_path) c.objects ≡ bs
      → b.size ≡ length bs
      → (c1 : Controller store threshold) × (truncate_file store threshold ssd_path path size c
          ≡ ok c1)
        × Opens ssd_path path fd m.buffer_path bs c1
  unfolding truncate_file
  open_file-truncate_file ssd_path path fd size m b bs c there buffer on object same_size =
      let b' : Buffer = record b { content = resize size b.content } in
      let c1 : Controller store threshold = record c {
        disk = set_buffer m.buffer_path b' c.disk;
      } in
      (
        c1,
        rw (there, buffer, ◌>>=◌) refl,
        open_file-Closed ssd_path path fd m.buffer_path bs c1 (
          m,
          b',
          inode_of-set_buffer (ssd_path ++ path) m.buffer_path b' c.disk ∙ there,
          refl,
          lookup-insert_self str_dec m.buffer_path b' c.disk.buffers,
          same_size,
          rw on object,
        ),
      )
