-- ===== src/Dedup/WriteFile.antt =====
-- `write_file` on an open large file: the bytes of the file after it.
use cloud_file_system.Base.{
  ℕ, ◌+◌, ◌-◌, ◌^◌, ◌≤◌, ◌<◌, ◌≡◌, refl, ap, ◌∙◌, ◌⊎◌, inl, inr, max, false, List, [], ◌++◌, length,
  arith, length-append, ℕ_discrete,
}
use cloud_file_system.Base.Dict.{lookup, insert, lookup-insert_self}
use cloud_file_system.Base.Outcome.{ok, runtime_error, ◌>>=◌}
use cloud_file_system.Bytes.{Bytes, Str, str_dec, write_at}
use cloud_file_system.ChunkStore.{ChunkStore}
use cloud_file_system.ChunkSplitter.{Rabin}
use cloud_file_system.ChunkSplitter.Pieces.{Fails}
use cloud_file_system.Snapshot.Tree.{Buffer}
use cloud_file_system.FileController.{set_main, set_chunkinfo, MainFile, OpenFile, main_file}
use cloud_file_system.Dedup.Chunks.{World}
use cloud_file_system.Dedup.Counting.{Consistent, PartsKnown, keys_of}
use cloud_file_system.Dedup.Contents.{Describes, Describes-congr}
use cloud_file_system.Dedup.Files.{Controller, rechunk_file, write_file}
use cloud_file_system.Dedup.Written.{NoCollision}
use cloud_file_system.Dedup.Loaded.{stop_of, prepare_write_data-Loaded}
use cloud_file_system.Dedup.Overwrite.{length-write_at}
use cloud_file_system.Dedup.Write.{
  pwritten, write_large, rechunk_large, rechunk_throws, main_file-pwritten, set_main_buffers,
}
use cloud_file_system.Dedup.Change.{Consistent-store, overwrite_lem}
use cloud_file_system.Dedup.Delivery.{Opened, Holds}

-- The size that `write_file` sets.
size_lem :
    (offset : ℕ) (a m b buf bs : Bytes)
    → 0 < length buf
    → bs ≡ a ++ (m ++ b)
    → length a ≤ offset
    → (b ≡ []) ⊎ (offset + length buf ≤ length a + length m)
    → length bs + (offset + length buf - length a - length m) ≡ length (write_at offset buf bs)
size_lem offset a m b buf bs some_bytes whole low reaches =
    let parts : length bs ≡ length a + (length m + length b) =
      omega (arith, ap length whole, length-append a (m ++ b), length-append m b) in
    let len = length-write_at offset buf bs some_bytes in
    elim reaches [
      | inl empty ↦ omega (arith, len, parts, ap length empty, low)
      | inr to ↦ omega (arith, len, parts, to, low)
    ]

module _ (store : ChunkStore) (rabin : Rabin) (md5 : Bytes → Bytes) (threshold : ℕ)
    (Known : Bytes → Type 0) where
  -- After a write the file is open, and its new chunk list stands for the new bytes.
  abbrev pub FileWritten :
      ℕ → Bytes → ℕ → Str → List Str → Bytes → Controller store rabin md5 threshold → Type 0
  FileWritten fd buf offset path live bs c =
      ((write_file store rabin md5 threshold fd buf offset c ≡ runtime_error) × Fails rabin)
      ⊎ ((f' : OpenFile) × (b' : Buffer) × (c' : Controller store rabin md5 threshold) × (write_file
              store rabin md5 threshold fd buf offset c
            ≡ ok (length buf, c'))
          × Opened store rabin md5 threshold fd f' path b' c'
          × (b'.size ≡ length bs)
          × Describes store c'.shared.store 0 f'.chunks bs
          × Consistent store md5 rabin Known (keys_of f'.chunks ++ live) c'.shared)

  -- A write of some bytes at any offset of an open large file, whose chunk list stands for its bytes
  -- and whose main file was not truncated since it was opened, either throws, and the segmentation
  -- fails on some bytes, or succeeds and writes all bytes: the file is then open, with a chunk list
  -- that stands for the bytes of the file with the new ones written over them and the size of these,
  -- and the counts agree with the new list and the chunks of the other files. The new file has less
  -- than 2^31 bytes, no two known byte strings have the same key, and its parts are known.
  pub write_file_lem :
      (fd offset : ℕ) (buf : Bytes) (f : OpenFile) (path : Str) (b : Buffer) (m : MainFile)
      (bs : Bytes) (live : List Str) (c : Controller store rabin md5 threshold)
      → Opened store rabin md5 threshold fd f path b c
      → threshold < b.size
      → b.size ≡ length bs
      → main_file f.main_path c.disk ≡ ok m
      → m.truncated ≡ false
      → Holds store rabin md5 threshold f bs c
      → Consistent store md5 rabin Known (keys_of f.chunks ++ live) c.shared
      → NoCollision store md5 rabin Known
      → PartsKnown store md5 rabin Known (write_at offset buf bs)
      → length (write_at offset buf bs) < 2 ^ 31
      → 0 < length buf
      → FileWritten fd buf offset path live (write_at offset buf bs) c
  write_file_lem fd offset buf f path b m bs live c o large sizes main current (v, d, some_chunk)
        consistent distinct known small some_bytes =
      let (
        a, content, b0, s, start, end, eq, whole, low, ordered, at_a, len_m, reaches, empty, v',
        same,
      ) =
        prepare_write_data-Loaded store offset (length buf) f c.shared.store bs some_bytes v d
          some_chunk (omega (arith, length-write_at offset buf bs some_bytes, small)) in
      let f1 : OpenFile = record f { start = length a; len = length content } in
      let w : World store = record c.shared { store = s } in
      let size = b.size + (offset + length buf - length a - length content) in
      let c3 = pwritten store rabin md5 threshold fd path buf offset f1 content s size c in
      let (main', there) =
        main_file-pwritten store rabin md5 threshold fd path f.main_path buf offset f1 b content s
          size c o.buffer in
      let new = write_at (offset - length a) buf content in
      let len : max (length content) (offset + length buf - length a) ≡ length new =
        omega (arith, length-write_at (offset - length a) buf content some_bytes, low) in
      let go =
        write_large store rabin md5 threshold fd offset buf f f1 path b m content s start end c o
          large main current eq low size refl
        ∙ ap
            (λ n. rechunk_file store rabin md5 threshold fd f1 (length a) n start end c3 >>= λ c4.
              ok (length buf, c4))
            len in
      let b3 : Buffer = record { content = new; size = size } in
      elim (overwrite_lem store md5 rabin Known f.chunks start (stop_of f.chunks end) offset a
        content b0 buf bs c.chunk_splitter live w
        (Consistent-store store md5 rabin Known (keys_of f.chunks ++ live) c.shared s consistent v'
          same)
        (Describes-congr store c.shared.store s 0 f.chunks bs same d) distinct known small
        some_bytes whole low ordered at_a len_m reaches empty) [
          | inl (failed, fails) ↦ inl (
            go
                ∙ rw
                    (
                      rechunk_throws store rabin md5 threshold fd f1 path b3 (length a) (length new)
                          start end c3 o.op_named there failed,
                      ◌>>=◌,
                    )
                    refl,
            fails,
          )
          | inr (chunks', sp', w', done, d', c') ↦ inr (
            record f1 { chunks = chunks' },
            b3,
            record c3 {
              disk = set_main f.main_path (record m { chunkinfo = set_chunkinfo chunks' }) c3.disk;
              open_files = insert ℕ_discrete fd (record f1 { chunks = chunks' }) c3.open_files;
              chunk_splitter = sp';
              shared = w';
            },
            go
                ∙ rw
                    (
                      rechunk_large store rabin md5 threshold fd f1 path b3 m (length a)
                          (length new) start end c3 chunks' sp' w' o.op_named there (main' ∙ main)
                          done,
                      ◌>>=◌,
                    )
                    refl,
            record {
              entry = lookup-insert_self ℕ_discrete fd (record f1 { chunks = chunks' }) _;
              named = o.named;
              op_named = o.op_named;
              buffer =
                  ap (λ x. lookup str_dec path x) (set_main_buffers store rabin md5 threshold _ _ _)
                  ∙ there;
            },
            ap (λ n. n + (offset + length buf - length a - length content)) sizes
                ∙ size_lem offset a content b0 buf bs some_bytes whole low
                    (elim reaches [ inl none_behind ↦ inl (empty none_behind) | inr to ↦ inr to ]),
            d',
            c',
          )
        ]
