-- ===== src/Dedup/Files.antt =====
-- The calls on open files: `open_file`, `read_file`, `write_file` and `close_file`. A descriptor is
-- that of a buffer file. `pwrite` writes all of its bytes.
use cloud_file_system.Base.{
  ℕ, suc, ◌+◌, ◌-◌, max, Bool, false, List, [], ◌++◌, Option, none, some, length, take, drop, leb,
  ltb, if◌then◌else◌, ℕ_discrete,
}
use cloud_file_system.Base.Dict.{Dict, lookup, insert, erase}
use cloud_file_system.Base.Outcome.{Outcome, ok, failure, undefined, ◌>>=◌}
use cloud_file_system.Bytes.{Bytes, Str, str_dec, write_at, read_at}
use cloud_file_system.ChunkStore.{ChunkStore}
use cloud_file_system.ChunkSplitter.{Rabin, Splitter, init}
use cloud_file_system.Snapshot.Format.{Chunk}
use cloud_file_system.FileController.{
  Disk, MainFile, OpenFile, get_chunkinfo, set_chunkinfo, main_file, set_main, buffer_file,
}
use cloud_file_system.Dedup.Chunks.{Shared, World, drop_chunks, rechunk}
use cloud_file_system.Dedup.Prepare.{range, prepare_read_data, prepare_write_data}

-- `R` is the state of the Rabin fingerprints, `S` that of the buffer file controller.
pub record DedupController (R S : Type 0) : Type 0 where
  pub disk : Disk
  pub descriptors : Dict ℕ Str
  pub open_files : Dict ℕ OpenFile
  pub chunk_splitter : Splitter R
  pub shared : Shared S

-- New content in a buffer file.
unfoldable pub set_content : Str → Bytes → Disk → Disk
set_content path content d = elim (lookup str_dec path d.buffers) [
  | none ↦ d
  | some b ↦ record d { buffers = insert str_dec path (record b { content = content }) d.buffers }
]

-- `set_size`.
unfoldable pub set_size : Str → ℕ → Disk → Disk
set_size path size d = elim (lookup str_dec path d.buffers) [
  | none ↦ d
  | some b ↦ record d { buffers = insert str_dec path (record b { size = size }) d.buffers }
]

module _ {R S : Type 0} where
  -- `open_files_[fd]` and the buffer file of a descriptor. A file that is not open has no valid entry.
  abbrev pub open_entry : ℕ → DedupController R S → Outcome OpenFile
  open_entry fd c = elim (lookup ℕ_discrete fd c.open_files) [ none ↦ undefined | some f ↦ ok f ]

  abbrev pub path_of : ℕ → DedupController R S → Outcome Str
  path_of fd c = elim (lookup ℕ_discrete fd c.descriptors) [ none ↦ failure | some p ↦ ok p ]

  -- `fd` and `op_fd` are the numbers that `open` gives. With `O_TRUNC` the buffer file is emptied.
  unfoldable pub open_file :
      Str → Str → Bool → ℕ → ℕ → DedupController R S → Outcome (DedupController R S)
  open_file ssd_path path truncates fd op_fd c = do
    let main_path = ssd_path ++ path
    m ← main_file main_path c.disk
    b ← buffer_file m.buffer_path c.disk
    chunks ← get_chunkinfo m.chunkinfo
    let f : OpenFile = record {
      main_path = main_path;
      start = 0;
      len = 0;
      is_dirty = false;
      chunks = chunks;
      op_fd = op_fd;
    }
    ok (record c {
      disk = if truncates then set_content m.buffer_path [] c.disk else c.disk;
      descriptors =
          insert ℕ_discrete op_fd m.buffer_path (insert ℕ_discrete fd m.buffer_path c.descriptors);
      open_files = insert ℕ_discrete fd f c.open_files;
    })

  -- `close_file`, which leaves the entry of the open file.
  unfoldable pub close_file : ℕ → DedupController R S → Outcome (DedupController R S)
  close_file fd c = do
    f ← open_entry fd c
    let left = erase ℕ_discrete f.op_fd c.descriptors
    path ← path_of fd (record c { descriptors = left })
    ok (record c { descriptors = erase ℕ_discrete fd left })

module _ (store : ChunkStore) (rabin : Rabin) (md5 : Bytes → Bytes) where
  -- The part of `write_file` from `chunk_splitter_.init` to the new chunk list: `stop_chunk` is the
  -- index behind `release_end_index`.
  unfoldable pub replace_chunks :
      List Chunk
      → ℕ
      → ℕ
      → Bytes
      → ℕ
      → ℕ
      → Splitter rabin.State × World store
      → Outcome (List Chunk × (Splitter rabin.State × World store))
  replace_chunks chunks start_idx stop_chunk content base len (sp, w) = do
    (new_chunks, (sp1, w1)) ← rechunk store rabin md5 content base len (init rabin md5 base sp, w)
    w2 ← drop_chunks store (range start_idx stop_chunk chunks) w1
    ok (take start_idx chunks ++ (new_chunks ++ drop stop_chunk chunks), (sp1, w2))

module _ (store : ChunkStore) (rabin : Rabin) (md5 : Bytes → Bytes) (threshold : ℕ) where
  abbrev pub Controller : Type 0
  Controller = DedupController rabin.State store.State

  -- An open file, the content of its buffer file and the state of the store, after data is prepared.
  abbrev pub put_prepared : ℕ → Str → OpenFile × Bytes × store.State → Controller → Controller
  put_prepared fd op_path r c = record c {
    disk = set_content op_path r.1 c.disk;
    open_files = insert ℕ_discrete fd r.0 c.open_files;
    shared = record c.shared { store = r.2 };
  }

  -- `pread` at an offset from the start of the buffer file, which must not be negative.
  abbrev pub pread : Str → ℕ → ℕ → ℕ → Disk → Outcome Bytes
  pread path size offset start d = do
    b ← buffer_file path d
    if ltb offset start then failure else ok (read_at size (offset - start) b.content)

  unfoldable pub read_file : ℕ → ℕ → ℕ → Controller → Outcome (Bytes × Controller)
  read_file fd size offset c = do
    f ← open_entry fd c
    path ← path_of fd c
    b ← buffer_file path c.disk
    let large : Outcome (Bytes × Controller) = path_of f.op_fd c >>= λ op_path.
        prepare_read_data store offset size f c.shared.store >>= λ r.
        (let c' = put_prepared fd op_path r c in
          pread path size offset r.0.start c'.disk >>= λ bs. ok (bs, c'))
    let small : Outcome (Bytes × Controller) = pread path size offset 0 c.disk >>= λ bs. ok (bs, c)
    if ltb threshold b.size then large else small

  -- The chunk list is read again if the file was truncated since.
  unfoldable pub reload : ℕ → OpenFile → Controller → Outcome (OpenFile × Controller)
  reload fd f c = do
    m ← main_file f.main_path c.disk
    let again : Outcome (OpenFile × Controller) = get_chunkinfo m.chunkinfo >>= λ cs.
        (let f' : OpenFile = record f { chunks = cs } in
          let m' : MainFile = record m { truncated = false } in
          ok (
            f',
            record c {
              disk = set_main f.main_path m' c.disk;
              open_files = insert ℕ_discrete fd f' c.open_files;
            },
          ))
    if m.truncated then again else ok (f, c)

  -- The buffer file before the write: what it holds of the file, and the chunks that it stands for.
  unfoldable pub prepare_write :
      ℕ
      → ℕ
      → ℕ
      → ℕ
      → OpenFile
      → Controller
      → Outcome ((OpenFile × Controller) × ((ℕ × ℕ) × (ℕ × Option ℕ)))
  prepare_write fd file_size offset size f c =
      let large : Outcome ((OpenFile × Controller) × ((ℕ × ℕ) × (ℕ × Option ℕ))) =
        path_of f.op_fd c >>= λ op_path.
        prepare_write_data store offset size f c.shared.store >>= λ r.
        ok ((r.0.0, put_prepared fd op_path r.0 c), ((r.0.0.start, r.0.0.len), r.1)) in
      if ltb threshold file_size then large else ok ((f, c), ((0, file_size), (0, none)))

  -- The part of `write_file` behind `pwrite`, for a file that is large now.
  unfoldable pub rechunk_file :
      ℕ → OpenFile → ℕ → ℕ → ℕ → Option ℕ → Controller → Outcome Controller
  rechunk_file fd f base len start_idx end_idx c = do
    op_path ← path_of f.op_fd c
    b ← buffer_file op_path c.disk
    let stop_chunk : ℕ = elim end_idx [ none ↦ length f.chunks | some i ↦ suc i ]
    (chunks, (sp, w)) ←
        replace_chunks store rabin md5 f.chunks start_idx stop_chunk b.content base len
          (c.chunk_splitter, c.shared)
    m ← main_file f.main_path c.disk
    ok (record c {
      disk = set_main f.main_path (record m { chunkinfo = set_chunkinfo chunks }) c.disk;
      open_files = insert ℕ_discrete fd (record f { chunks = chunks }) c.open_files;
      chunk_splitter = sp;
      shared = w;
    })

  -- How many bytes are written, and the new state.
  unfoldable pub write_file : ℕ → Bytes → ℕ → Controller → Outcome (ℕ × Controller)
  write_file fd buf offset c = do
    f0 ← open_entry fd c
    path ← path_of fd c
    b0 ← buffer_file path c.disk
    (f1, c1) ← reload fd f0 c
    ((f, c2), ((base, len), (start_idx, end_idx))) ←
        prepare_write fd b0.size offset (length buf) f1 c1
    b ← buffer_file path c2.disk
    let content = write_at (offset - base) buf b.content
    let end = offset + length buf - base
    let file_size = b0.size + (end - len)
    let c3 : Controller = record c2 {
      disk = set_size path file_size (set_content path content c2.disk);
    }
    let start = if leb b0.size threshold then 0 else start_idx
    let stop = if leb b0.size threshold then none else end_idx
    let large : Outcome (ℕ × Controller) =
        rechunk_file fd f base (max len end) start stop c3 >>= λ c4. ok (length buf, c4)
    let written = if leb file_size threshold then ok (length buf, c3) else large
    if ltb offset base then failure else written
