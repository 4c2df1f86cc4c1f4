-- ===== src/Dedup/Prepare.antt =====
-- `prepare_read_data` and `prepare_write_data`: the chunks of a range of a large file are put into its
-- buffer file.
use cloud_file_system.Base.{
  ℕ, suc, ◌+◌, ◌-◌, ◌^◌, ltb, List, [], ◌∷◌, Option, none, some, length, take, drop, get_elem?, leb,
  ◌==◌, if◌then◌else◌,
}
use cloud_file_system.Base.Outcome.{Outcome, ok, runtime_error, undefined, ◌>>=◌}
use cloud_file_system.Bytes.{Bytes}
use cloud_file_system.ChunkStore.{ChunkStore}
use cloud_file_system.Snapshot.Format.{Chunk}
use cloud_file_system.FileController.{OpenFile, get_chunk_idx}

-- `chunks.back()`, which an empty list does not have.
unfoldable pub back : List Chunk → Outcome Chunk
back [] = undefined
back (c ∷ []) = ok c
back (c ∷ d ∷ cs) = back (d ∷ cs)

-- `chunks[i]`.
abbrev pub chunk_at : List Chunk → ℕ → Outcome Chunk
chunk_at cs i = elim (get_elem? cs i) [ none ↦ undefined | some c ↦ ok c ]

-- The chunks that `for (int i = first; i < stop; i++)` meets.
abbrev pub range : ℕ → ℕ → List Chunk → List Chunk
range first stop cs = take (stop - first) (drop first cs)

-- `assert(idx != -1)`: a program that fails there ends.
abbrev pub asserted : Option ℕ → Outcome ℕ
asserted none = runtime_error
asserted (some i) = ok i

-- The index behind the last chunk of a range that ends in front of `stop`: the index of the last chunk
-- of all, if `get_chunk_idx` finds none. Its argument `stop - 1` is -1 for a `stop` of 0.
abbrev pub stop_idx : List Chunk → ℕ → ℕ
stop_idx cs stop =
    if stop == 0
    then length cs
    else (elim (get_chunk_idx cs (stop - 1)) [ none ↦ length cs | some i ↦ suc i ])

-- A sum of lengths that is stored in an `int`, which holds less than 2^31. What becomes of a larger one
-- is not modelled: the model ends there.
abbrev pub as_int : ℕ → Outcome ℕ
as_int n = if ltb n (2 ^ 31) then ok n else undefined

module _ (store : ChunkStore) where
  -- The loop that downloads chunks, and the length of the buffer file.
  unfoldable pub load_chunks :
      List Chunk → ℕ → Bytes → store.State → Outcome ((ℕ × Bytes) × store.State)
  load_chunks [] buffer_len content s = ok ((buffer_len, content), s)
  load_chunks (c ∷ cs) buffer_len content s = do
    (content', s') ← store.download_chunk c.key content buffer_len c.len s
    len ← as_int (buffer_len + c.len)
    load_chunks cs len content' s'

  -- The chunks from `first` on, in a buffer file that is empty before.
  abbrev pub load_range : ℕ → ℕ → OpenFile → store.State → Outcome (OpenFile × Bytes × store.State)
  load_range first stop f s = do
    ((len, content), s') ← load_chunks (range first stop f.chunks) 0 [] s
    c ← chunk_at f.chunks first
    ok (record f { start = c.start; len = len }, content, s')

  unfoldable pub prepare_read_data :
      ℕ → ℕ → OpenFile → store.State → Outcome (OpenFile × Bytes × store.State)
  prepare_read_data offset r_size f s = do
    last ← back f.chunks
    let past : OpenFile = record f { start = last.start + last.len; len = 0 }
    let loaded : Outcome (OpenFile × Bytes × store.State) =
        asserted (get_chunk_idx f.chunks offset) >>= λ first.
        load_range first (stop_idx f.chunks (offset + r_size)) f s
    if leb (last.start + last.len) offset then ok (past, [], s) else loaded

  -- Behind the end of the file the last chunk is loaded. Else the chunk in front of the range is loaded
  -- too. The two numbers are `rechunk_start_idx` and, if it is not -1, `buffer_end_idx`.
  unfoldable pub prepare_write_data :
      ℕ → ℕ → OpenFile → store.State → Outcome ((OpenFile × Bytes × store.State) × (ℕ × Option ℕ))
  prepare_write_data offset w_size f s = do
    last ← back f.chunks
    let last_idx = length f.chunks - 1
    let past : Outcome ((OpenFile × Bytes × store.State) × (ℕ × Option ℕ)) =
        store.download_chunk last.key [] 0 last.len s >>= λ r.
        ok ((record f { start = last.start; len = last.len }, r.0, r.1), (last_idx, none))
    let inside : Outcome ((OpenFile × Bytes × store.State) × (ℕ × Option ℕ)) =
        asserted (get_chunk_idx f.chunks offset) >>= λ i.
        (let stop = stop_idx f.chunks (offset + w_size) in
          load_range (i - 1) stop f s >>= λ r. ok (r, (i - 1, some (stop - 1))))
    if leb (last.start + last.len) offset then past else inside
