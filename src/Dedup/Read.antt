-- ===== src/Dedup/Read.antt =====
-- What `read_file` reads of a large file.
use cloud_file_system.Base.{
  length-append, ℕ, zero, suc, ◌+◌, ◌-◌, ◌≤◌, ◌^◌, ◌<◌, ◌≡◌, refl, sym, ap, ◌∙◌, inl, inr, List, [],
  ◌∷◌, ◌++◌, some, length, take, drop, get_elem?, arith, Bool-cases, leb, leb→le, true, false,
  take-append-drop,
}
use cloud_file_system.Base.Outcome.{Outcome, ok, ◌>>=◌}
use cloud_file_system.Bytes.{Bytes, Str, read_at}
use cloud_file_system.ChunkStore.{ChunkStore}
use cloud_file_system.Snapshot.Format.{Chunk}
use cloud_file_system.FileController.{OpenFile, get_chunk_idx}
use cloud_file_system.FileController.ChunkInfo.{total_len, get_chunk_idx_lem}
use cloud_file_system.Dedup.Prepare.{
  range, stop_idx, load_chunks, load_range, back, prepare_read_data,
}
use cloud_file_system.Dedup.Ranges.{Covers, stop_idx-Covers, drop_at}
use cloud_file_system.Dedup.Contents.{
  Describes, Describes-split, Describes-total, read_at_middle, load_chunks_lem, back_lem,
}

drop_nothing : (n : ℕ) (bs : Bytes) → length bs ≤ n → drop n bs ≡ []
drop_nothing zero [] h = refl
drop_nothing zero (b ∷ bs) h = ground (arith, h)
drop_nothing (suc n) [] h = refl
drop_nothing (suc n) (b ∷ bs) h = drop_nothing n bs (omega (arith, h))

nothing_read :
    (size offset start : ℕ) (bs : Bytes)
    → length bs ≤ offset
    → read_at size (offset - start) [] ≡ read_at size offset bs
nothing_read size offset start bs behind =
    ap (take size) (drop_nothing (offset - start) [] (omega arith))
    ∙ ap (take size) (sym (drop_nothing offset bs behind))

module _ (store : ChunkStore) where
  -- The buffer file and its offset give the bytes of a read, and nothing in the store has changed.
  abbrev pub Ready :
      Outcome (OpenFile × Bytes × store.State) → ℕ → ℕ → Bytes → OpenFile → store.State → Type 0
  Ready m offset size bs f s =
      (f' : OpenFile) × (content : Bytes) × (s' : store.State) × (m ≡ ok (f', content, s'))
      × (f'.start ≤ offset)
      × (read_at size (offset - f'.start) content ≡ read_at size offset bs)
      × (f'.chunks ≡ f.chunks)
      × (f'.op_fd ≡ f.op_fd)
      × store.Valid s'
      × ((j : Str) → store.contents j s' ≡ store.contents j s)

  covered :
      (first stop offset size : ℕ) (cs : List Chunk) (s : store.State) (start : ℕ) (a m b : Bytes)
      → Covers first stop offset size cs
      → length a ≡ total_len (take first cs)
      → length m ≡ total_len (range first stop cs)
      → Describes store s start (drop (stop - first) (drop first cs)) b
      → length a ≤ offset
      → read_at size (offset - length a) m ≡ read_at size offset (a ++ (m ++ b))
  covered first stop offset size cs s start a m b (inl none_read) len_a len_m d from =
      rw none_read refl
  covered first stop offset size cs s start a m b (inr (inl all)) len_a len_m d from =
      let empty : b ≡ [] = rw all at d in read_at_middle size offset a m b from (inl empty)
  covered first stop offset size cs s start a m b (inr (inr to)) len_a len_m d from =
      read_at_middle size offset a m b from
        (inr (omega (arith, to, len_a, len_m), omega (arith, to, len_a, len_m)))

  first_start :
      (s : store.State) (start first : ℕ) (cs : List Chunk) (c : Chunk) (bs : Bytes)
      → get_elem? cs first ≡ some c
      → Describes store s start (drop first cs) bs
      → c.start ≡ start
  first_start s start first cs c bs at_first d =
      let d' : Describes store s start (c ∷ drop (suc first) cs) bs =
        rw (drop_at first cs c at_first) at d in
      d'.3

  pub load_range_eq :
      (first stop len : ℕ) (f : OpenFile) (s s' : store.State) (content : Bytes) (c : Chunk)
      → load_chunks store (range first stop f.chunks) 0 [] s ≡ ok ((len, content), s')
      → get_elem? f.chunks first ≡ some c
      → load_range store first stop f s ≡ ok (record f { start = c.start; len = len }, content, s')
  load_range_eq first stop len f s s' content c eq at_first = rw (eq, ◌>>=◌, at_first) refl

  load_range-Ready :
      (first stop offset size : ℕ) (f : OpenFile) (s : store.State) (bs : Bytes) (c : Chunk)
      → store.Valid s
      → Describes store s 0 f.chunks bs
      → get_elem? f.chunks first ≡ some c
      → total_len (take first f.chunks) ≤ offset
      → Covers first stop offset size f.chunks
      → length bs < 2 ^ 31
      → Ready (load_range store first stop f s) offset size bs f s
  load_range-Ready first stop offset size f s bs c v d at_first from covers in_int =
      let cs = f.chunks in
      let behind = drop (stop - first) (drop first cs) in
      let split : cs ≡ take first cs ++ drop first cs = sym (take-append-drop first cs) in
      let split' : drop first cs ≡ range first stop cs ++ behind =
        sym (take-append-drop (stop - first) (drop first cs)) in
      let (a, rest, whole, d1, d2) =
        Describes-split store s 0 (take first cs) (drop first cs) bs (rw split at d) in
      let (m, b, parts, d3, d4) =
        Describes-split store s (0 + length a) (range first stop cs) behind rest
          (rw split' at d2) in
      let (s', eq, v', same) =
        load_chunks_lem store (range first stop cs) (0 + length a) 0 m [] s v d3 refl (
          omega (
            arith,
            ap length whole,
            ap length parts,
            length-append a rest,
            length-append m b,
            in_int,
          )) in
      let len_a = Describes-total store s 0 (take first cs) a d1 in
      let len_m = Describes-total store s (0 + length a) (range first stop cs) m d3 in
      let at_a = first_start s (0 + length a) first cs c rest at_first d2 in
      let same_start : c.start ≡ length a = omega (arith, at_a) in
      (
        record f { start = c.start; len = 0 + length m },
        m,
        s',
        load_range_eq first stop (0 + length m) f s s' m c eq at_first,
        omega (arith, same_start, len_a, from),
        rw same_start (
            covered first stop offset size cs s _ a m b covers (sym len_a) (sym len_m) d4
              (omega (arith, len_a, from))
            ∙ ap (read_at size offset) (ap (λ x. a ++ x) (sym parts) ∙ sym whole)),
        refl,
        refl,
        v',
        same,
      )

  prepare_some :
      (offset size i : ℕ) (f : OpenFile) (s : store.State) (last : Chunk)
      → back f.chunks ≡ ok last
      → leb (last.start + last.len) offset ≡ false
      → get_chunk_idx f.chunks offset ≡ some i
      → prepare_read_data store offset size f s
        ≡ load_range store i (stop_idx f.chunks (offset + size)) f s
  unfolding prepare_read_data
  prepare_some offset size i f s last eq inside found = rw (eq, ◌>>=◌, inside, found) refl

  prepare_past :
      (offset size : ℕ) (f : OpenFile) (s : store.State) (last : Chunk)
      → back f.chunks ≡ ok last
      → leb (last.start + last.len) offset ≡ true
      → prepare_read_data store offset size f s
        ≡ ok (record f { start = last.start + last.len; len = 0 }, [], s)
  unfolding prepare_read_data
  prepare_past offset size f s last eq past = rw (eq, ◌>>=◌, past) refl

  pub last_of :
      (s : store.State) (cs : List Chunk) (bs : Bytes)
      → 0 < length cs
      → Describes store s 0 cs bs
      → (last : Chunk) × (back cs ≡ ok last) × (last.start + last.len ≡ length bs)
  last_of s [] bs some_chunk d = ground (arith, some_chunk)
  last_of s (c ∷ cs) bs some_chunk d =
      let (last, eq, at_end) = back_lem store s 0 c cs bs d in (last, eq, omega (arith, at_end))

  -- For a chunk list that stands for some bytes and is not empty, of less than 2^31 bytes, `prepare_read_data` succeeds at every
  -- offset and size: the buffer file and its start then give exactly the bytes of the read, fewer at
  -- the end of the file and none behind it; the chunk list and the stored contents stay the same.
  pub prepare_read_data-Ready :
      (offset size : ℕ) (f : OpenFile) (s : store.State) (bs : Bytes)
      → store.Valid s
      → Describes store s 0 f.chunks bs
      → 0 < length f.chunks
      → length bs < 2 ^ 31
      → Ready (prepare_read_data store offset size f s) offset size bs f s
  prepare_read_data-Ready offset size f s bs v d some_chunk in_int =
      let (last, eq, at_end) = last_of s f.chunks bs some_chunk d in
      elim (Bool-cases (leb (last.start + last.len) offset)) [
        | inl past ↦
            let behind : length bs ≤ offset =
              omega (arith, leb→le (last.start + last.len) offset past, at_end) in
            (
              record f { start = last.start + last.len; len = 0 },
              [],
              s,
              prepare_past offset size f s last eq past,
              leb→le (last.start + last.len) offset past,
              nothing_read size offset (last.start + last.len) bs behind,
              refl,
              refl,
              v,
              λ j. refl,
            )
        | inr inside ↦ elim (get_chunk_idx_lem f.chunks offset) [
          | inl (missing, high) ↦
              ground (arith, inside, high, at_end, Describes-total store s 0 f.chunks bs d)
          | inr (i, found, (c, at_i, low, high)) ↦
              rw (prepare_some offset size i f s last eq inside found) (
                load_range-Ready i (stop_idx f.chunks (offset + size)) offset size f s bs c v d at_i
                  (omega (arith, low)) (stop_idx-Covers i offset size f.chunks (omega (arith, low)))
                  in_int)
        ]
      ]
