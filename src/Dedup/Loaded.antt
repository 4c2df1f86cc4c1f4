-- ===== src/Dedup/Loaded.antt =====
-- `prepare_write_data`: what the buffer file holds of the file before a write.
use cloud_file_system.Base.{
  ℕ, zero, suc, ◌+◌, ◌-◌, ◌≤◌, ◌^◌, ◌<◌, ◌≡◌, refl, sym, ap, ◌∙◌, ◌⊎◌, inl, inr, true, false, List,
  [], ◌∷◌, ◌++◌, Option, none, some, length, take, drop, get_elem?, arith, leb, drop-drop,
  length-append, leb→le, Bool-cases,
}
use mathlib.Core.List.{append-nil}
use cloud_file_system.Base.Outcome.{Outcome, ok, ◌>>=◌}
use cloud_file_system.Bytes.{Bytes, Str, write_at}
use cloud_file_system.Bytes.RoundTrip.{write_at_new}
use cloud_file_system.ChunkStore.{ChunkStore}
use cloud_file_system.Snapshot.Format.{Chunk}
use cloud_file_system.FileController.{OpenFile, get_chunk_idx}
use cloud_file_system.FileController.ChunkInfo.{total_len, get_chunk_idx_lem}
use cloud_file_system.Dedup.Prepare.{range, stop_idx, back, load_range, prepare_write_data}
use cloud_file_system.Dedup.Contents.{Describes-total, Describes, load_chunks_lem}
use cloud_file_system.Dedup.Ranges.{drop_all, Covers, stop_idx-Covers}
use cloud_file_system.Dedup.Read.{last_of, load_range_eq}
use cloud_file_system.Dedup.Splice.{Describes-range}
use cloud_file_system.Dedup.Bounds.{range_last, at_some, at_bound, total_take_mono, stop_idx_order}

-- The index behind the last chunk of the range: `release_end_index + 1`.
abbrev pub stop_of : List Chunk → Option ℕ → ℕ
stop_of cs none = length cs
stop_of cs (some i) = suc i

module _ (store : ChunkStore) where
  -- The buffer file has the bytes of a range of chunks, which stand between others in the file; the
  -- range has the start of the write, and its end or the last chunk of all.
  abbrev pub Loaded :
      Outcome ((OpenFile × Bytes × store.State) × (ℕ × Option ℕ))
      → ℕ
      → ℕ
      → Bytes
      → OpenFile
      → store.State
      → Type 0
  Loaded m offset size bs f s =
      (a : Bytes) × (content : Bytes) × (b : Bytes) × (s' : store.State) × (start : ℕ)
      × (end : Option ℕ) × (m
          ≡ ok ((record f { start = length a; len = length content }, content, s'), (start, end)))
      × (bs ≡ a ++ (content ++ b))
      × (length a ≤ offset)
      × (start ≤ stop_of f.chunks end)
      × (length a ≡ total_len (take start f.chunks))
      × (total_len (range start (stop_of f.chunks end) f.chunks) ≡ length content)
      × ((drop (stop_of f.chunks end) f.chunks ≡ []) ⊎ (offset + size ≤ length a + length content))
      × (drop (stop_of f.chunks end) f.chunks ≡ [] → b ≡ [])
      × store.Valid s'
      × ((j : Str) → store.contents j s' ≡ store.contents j s)

  Describes-nothing :
      (s : store.State) (from : ℕ) (ds : List Chunk) (b : Bytes)
      → ds ≡ []
      → Describes store s from ds b
      → b ≡ []
  Describes-nothing s from ds b none_behind d = rw none_behind at d

  Describes-start :
      (s : store.State) (from i : ℕ) (cs : List Chunk) (c : Chunk) (bs : Bytes)
      → get_elem? cs i ≡ some c
      → Describes store s from cs bs
      → c.start ≡ from + total_len (take i cs)
  Describes-start s from i [] c bs at_i d = cc
  Describes-start s from zero (e ∷ cs) c bs at_i
        (p, later, whole, first, len, small, stored, rest) =
      ground (arith, at_i, first)
  Describes-start s from (suc i) (e ∷ cs) c bs at_i
        (p, later, whole, first, len, small, stored, rest) =
      omega (arith, Describes-start s (from + e.len) i cs c later at_i rest)

  Covers-end :
      (first stop stop' offset size : ℕ) (cs : List Chunk) (a m : ℕ)
      → 0 < size
      → first ≤ stop
      → stop' ≡ stop
      → a ≡ total_len (take first cs)
      → total_len (range first stop cs) ≡ m
      → Covers first stop offset size cs
      → (drop stop' cs ≡ []) ⊎ (offset + size ≤ a + m)
  Covers-end first stop stop' offset size cs a m some_bytes ordered same at_a len_m
        (inl none_written) =
      ground (arith, some_bytes, none_written)
  Covers-end first stop stop' offset size cs a m some_bytes ordered same at_a len_m
        (inr (inl none_behind)) =
      let same' : stop' ≡ first + (stop - first) = omega (arith, ordered, same) in
      inl (ap (λ i. drop i cs) same' ∙ sym (drop-drop (stop - first) first cs) ∙ none_behind)
  Covers-end first stop stop' offset size cs a m some_bytes ordered same at_a len_m (inr (inr to)) =
      inr (omega (arith, to, at_a, len_m))

  load_inside :
      (first stop offset size : ℕ) (f : OpenFile) (s : store.State) (bs : Bytes) (c : Chunk)
      → 0 < size
      → store.Valid s
      → Describes store s 0 f.chunks bs
      → first ≤ stop
      → 0 < stop
      → get_elem? f.chunks first ≡ some c
      → total_len (take first f.chunks) ≤ offset
      → Covers first stop offset size f.chunks
      → length bs < 2 ^ 31
      → Loaded
          (load_range store first stop f s >>= λ r. ok (r, (first, some (stop - 1))))
          offset
          size
          bs
          f
          s
  load_inside first stop offset size f s bs c some_bytes v d ordered some_stop at_first from covers
        in_int =
      let cs = f.chunks in
      let (a, m, b, whole, front, len_m, middle, behind) =
        Describes-range store s 0 first stop cs bs ordered d in
      let (s', eq, v', same) =
        load_chunks_lem store (range first stop cs) (0 + length a) 0 m [] s v middle refl
          (omega (arith, ap length whole, length-append a (m ++ b), length-append m b, in_int)) in
      let len_a = Describes-total store s 0 (take first cs) a front in
      let at_a : c.start ≡ length a =
        omega (arith, Describes-start s 0 first cs c bs at_first d, len_a) in
      let len : 0 + length m ≡ length m = omega arith in
      let back_stop : suc (stop - 1) ≡ stop = omega (arith, some_stop) in
      (
        a,
        m,
        b,
        s',
        first,
        some (stop - 1),
        rw (load_range_eq store first stop (0 + length m) f s s' m c eq at_first, ◌>>=◌, at_a, len)
            refl,
        whole,
        omega (arith, len_a, from),
        omega (arith, back_stop, ordered),
        sym len_a,
        ap (λ i. total_len (range first i cs)) back_stop ∙ len_m,
        Covers-end first stop (suc (stop - 1)) offset size cs (length a) (length m) some_bytes
            ordered back_stop (sym len_a) len_m covers,
        λ none_behind.
            Describes-nothing s _ (drop stop cs) b
              (ap (λ i. drop i cs) (sym back_stop) ∙ none_behind) behind,
        v',
        same,
      )

  -- The buffer file has the last chunk.
  abbrev with_last :
      OpenFile
      → Chunk
      → Bytes × store.State
      → Outcome ((OpenFile × Bytes × store.State) × (ℕ × Option ℕ))
  with_last f last r =
      ok ((record f { start = last.start; len = last.len }, r.0, r.1), (length f.chunks - 1, none))

  load_last_eq :
      (f : OpenFile) (s s' : store.State) (p : Bytes) (last : Chunk) (start : ℕ)
      → store.download_chunk last.key [] 0 last.len s ≡ ok (write_at 0 p [], s')
      → last.start ≡ start
      → last.len ≡ length p
      → (store.download_chunk last.key [] 0 last.len s >>= with_last f last)
        ≡ ok ((record f { start = start; len = length p }, p, s'), (length f.chunks - 1, none))
  load_last_eq f s s' p last start eq at_start len =
      rw (eq, ◌>>=◌, write_at_new p, at_start, len) refl

  load_last :
      (offset size : ℕ) (f : OpenFile) (s : store.State) (bs : Bytes) (last : Chunk)
      → store.Valid s
      → Describes store s 0 f.chunks bs
      → back f.chunks ≡ ok last
      → length bs ≤ offset
      → Loaded
          (store.download_chunk last.key [] 0 last.len s >>= λ r. ok (
            (record f { start = last.start; len = last.len }, r.0, r.1),
            (length f.chunks - 1, none),
          ))
          offset
          size
          bs
          f
          s
  load_last offset size f s bs last v d at_back past =
      let cs = f.chunks in
      let (some_chunk, at_end) = range_last cs last at_back in
      let (a, m, b, whole, front, len_m, middle, behind) =
        Describes-range store s 0 (length cs - 1) (length cs) cs bs (omega arith) d in
      let (p, later, parts, first, len, small, stored, empty) = rw at_end at middle in
      let len_a = Describes-total store s 0 (take (length cs - 1) cs) a front in
      let same_m : m ≡ p = parts ∙ ap (λ x. p ++ x) empty ∙ append-nil p in
      let (s', eq, v', same) =
        store.download_chunk_stored last.key [] p 0 last.len s v stored (sym len) small in
      let at_a : last.start ≡ length a = omega (arith, first) in
      let whole' : bs ≡ a ++ (p ++ b) = rw (sym same_m) whole in
      (
        a,
        p,
        b,
        s',
        length cs - 1,
        none,
        load_last_eq f s s' p last (length a) eq at_a len,
        whole',
        omega (arith, ap length whole', length-append a (p ++ b), past),
        omega arith,
        sym len_a,
        len_m ∙ ap length same_m,
        inl (drop_all (length cs) cs (omega arith)),
        λ none_behind. Describes-nothing s _ (drop (length cs) cs) b none_behind behind,
        v',
        same,
      )

  prepare_inside :
      (offset size i : ℕ) (f : OpenFile) (s : store.State) (last : Chunk)
      → back f.chunks ≡ ok last
      → leb (last.start + last.len) offset ≡ false
      → get_chunk_idx f.chunks offset ≡ some i
      → prepare_write_data store offset size f s ≡ (
          let stop = stop_idx f.chunks (offset + size) in
          load_range store (i - 1) stop f s >>= λ r. ok (r, (i - 1, some (stop - 1))))
  unfolding prepare_write_data
  prepare_inside offset size i f s last eq inside found = rw (eq, ◌>>=◌, inside, found) refl

  prepare_behind :
      (offset size : ℕ) (f : OpenFile) (s : store.State) (last : Chunk)
      → back f.chunks ≡ ok last
      → leb (last.start + last.len) offset ≡ true
      → prepare_write_data store offset size f s
        ≡ (store.download_chunk last.key [] 0 last.len s >>= with_last f last)
  unfolding prepare_write_data
  prepare_behind offset size f s last eq past = rw (eq, ◌>>=◌, past) refl

  -- For a chunk list that stands for less than 2^31 bytes and is not empty, and a write of some bytes,
  -- `prepare_write_data` succeeds at every offset: the buffer file then has the bytes of the chunks
  -- that it names, which stand in the file where the buffer file starts, not behind the start of the
  -- write, and they reach up to the end of the write or of the file; the stored contents stay the
  -- same.
  pub prepare_write_data-Loaded :
      (offset size : ℕ) (f : OpenFile) (s : store.State) (bs : Bytes)
      → 0 < size
      → store.Valid s
      → Describes store s 0 f.chunks bs
      → 0 < length f.chunks
      → length bs < 2 ^ 31
      → Loaded (prepare_write_data store offset size f s) offset size bs f s
  prepare_write_data-Loaded offset size f s bs some_bytes v d some_chunk in_int =
      let (last, eq, at_end) = last_of store s f.chunks bs some_chunk d in
      elim (Bool-cases (leb (last.start + last.len) offset)) [
        | inl past ↦
            let behind : length bs ≤ offset =
              omega (arith, leb→le (last.start + last.len) offset past, at_end) in
            rw (prepare_behind offset size f s last eq past)
              (load_last offset size f s bs last v d eq behind)
        | inr inside ↦ elim (get_chunk_idx_lem f.chunks offset) [
          | inl (missing, high) ↦
              ground (arith, inside, high, at_end, Describes-total store s 0 f.chunks bs d)
          | inr (i, found, (c, at_i, low, high)) ↦
              let (below, some_stop) =
                stop_idx_order i offset size f.chunks some_bytes (c, at_i, low, high) in
              let (e, at_first) =
                at_some (i - 1) f.chunks (omega (arith, at_bound i f.chunks c at_i)) in
              let from : total_len (take (i - 1) f.chunks) ≤ offset =
                omega (arith, low, total_take_mono (i - 1) i f.chunks (omega arith)) in
              rw (prepare_inside offset size i f s last eq inside found) (
                load_inside (i - 1) (stop_idx f.chunks (offset + size)) offset size f s bs e
                  some_bytes v d (omega (arith, below)) some_stop at_first from
                  (stop_idx-Covers (i - 1) offset size f.chunks from) in_int)
        ]
      ]
