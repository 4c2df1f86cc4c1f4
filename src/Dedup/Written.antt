-- ===== src/Dedup/Written.antt =====
-- `replace_chunks` and the bytes of the file.
use cloud_file_system.Base.{
  ℕ, ◌+◌, ◌^◌, ◌≤◌, ◌<◌, ◌≡◌, sym, ap, ◌∙◌, ◌⊎◌, inl, inr, List, [], ◌++◌, length, take, drop,
  arith, some,
}
use cloud_file_system.Base.Outcome.{ok, runtime_error}
use cloud_file_system.Bytes.{Bytes, Str, write_at}
use cloud_file_system.ChunkStore.{ChunkStore}
use cloud_file_system.ChunkSplitter.{Rabin, Splitter, key_of}
use cloud_file_system.ChunkSplitter.Pieces.{Fails, chunks_of, join}
use cloud_file_system.ChunkTable.{entry}
use cloud_file_system.Snapshot.Format.{Chunk}
use cloud_file_system.FileController.ChunkInfo.{total_len}
use cloud_file_system.Dedup.Chunks.{World}
use cloud_file_system.Dedup.Prepare.{range}
use cloud_file_system.Dedup.Files.{replace_chunks}
use cloud_file_system.Dedup.Counting.{Consistent, PartsKnown, count, count-append, keys_of}
use cloud_file_system.Dedup.Release.{alive_some}
use cloud_file_system.Dedup.Contents.{Describes, Describes-total}
use cloud_file_system.Dedup.Replace.{spliced, Stays, count_keys, replace_chunks-Consistent}
use cloud_file_system.Dedup.Splice.{
  write_at_middle, Describes-append_at, Describes-kept, Describes-range, Describes-behind,
  fits-InPlace, pieces-Describes,
}

count_parts :
    (j : Str) (start stop : ℕ) (chunks new_chunks : List Chunk) (live : List Str)
    → count j (keys_of (spliced start stop chunks new_chunks) ++ live)
      ≡ count j (keys_of (take start chunks))
        + (count j (keys_of new_chunks) + count j (keys_of (drop stop chunks)))
        + count j live
count_parts j start stop chunks new_chunks live = omega (
  arith,
  count-append j (keys_of (spliced start stop chunks new_chunks)) live,
  count_keys j (take start chunks) (new_chunks ++ drop stop chunks),
  count_keys j new_chunks (drop stop chunks),
)

module _ (store : ChunkStore) (md5 : Bytes → Bytes) (rabin : Rabin) (Known : Bytes → Type 0) where
  -- Known byte strings with the same key are the same.
  abbrev pub NoCollision : Type 0
  NoCollision = (p q : Bytes) → Known p → Known q → key_of rabin md5 p ≡ key_of rabin md5 q → p ≡ q

  -- Where the counts agree with the chunks in use, a known byte string whose key is in use is what is
  -- stored under the key, if no known byte strings collide.
  pub contents_known :
      (live : List Str) (w : World store) (p : Bytes)
      → Consistent store md5 rabin Known live w
      → NoCollision
      → Known p
      → 0 < count (key_of rabin md5 p) live
      → store.contents (key_of rabin md5 p) w.store ≡ some p
  contents_known live w p c distinct known used =
      let k = key_of rabin md5 p in
      let alive = alive_some (entry k w.table) (count k live) used (c.counted k) in
      let (bs, stored, hash, known') = (c.kept k).1 alive in
      stored ∙ ap some (distinct bs p known' known hash)

  -- The new chunk list stands for the bytes before the range, the new ones and those behind.
  spliced-Describes :
      (start stop base : ℕ) (chunks : List Chunk) (pieces : List Bytes) (live : List Str)
      (w w' : World store) (a b : Bytes)
      → Consistent store md5 rabin Known
          (keys_of (spliced start stop chunks (chunks_of rabin md5 base pieces)) ++ live)
          w'
      → Stays store md5 rabin Known
          (keys_of (spliced start stop chunks (chunks_of rabin md5 base pieces)) ++ live)
          w
          w'
      → NoCollision
      → PartsKnown store md5 rabin Known (join pieces)
      → length (join pieces) < 2 ^ 31
      → base ≡ 0 + length a
      → Describes store w.store 0 (take start chunks) a
      → Describes store w.store (0 + length a + length (join pieces)) (drop stop chunks) b
      → Describes store w'.store 0
          (spliced start stop chunks (chunks_of rabin md5 base pieces))
          (a ++ (join pieces ++ b))
  spliced-Describes start stop base chunks pieces live w w' a b c stays distinct known small at_a
        front behind =
      let new_chunks = chunks_of rabin md5 base pieces in
      let middle : Describes store w'.store base new_chunks (join pieces) =
        pieces-Describes store md5 rabin w'.store base pieces small (λ x p y parts used.
          contents_known _ w' p c distinct (known x p y parts) (
            omega
              (arith, count_parts (key_of rabin md5 p) start stop chunks new_chunks live, used))) in
      let last : Describes store w'.store (0 + length a + length (join pieces)) (drop stop chunks)
          b =
        Describes-kept store w.store w'.store _ (drop stop chunks) b
          (λ j p used.
            stays j p (omega (arith, count_parts j start stop chunks new_chunks live, used)))
          behind in
      Describes-append_at store w'.store 0 base (take start chunks) (new_chunks ++ drop stop chunks)
        a (join pieces ++ b) at_a
        (Describes-kept store w.store w'.store 0 (take start chunks) a
          (λ j p used.
            stays j p (omega (arith, count_parts j start stop chunks new_chunks live, used)))
          front)
        (Describes-append_at store w'.store base _ new_chunks (drop stop chunks) (join pieces) b
          (ap (λ i. i + length (join pieces)) (sym at_a)) middle last)

  -- What `replace_chunks` makes of a file that has other bytes in place of a range of its chunks.
  abbrev pub Replaced :
      List Chunk
      → ℕ
      → ℕ
      → Bytes
      → ℕ
      → Splitter rabin.State
      → List Str
      → World store
      → Bytes
      → Type 0
  Replaced chunks start stop content base sp live w bs =
      ((replace_chunks store rabin md5 chunks start stop content base (length content) (sp, w)
          ≡ runtime_error)
        × Fails rabin)
      ⊎ ((chunks' : List Chunk) × (sp' : Splitter rabin.State) × (w' : World store)
          × (replace_chunks store rabin md5 chunks start stop content base (length content) (sp, w)
              ≡ ok (chunks', (sp', w')))
          × Describes store w'.store 0 chunks' bs
          × Consistent store md5 rabin Known (keys_of chunks' ++ live) w')

  -- Where a chunk list stands for the bytes of a file and the counts agree with it and the chunks of
  -- the other files, to replace a range of the chunks by those of a buffer file that starts where
  -- the range starts either throws, and the segmentation fails on some bytes, or gives a chunk list
  -- that stands for the bytes of the file with the buffer file written over them, and the counts
  -- agree with the new list. The buffer file has less than 2^31 bytes, as many as the range, or at
  -- least as many where no chunk is behind the range. No two known byte strings have the same key,
  -- and the parts of the buffer file are known.
  pub replace_chunks_lem :
      (chunks : List Chunk) (start stop : ℕ) (content : Bytes) (base : ℕ)
      (sp : Splitter rabin.State) (live : List Str) (w : World store) (bs : Bytes)
      → Consistent store md5 rabin Known (keys_of chunks ++ live) w
      → Describes store w.store 0 chunks bs
      → NoCollision
      → PartsKnown store md5 rabin Known content
      → length content < 2 ^ 31
      → start ≤ stop
      → base ≡ total_len (take start chunks)
      → (total_len (range start stop chunks) ≡ length content)
        ⊎ ((drop stop chunks ≡ []) × (total_len (range start stop chunks) ≤ length content))
      → Replaced chunks start stop content base sp live w (write_at base content bs)
  replace_chunks_lem chunks start stop content base sp live w bs c d distinct known small ordered
        at_range fits =
      let (a, m, b, whole, front, len_m, middle, behind) =
        Describes-range store w.store 0 start stop chunks bs ordered d in
      let len_a = Describes-total store w.store 0 (take start chunks) a front in
      let at_a : base ≡ 0 + length a = omega (arith, at_range, len_a) in
      let in_place =
        fits-InPlace store content m b w.store (0 + length a + length m) (range start stop chunks)
          (drop stop chunks) len_m behind fits in
      let at_front : base ≡ length a = omega (arith, at_a) in
      let written : write_at base content bs ≡ a ++ (content ++ b) =
        rw (at_front, whole) (write_at_middle content a m b in_place.0) in
      let last =
        Describes-behind store w.store (0 + length a) content m b (drop stop chunks) in_place.1
          behind in
      elim (replace_chunks-Consistent store md5 rabin Known chunks start stop content base sp live w
        c ordered small known) [
          | inl failed ↦ inl failed
          | inr (pieces, sp', w', (eq, parts, full, c', stays)) ↦
              let chunks' = spliced start stop chunks (chunks_of rabin md5 base pieces) in
              let described : Describes store w'.store 0 chunks' (a ++ (join pieces ++ b)) =
                spliced-Describes start stop base chunks pieces live w w' a b c' stays distinct
                  (rw (sym parts) at known) (rw (sym parts) at small) at_a front (rw parts last) in
              inr (chunks', sp', w', eq, rw (written, sym parts) described, c')
        ]
