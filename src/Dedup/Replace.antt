-- ===== src/Dedup/Replace.antt =====
-- A write to a large file replaces some of its chunks, and the unlinking of a file releases all.
use cloud_file_system.Base.{
  ℕ, ◌+◌, ◌-◌, ◌^◌, ◌≤◌, ◌<◌, ◌≡◌, refl, ap, ◌∙◌, ◌⊎◌, inl, inr, List, ◌++◌, length, take, drop,
  arith, take-append-drop, drop-drop, some,
}
use cloud_file_system.Base.Outcome.{ok, runtime_error, ◌>>=◌}
use cloud_file_system.Bytes.{Bytes, Str}
use cloud_file_system.ChunkStore.{ChunkStore}
use cloud_file_system.ChunkSplitter.{Rabin, Splitter}
use cloud_file_system.ChunkSplitter.Pieces.{Fails, chunks_of, join, Full}
use cloud_file_system.Snapshot.Format.{Chunk}
use cloud_file_system.Dedup.Chunks.{World}
use cloud_file_system.Dedup.Prepare.{range}
use cloud_file_system.Dedup.Files.{replace_chunks}
use cloud_file_system.Dedup.Counting.{
  PartsKnown, Consistent, Consistent-congr, count, count-append, keys_of,
}
use cloud_file_system.Dedup.Release.{drop_chunks-Consistent}
use cloud_file_system.Dedup.Rechunk.{rechunk-Consistent}
use cloud_file_system.Dedup.Rounds.{keys_of-append}

pub count_keys :
    (j : Str) (cs ds : List Chunk)
    → count j (keys_of (cs ++ ds)) ≡ count j (keys_of cs) + count j (keys_of ds)
count_keys j cs ds = rw (keys_of-append cs ds) (count-append j (keys_of cs) (keys_of ds))

-- A list cut before the chunks of a range and behind them.
count_range :
    (j : Str) (start stop : ℕ) (cs : List Chunk)
    → start ≤ stop
    → count j (keys_of cs)
      ≡ count j (keys_of (take start cs))
        + count j (keys_of (range start stop cs))
        + count j (keys_of (drop stop cs))
count_range j start stop cs ordered =
    let rest = drop start cs in
    let whole = ap (λ ds. count j (keys_of ds)) (take-append-drop start cs) in
    let middle = ap (λ ds. count j (keys_of ds)) (take-append-drop (stop - start) rest) in
    let behind : drop (stop - start) rest ≡ drop stop cs =
      drop-drop (stop - start) start cs ∙ ap (λ i. drop i cs) (omega (arith, ordered)) in
    omega (
      arith,
      whole,
      middle,
      count_keys j (take start cs) rest,
      count_keys j (range start stop cs) (drop (stop - start) rest),
      ap (λ ds. count j (keys_of ds)) behind,
    )

abbrev pub spliced : ℕ → ℕ → List Chunk → List Chunk → List Chunk
spliced start stop chunks new_chunks = take start chunks ++ (new_chunks ++ drop stop chunks)

count_spliced :
    (j : Str) (start stop : ℕ) (chunks new_chunks : List Chunk) (live : List Str)
    → start ≤ stop
    → count j (keys_of new_chunks ++ (keys_of chunks ++ live))
      ≡ count j (
          keys_of (range start stop chunks)
          ++ (keys_of (spliced start stop chunks new_chunks) ++ live))
count_spliced j start stop chunks new_chunks live ordered = omega (
  arith,
  count-append j (keys_of new_chunks) (keys_of chunks ++ live),
  count-append j (keys_of chunks) live,
  count-append j (keys_of (range start stop chunks))
      (keys_of (spliced start stop chunks new_chunks) ++ live),
  count-append j (keys_of (spliced start stop chunks new_chunks)) live,
  count_keys j (take start chunks) (new_chunks ++ drop stop chunks),
  count_keys j new_chunks (drop stop chunks),
  count_range j start stop chunks ordered,
)

module _ (store : ChunkStore) (md5 : Bytes → Bytes) (rabin : Rabin) (Known : Bytes → Type 0) where
  -- What is stored and still in use stays as it is.
  abbrev pub Stays : List Str → World store → World store → Type 0
  Stays live w w' =
      (j : Str) (bs : Bytes)
      → 0 < count j live
      → store.contents j w.store ≡ some bs
      → store.contents j w'.store ≡ some bs

  -- Where the counts agree with the chunk list of a file and the chunks of the other files, to
  -- replace the chunks of a range of the file by those of a buffer file, of less than 2^31 bytes
  -- with known parts, either throws, and the segmentation fails on some bytes, or gives the list
  -- with the chunks of pieces that make up the buffer file in place of the range; the counts then
  -- agree with the new list and the chunks of the other files, and no stored chunk that is in use
  -- then has changed.
  pub replace_chunks-Consistent :
      (chunks : List Chunk) (start stop : ℕ) (content : Bytes) (base : ℕ)
      (sp : Splitter rabin.State) (live : List Str) (w : World store)
      → Consistent store md5 rabin Known (keys_of chunks ++ live) w
      → start ≤ stop
      → length content < 2 ^ 31
      → PartsKnown store md5 rabin Known content
      → ((replace_chunks store rabin md5 chunks start stop content base (length content) (sp, w)
            ≡ runtime_error)
          × Fails rabin)
        ⊎ ((pieces : List Bytes) × (sp' : Splitter rabin.State) × (w' : World store)
            × (let chunks' = spliced start stop chunks (chunks_of rabin md5 base pieces) in
                (replace_chunks store rabin md5 chunks start stop content base
                    (length content)
                    (sp, w)
                  ≡ ok (chunks', (sp', w')))
                × (join pieces ≡ content)
                × Full pieces
                × Consistent store md5 rabin Known (keys_of chunks' ++ live) w'
                × Stays (keys_of chunks' ++ live) w w'))
  unfolding replace_chunks
  replace_chunks-Consistent chunks start stop content base sp live w c ordered small known =
      elim (rechunk-Consistent store md5 rabin Known content base sp (keys_of chunks ++ live) w c
        small known) [
          | inl (failed, fails) ↦ inl (rw (failed, ◌>>=◌) refl, fails)
          | inr (pieces, sp1, w1, eq, whole, full, c1, grows) ↦
              let new_chunks = chunks_of rabin md5 base pieces in
              let after = keys_of (spliced start stop chunks new_chunks) ++ live in
              let c1' =
                Consistent-congr store md5 rabin Known _
                  (keys_of (range start stop chunks) ++ after) w1
                  (λ j. count_spliced j start stop chunks new_chunks live ordered) c1 in
              let (w2, eq2, c2, remains) =
                drop_chunks-Consistent store md5 rabin Known (range start stop chunks) after w1
                  c1' in
              inr (
                pieces,
                sp1,
                w2,
                (
                  rw (eq, ◌>>=◌, eq2) refl,
                  whole,
                  full,
                  c2,
                  λ j bs used stored. remains j used ∙ grows j bs stored,
                ),
              )
        ]
