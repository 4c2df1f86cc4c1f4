-- ===== src/FileController/ChunkInfo.antt =====
-- Chunk lists: what is written is read back, and the chunk that holds an offset.
use cloud_file_system.Base.{
  ℕ, suc, ◌+◌, ◌^◌, ◌≤◌, ◌<◌, ◌≡◌, refl, ap, ◌∙◌, List, [], ◌∷◌, none, some, length, arith, ◌⊎◌,
  inl, inr, take, get_elem?, Bool-cases, leb, ltb, ◌&&◌,
}
use mathlib.Core.List.{append-nil}
use cloud_file_system.Base.Outcome.{ok}
use cloud_file_system.Bytes.RoundTrip.{get_size-put_size}
use cloud_file_system.Snapshot.Format.{
  Chunk, ChunksFit, put_chunks, get_chunks, get_chunks-put_chunks,
}
use cloud_file_system.FileController.{get_chunkinfo, set_chunkinfo, chunk_idx_from, get_chunk_idx}

-- The chunk list that is written to a main file is the list that is read back, where the lengths and
-- offsets fit their types.
pub get_chunkinfo-set_chunkinfo :
    (cs : List Chunk) → length cs < 2 ^ 64 → ChunksFit cs → get_chunkinfo (set_chunkinfo cs) ≡ ok cs
unfolding get_chunkinfo set_chunkinfo
get_chunkinfo-set_chunkinfo cs fit fits =
    let whole : get_chunks (length cs) (put_chunks cs) ≡ some (cs, []) =
      rw (append-nil (put_chunks cs)) at (get_chunks-put_chunks cs [] fits) in
    rw (get_size-put_size (length cs) (put_chunks cs) fit, get_chunkinfo, whole) refl

-- The length of the chunks together.
abbrev pub total_len : List Chunk → ℕ
total_len [] = 0
total_len (c ∷ cs) = c.len + total_len cs

-- The index of the chunk that holds an offset: the chunks before it end at the offset or before, and
-- it ends behind the offset.
abbrev pub IsIndex : ℕ → List Chunk → ℕ → ℕ → Type 0
IsIndex cur cs offset i =
    (c : Chunk) × (get_elem? cs i ≡ some c)
    × (cur + total_len (take i cs) ≤ offset)
    × (offset < cur + total_len (take i cs) + c.len)

chunk_idx_from_lem :
    (cur i : ℕ) (cs : List Chunk) (offset : ℕ)
    → cur ≤ offset
    → ((chunk_idx_from cur i cs offset ≡ none) × (cur + total_len cs ≤ offset))
      ⊎ ((j : ℕ) × (chunk_idx_from cur i cs offset ≡ some (i + j)) × IsIndex cur cs offset j)
unfolding chunk_idx_from
chunk_idx_from_lem cur i [] offset low = inl (refl, omega (arith, low))
chunk_idx_from_lem cur i (c ∷ cs) offset low =
    elim (Bool-cases (leb cur offset && ltb offset (cur + c.len))) [
      | inl here ↦
          let bound : offset < cur + c.len = ground (arith, here) in
          let same : i ≡ i + 0 = omega arith in
          inr (0, rw here (ap some same), (c, refl, omega (arith, low), omega (arith, bound)))
      | inr not_here ↦
          elim (chunk_idx_from_lem (cur + c.len) (suc i) cs offset
            (ground (arith, not_here, low))) [
              | inl (missing, high) ↦ inl (rw not_here missing, omega (arith, high))
              | inr (j, found, (d, at_j, from, to)) ↦
                  let next : suc i + j ≡ i + suc j = omega arith in
                  inr (
                    suc j,
                    rw not_here (found ∙ ap some next),
                    (d, at_j, omega (arith, from), omega (arith, to)),
                  )
            ]
    ]

-- `get_chunk_idx` finds the one chunk that holds an offset, and finds none exactly if the chunks end
-- at the offset or before.
pub get_chunk_idx_lem :
    (cs : List Chunk) (offset : ℕ)
    → ((get_chunk_idx cs offset ≡ none) × (total_len cs ≤ offset))
      ⊎ ((i : ℕ) × (get_chunk_idx cs offset ≡ some i) × IsIndex 0 cs offset i)
get_chunk_idx_lem cs offset = elim (chunk_idx_from_lem 0 0 cs offset (omega arith)) [
  | inl (missing, high) ↦ inl (missing, omega (arith, high))
  | inr (i, found, at_i) ↦ let same : 0 + i ≡ i = omega arith in inr (i, found ∙ ap some same, at_i)
]
