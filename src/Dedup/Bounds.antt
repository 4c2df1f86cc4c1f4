-- ===== src/Dedup/Bounds.antt =====
-- The index range of a write.
use cloud_file_system.Base.{
  ℕ, zero, suc, ◌+◌, ◌-◌, ◌≤◌, ◌<◌, ◌≡◌, ap, ◌∙◌, refl, inl, inr, false, List, [], ◌∷◌, some,
  length, take, drop, get_elem?, arith, leb, ◌==◌, Bool-cases,
}
use cloud_file_system.Base.Outcome.{ok}
use cloud_file_system.Snapshot.Format.{Chunk}
use cloud_file_system.FileController.ChunkInfo.{total_len, IsIndex, get_chunk_idx_lem}
use cloud_file_system.Dedup.Prepare.{range, stop_idx, back}

pub total_take_mono :
    (i j : ℕ) (cs : List Chunk) → i ≤ j → total_len (take i cs) ≤ total_len (take j cs)
total_take_mono zero j cs h = omega arith
total_take_mono (suc i) zero cs h = ground (arith, h)
total_take_mono (suc i) (suc j) [] h = omega arith
total_take_mono (suc i) (suc j) (c ∷ cs) h =
    omega (arith, total_take_mono i j cs (omega (arith, h)))

total_take_at :
    (i : ℕ) (cs : List Chunk) (c : Chunk)
    → get_elem? cs i ≡ some c
    → total_len (take (suc i) cs) ≡ total_len (take i cs) + c.len
total_take_at i [] c h = cc
total_take_at zero (d ∷ cs) c h = ground (arith, h)
total_take_at (suc i) (d ∷ cs) c h = omega (arith, total_take_at i cs c h)

pub at_bound : (i : ℕ) (cs : List Chunk) (c : Chunk) → get_elem? cs i ≡ some c → i < length cs
at_bound i [] c h = cc
at_bound zero (d ∷ cs) c h = omega arith
at_bound (suc i) (d ∷ cs) c h = omega (arith, at_bound i cs c h)

pub at_some : (i : ℕ) (cs : List Chunk) → i < length cs → (c : Chunk) × (get_elem? cs i ≡ some c)
at_some i [] h = ground (arith, h)
at_some zero (d ∷ cs) h = (d, refl)
at_some (suc i) (d ∷ cs) h = at_some i cs (omega (arith, h))

drop_last :
    (cs : List Chunk) (last : Chunk)
    → back cs ≡ ok last
    → (0 < length cs) × (drop (length cs - 1) cs ≡ last ∷ [])
unfolding back
drop_last [] last h = cc
drop_last (c ∷ []) last h =
    let same : length (c ∷ []) - 1 ≡ 0 = omega arith in
    let only : c ≡ last = ground (arith, h) in
    (omega arith, ap (λ i. drop i (c ∷ [])) same ∙ ap (λ x. x ∷ []) only)
drop_last (c ∷ d ∷ cs) last h =
    let same : length (c ∷ d ∷ cs) - 1 ≡ suc (length (d ∷ cs) - 1) = omega arith in
    (omega arith, ap (λ i. drop i (c ∷ d ∷ cs)) same ∙ (drop_last (d ∷ cs) last h).1)

-- The last chunk as a range.
pub range_last :
    (cs : List Chunk) (last : Chunk)
    → back cs ≡ ok last
    → (0 < length cs) × (range (length cs - 1) (length cs) cs ≡ last ∷ [])
range_last cs last h =
    let (some_chunk, at_end) = drop_last cs last h in
    let one : length cs - (length cs - 1) ≡ 1 = omega (arith, some_chunk) in
    (some_chunk, rw (one, at_end) refl)

-- The range of a write of some bytes is in order.
pub stop_idx_order :
    (i offset size : ℕ) (cs : List Chunk)
    → 0 < size
    → IsIndex 0 cs offset i
    → (i < stop_idx cs (offset + size)) × (0 < stop_idx cs (offset + size))
stop_idx_order i offset size cs some_bytes (c, at_i, from, to) =
    let more : (offset + size == 0) ≡ false = ground (arith, some_bytes) in
    elim (get_chunk_idx_lem cs (offset + size - 1)) [
      | inl (missing, high) ↦
          let eq : stop_idx cs (offset + size) ≡ length cs = rw (more, missing) refl in
          let bound = at_bound i cs c at_i in (omega (arith, eq, bound), omega (arith, eq, bound))
      | inr (k, found, (d, at_k, low, high)) ↦
          let eq : stop_idx cs (offset + size) ≡ suc k = rw (more, found) refl in
          elim (Bool-cases (leb i k)) [
            | inl ordered ↦ (ground (arith, ordered, eq), omega (arith, eq))
            | inr past ↦
                let mono = total_take_mono (suc k) i cs (ground (arith, past)) in
                ground (arith, mono, total_take_at k cs d at_k, high, from, some_bytes)
          ]
    ]
