-- ===== src/Dedup/Ranges.antt =====
-- The chunks from the one that holds the start of a range to the one that holds its end.
use cloud_file_system.Base.{
  ℕ, zero, suc, ◌+◌, ◌-◌, ◌≤◌, ◌<◌, ◌≡◌, refl, ap, ◌∙◌, ◌⊎◌, inl, inr, List, [], ◌∷◌, none, some,
  length, take, drop, get_elem?, arith, Bool-cases, ◌==◌, leb, leb→le, false, drop-drop,
}
use cloud_file_system.Snapshot.Format.{Chunk}
use cloud_file_system.FileController.{get_chunk_idx}
use cloud_file_system.FileController.ChunkInfo.{total_len, get_chunk_idx_lem}
use cloud_file_system.Dedup.Prepare.{range, stop_idx}

pub drop_all : (n : ℕ) (cs : List Chunk) → length cs ≤ n → drop n cs ≡ []
drop_all zero [] h = refl
drop_all zero (c ∷ cs) h = ground (arith, h)
drop_all (suc n) [] h = refl
drop_all (suc n) (c ∷ cs) h = drop_all n cs (omega (arith, h))

pub drop_at :
    (i : ℕ) (cs : List Chunk) (c : Chunk)
    → get_elem? cs i ≡ some c
    → drop i cs ≡ c ∷ drop (suc i) cs
drop_at i [] c h = cc
drop_at zero (d ∷ cs) c h = ground (arith, h)
drop_at (suc i) (d ∷ cs) c h = drop_at i cs c h

total_take :
    (i : ℕ) (cs : List Chunk) (c : Chunk)
    → get_elem? cs i ≡ some c
    → total_len (take (suc i) cs) ≡ total_len (take i cs) + c.len
total_take i [] c h = cc
total_take zero (d ∷ cs) c h = ground (arith, h)
total_take (suc i) (d ∷ cs) c h = omega (arith, total_take i cs c h)

total_parts :
    (first n : ℕ) (cs : List Chunk)
    → total_len (take first cs) + total_len (take n (drop first cs))
      ≡ total_len (take (first + n) cs)
total_parts zero n cs =
    let same : n ≡ 0 + n = omega arith in omega (arith, ap (λ i. total_len (take i cs)) same)
total_parts (suc first) zero [] =
    let next : suc first ≡ suc first + 0 = omega arith in
    omega (arith, ap (λ i. total_len (take i [])) next)
total_parts (suc first) (suc n) [] =
    let next : suc (first + suc n) ≡ suc first + suc n = omega arith in
    omega (arith, ap (λ i. total_len (take i [])) next)
total_parts (suc first) n (c ∷ cs) =
    let next : suc (first + n) ≡ suc first + n = omega arith in
    omega (arith, total_parts first n cs, ap (λ i. total_len (take i (c ∷ cs))) next)

total_range :
    (first stop : ℕ) (cs : List Chunk)
    → first ≤ stop
    → total_len (take first cs) + total_len (range first stop cs) ≡ total_len (take stop cs)
total_range first stop cs h =
    let same : first + (stop - first) ≡ stop = omega (arith, h) in
    total_parts first (stop - first) cs ∙ ap (λ i. total_len (take i cs)) same

-- A range of chunks has the bytes of a read: there are none, or no chunk is behind the range, or the
-- range ends at the end of the read or behind it.
abbrev pub Covers : ℕ → ℕ → ℕ → ℕ → List Chunk → Type 0
Covers first stop offset size cs =
    (size ≡ 0)
    ⊎ ((drop (stop - first) (drop first cs) ≡ [])
        ⊎ (offset + size ≤ total_len (take first cs) + total_len (range first stop cs)))

stop_none :
    (stop : ℕ) (cs : List Chunk)
    → (stop == 0) ≡ false
    → get_chunk_idx cs (stop - 1) ≡ none
    → stop_idx cs stop ≡ length cs
stop_none stop cs some_read missing = rw (some_read, missing) refl

stop_some :
    (stop k : ℕ) (cs : List Chunk)
    → (stop == 0) ≡ false
    → get_chunk_idx cs (stop - 1) ≡ some k
    → stop_idx cs stop ≡ suc k
stop_some stop k cs some_read found = rw (some_read, found) refl

-- The range up to the chunk `k` ends behind the chunk.
ends_at :
    (first k bound : ℕ) (cs : List Chunk) (d : Chunk)
    → get_elem? cs k ≡ some d
    → total_len (take first cs) < bound
    → bound ≤ total_len (take k cs) + d.len
    → bound ≤ total_len (take first cs) + total_len (range first (suc k) cs)
ends_at first k bound cs d at_k low high = elim (Bool-cases (leb first (suc k))) [
  | inl ordered ↦ omega (
    arith,
    total_range first (suc k) cs (leb→le first (suc k) ordered),
    total_take k cs d at_k,
    high,
  )
  | inr past ↦ omega (
    arith,
    total_range (suc k) first cs (ground (arith, past)),
    total_take k cs d at_k,
    low,
    high,
  )
]

pub stop_idx-Covers :
    (first offset size : ℕ) (cs : List Chunk)
    → total_len (take first cs) ≤ offset
    → Covers first (stop_idx cs (offset + size)) offset size cs
stop_idx-Covers first offset size cs from = elim (Bool-cases (offset + size == 0)) [
  | inl none_read ↦ inl (ground (arith, none_read))
  | inr some_read ↦ elim (get_chunk_idx_lem cs (offset + size - 1)) [
    | inl (missing, high) ↦ rw (stop_none (offset + size) cs some_read missing) (
        inr (
          inl (
            drop-drop (length cs - first) first cs
            ∙ drop_all (first + (length cs - first)) cs (omega arith))))
    | inr (k, found, (d, at_k, low, high)) ↦
        rw (stop_some (offset + size) k cs some_read found) (elim (Bool-cases (size == 0)) [
          | inl none_read ↦ inl (ground (arith, none_read))
          | inr bytes ↦ inr (
              inr (
                ends_at first k (offset + size) cs d at_k (ground (arith, from, bytes))
                  (ground (arith, high, some_read))))
        ])
  ]
]
