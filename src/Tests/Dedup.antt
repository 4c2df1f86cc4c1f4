-- ===== src/Tests/Dedup.antt =====
-- Files with chunks of one byte each, over a bucket in memory, and MD5 as the identity.
use cloud_file_system.Base.{
  ℕ, ◌<◌, ◌≤◌, ◌≡◌, refl, ◌⊎◌, Bool, true, false, [], ◌∷◌, Option, none, some, length, arith,
}
unfoldable use cloud_file_system.Base.{}
use cloud_file_system.Base.Dict.{lookup}
use cloud_file_system.Base.Outcome.{ok}
use cloud_file_system.Bytes.{Bytes}
use cloud_file_system.CacheReplacer.Recency.{lru}
use cloud_file_system.BufferFile.Chunks.{buffer_chunks}
use cloud_file_system.ChunkStore.{ChunkStore}
use cloud_file_system.ChunkTable.{entry}
use cloud_file_system.ChunkSplitter.{Rabin, Splitting, key_of, init, get_chunks_next}
use cloud_file_system.ChunkSplitter.Pieces.{Cut, reading, chunk_of, get_chunks_next_lem}
use cloud_file_system.Snapshot.Format.{Chunk}
use cloud_file_system.FileController.{get_chunk_idx}
use cloud_file_system.FileController.ChunkInfo.{IsIndex, total_len, get_chunk_idx_lem}
use cloud_file_system.Dedup.Chunks.{World, drop_chunks}
use cloud_file_system.Dedup.Counting.{Consistent, count}
use cloud_file_system.Dedup.Use.{add_chunk-Consistent}
use cloud_file_system.Dedup.Release.{Remains, drop_chunks-Consistent}
use cloud_file_system.Dedup.Rechunk.{Rechunking, rechunk-Consistent}
use cloud_file_system.Tests.Objects.{memory_cloud, start, start-Valid}

abbrev pub one_byte_next : Bytes → Option (ℕ × Bool × Unit {0})
one_byte_next [] = some (0, false, tt)
one_byte_next (b ∷ bs) = some (1, true, tt)

pub one_byte_le :
    (bs : Bytes) (s' : Unit {0}) (n : ℕ) (new : Bool)
    → one_byte_next bs ≡ some (n, new, s')
    → n ≤ length bs
one_byte_le [] s' n new h = ground (arith, h)
one_byte_le (b ∷ bs) s' n new h = ground (arith, h)

pub one_byte_some :
    (bs : Bytes) (s' : Unit {0}) (n : ℕ) (new : Bool)
    → one_byte_next bs ≡ some (n, new, s')
    → 0 < length bs
    → 0 < n
one_byte_some [] s' n new h full = ground (arith, full)
one_byte_some (b ∷ bs) s' n new h full = ground (arith, h)

abbrev pub rabin : Rabin
rabin = record {
  State = Unit {0};
  reset = λ s. s;
  segment_next = λ bs s. one_byte_next bs;
  segment_next_le = λ bs s s' n new h. one_byte_le bs s' n new h;
  segment_next_some = λ bs s s' n new h full. one_byte_some bs s' n new h full;
}

abbrev pub md5 : Bytes → Bytes
md5 bs = bs

abbrev pub store : ChunkStore
store = buffer_chunks lru memory_cloud

abbrev pub text : Bytes
text = 7 ∷ 8 ∷ []

get_chunks_next_lem_example :
    Cut rabin md5
      (get_chunks_next rabin md5 text (reading rabin md5 5 (9 ∷ []) tt))
      5
      (9 ∷ 7 ∷ 8 ∷ [])
get_chunks_next_lem_example = get_chunks_next_lem rabin md5 text 5 (9 ∷ []) tt

-- Nothing is asked of the byte strings.
abbrev pub Known : Bytes → Type 0
Known bs = Unit

-- Nothing is used, and nothing is stored.
abbrev pub nothing : World store
nothing = record { table = []; store = start }

pub nothing-Consistent : Consistent store md5 rabin Known [] nothing
unfolding lookup entry count
nothing-Consistent = record {
  nodup = tt;
  valid = ([], 4, start-Valid);
  counted = λ j. refl;
  kept = λ j. (λ dead. refl, λ alive. ground (arith, alive));
}

abbrev pub idle : Splitting rabin md5
idle = reading rabin md5 0 [] tt

rechunk-Consistent_example :
    Rechunking store md5 rabin Known text 0 [] nothing (init rabin md5 0 idle, nothing)
rechunk-Consistent_example =
    rechunk-Consistent store md5 rabin Known text 0 idle [] nothing nothing-Consistent (omega arith)
      (λ a p b whole. tt)

-- A file of one chunk.
abbrev pub chunk : Chunk
chunk = chunk_of rabin md5 0 text

pub one_used : (w : World store) × Consistent store md5 rabin Known (key_of rabin md5 text ∷ []) w
one_used =
    let (w, eq, c, grows) =
      add_chunk-Consistent store md5 rabin Known text 0 0 text [] nothing nothing-Consistent
        (omega arith) refl (omega arith) tt in
    (w, c)

drop_chunks-Consistent_example :
    (w' : World store) × (drop_chunks store (chunk ∷ []) one_used.0 ≡ ok w')
    × Consistent store md5 rabin Known [] w'
    × Remains store md5 rabin Known [] one_used.0 w'
drop_chunks-Consistent_example =
    drop_chunks-Consistent store md5 rabin Known (chunk ∷ []) [] one_used.0 one_used.1

get_chunk_idx_lem_example :
    ((get_chunk_idx (chunk ∷ []) 1 ≡ none) × (total_len (chunk ∷ []) ≤ 1))
    ⊎ ((i : ℕ) × (get_chunk_idx (chunk ∷ []) 1 ≡ some i) × IsIndex 0 (chunk ∷ []) 1 i)
get_chunk_idx_lem_example = get_chunk_idx_lem (chunk ∷ []) 1
