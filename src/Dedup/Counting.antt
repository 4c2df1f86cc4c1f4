-- ===== src/Dedup/Counting.antt =====
-- The reference counts and the stored chunks, against the list of the chunks that the files use.
use cloud_file_system.Base.{
  ℕ, suc, ◌+◌, ◌≡◌, ◌≢◌, refl, ap, ◌∙◌, true, false, List, [], ◌∷◌, ◌++◌, none, some, arith,
}
use cloud_file_system.Base.Dict.{NodupKeys}
use cloud_file_system.Base.Int.{pos, ◌+ℤ◌}
use cloud_file_system.Bytes.{Bytes, Str, str_dec}
use cloud_file_system.ChunkTable.{RefCounts, entry, is_dead, use_chunk}
use cloud_file_system.ChunkTable.Counts.{refs, plus_at, use_chunk_counts}
use cloud_file_system.ChunkStore.{ChunkStore}
use cloud_file_system.ChunkSplitter.{Rabin, key_of}
use cloud_file_system.Snapshot.Format.{Chunk}
use cloud_file_system.Dedup.Chunks.{World}

-- How often a key is in a list.
unfoldable pub count : Str → List Str → ℕ
count j [] = 0
count j (k ∷ ks) = let rest = count j ks in elim (str_dec j k) [ yes _ ↦ suc rest | no _ ↦ rest ]

abbrev pub keys_of : List Chunk → List Str
keys_of [] = []
keys_of (c ∷ cs) = c.key ∷ keys_of cs

pub count-append : (j : Str) (ks ls : List Str) → count j (ks ++ ls) ≡ count j ks + count j ls
unfolding count
count-append j [] ls = omega arith
count-append j (k ∷ ks) ls = ground (arith, count-append j ks ls)

pub dead_congr :
    (c d : RefCounts)
    → c.ref_count ≡ d.ref_count
    → c.snapshot_ref_count ≡ d.snapshot_ref_count
    → is_dead c ≡ is_dead d
dead_congr c d same same' = rw (same, same') refl

pub alive_lem : (c : RefCounts) (n : ℕ) → c.ref_count ≡ pos (suc n) → is_dead c ≡ false
alive_lem c n h = ground (arith, h)

count_plus :
    (j k : Str) (live : List Str)
    → plus_at j k (pos 1) (pos (count j live)) ≡ pos (count j (k ∷ live))
unfolding count ◌+ℤ◌
count_plus j k live = ground arith

pub count_self : (k : Str) (live : List Str) → count k (k ∷ live) ≡ suc (count k live)
unfolding count
count_self k live = ground arith

module _ (store : ChunkStore) (md5 : Bytes → Bytes) (rabin : Rabin) (Known : Bytes → Type 0) where
  -- A chunk that nothing uses is not stored; any other is stored under the key of its bytes, which
  -- are known.
  abbrev pub Kept : Str → World store → Type 0
  Kept j w =
      (is_dead (entry j w.table) ≡ true → store.contents j w.store ≡ none)
      × (is_dead (entry j w.table) ≡ false
          → (bs : Bytes) × (store.contents j w.store ≡ some bs)
            × (key_of rabin md5 bs ≡ j)
            × Known bs)

  -- The files use these chunks, and each as often as its count in the table says.
  pub record Consistent (live : List Str) (w : World store) : Type 0 where
    pub nodup : NodupKeys str_dec w.table
    pub valid : store.Valid w.store
    pub counted : (j : Str) → refs j w.table ≡ pos (count j live)
    pub kept : (j : Str) → Kept j w

  -- The pieces of a buffer file are known.
  abbrev pub PartsKnown : Bytes → Type 0
  PartsKnown file = (a p b : Bytes) → file ≡ a ++ (p ++ b) → Known p

  -- What an operation leaves of the other chunks.
  abbrev pub Grows : World store → World store → Type 0
  Grows w w' =
      (j : Str) (bs : Bytes)
      → store.contents j w.store ≡ some bs
      → store.contents j w'.store ≡ some bs

  -- The order of the uses does not matter.
  pub Consistent-congr :
      (live live' : List Str) (w : World store)
      → ((j : Str) → count j live ≡ count j live')
      → Consistent live w
      → Consistent live' w
  Consistent-congr live live' w same c = record {
    nodup = c.nodup;
    valid = c.valid;
    counted = λ j. c.counted j ∙ ap pos (same j);
    kept = c.kept;
  }

  -- The table after `use`.
  pub used_counted :
      (k : Str) (live : List Str) (w : World store)
      → Consistent live w
      → (j : Str) → refs j (use_chunk k w.table).0 ≡ pos (count j (k ∷ live))
  used_counted k live w c j =
      (use_chunk_counts j k w.table).0
      ∙ ap (plus_at j k (pos 1)) (c.counted j)
      ∙ count_plus j k live

  pub used_alive :
      (k : Str) (live : List Str) (w : World store)
      → Consistent live w
      → is_dead (entry k (use_chunk k w.table).0) ≡ false
  used_alive k live w c =
      alive_lem (entry k (use_chunk k w.table).0) (count k live)
        (used_counted k live w c k ∙ ap pos (count_self k live))

  pub used_dead :
      (j k : Str) (w : World store)
      → j ≢ k
      → is_dead (entry j (use_chunk k w.table).0) ≡ is_dead (entry j w.table)
  used_dead j k w differ =
      let (refs_eq, snapshots_eq) = use_chunk_counts j k w.table in
      dead_congr (entry j (use_chunk k w.table).0) (entry j w.table)
        (refs_eq ∙ ground (arith, differ)) snapshots_eq
