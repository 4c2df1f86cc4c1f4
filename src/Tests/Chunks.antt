-- ===== src/Tests/Chunks.antt =====
-- A chunk table of two chunks.
use cloud_file_system.Base.{ℕ, ◌+◌, ◌≡◌, refl, false, [], ◌∷◌, ◌++◌, some, arith}
use cloud_file_system.Base.Dict.{NodupKeys, lookup}
use cloud_file_system.Base.Int.{pos}
use cloud_file_system.Base.Outcome.{Outcome, ok}
use cloud_file_system.Bytes.{Str, str_dec, put_size}
use cloud_file_system.ChunkTable.{
  RefCounts, Table, is_dead, use_chunk, release, persist, load, snapshot, snapshot_deleted, restore,
  put_entries,
}
use cloud_file_system.ChunkTable.Counts.{refs, snapshots, release-use_chunk}
use cloud_file_system.ChunkTable.File.{Fits, load-persist}
use cloud_file_system.ChunkTable.Snapshot.{
  Live, snapshot_deleted-snapshot, restored_refs, restore-snapshot,
}

abbrev key_a : Str
key_a = 97 ∷ []

abbrev key_b : Str
key_b = 98 ∷ []

-- Used twice; and kept by one snapshot only.
abbrev used : RefCounts
used = record { ref_count = pos 2; snapshot_ref_count = pos 0 }

abbrev kept : RefCounts
kept = record { ref_count = pos 0; snapshot_ref_count = pos 1 }

abbrev two : Table
two = (key_a, used) ∷ (key_b, kept) ∷ []

two-NodupKeys : NodupKeys str_dec two
unfolding lookup str_dec
two-NodupKeys = (refl, (refl, tt))

two-Fits : Fits two
two-Fits = (
  omega arith,
  (omega arith, omega arith, omega arith, (omega arith, omega arith, omega arith, tt)),
)

two-Live : Live two
two-Live = (refl, (refl, tt))

one-NodupKeys : NodupKeys str_dec ((key_a, used) ∷ [])
unfolding lookup
one-NodupKeys = (refl, tt)

alive : (c : RefCounts) → lookup str_dec key_a two ≡ some c → is_dead c ≡ false
unfolding lookup str_dec
alive c h = ground arith

release-use_chunk_example :
    release key_a (use_chunk key_a two).0 ≡ ok (two, (use_chunk key_a two).1)
release-use_chunk_example = release-use_chunk key_a two alive

load-persist_example : load (put_size 2 ++ put_entries two) ≡ ok two
unfolding persist
load-persist_example = load-persist two (put_size 2 ++ put_entries two) two-NodupKeys two-Fits refl

abbrev no_delete : Str → ℕ → Outcome ℕ
no_delete k n = ok (n + 1)

snapshot_deleted-snapshot_example :
    snapshot_deleted no_delete ((snapshot two).0 ++ (7 ∷ [])) ((snapshot two).1, 0)
    ≡ ok ((two, 0), 7 ∷ [])
snapshot_deleted-snapshot_example =
    snapshot_deleted-snapshot no_delete two 0 (7 ∷ []) two-NodupKeys two-Fits two-Live

restore-snapshot_example :
    (t' : Table) × (restore ((snapshot two).0 ++ (7 ∷ [])) ((key_a, used) ∷ []) ≡ ok (t', 7 ∷ []))
    × ((j : Str)
        → (refs j t' ≡ restored_refs j two ((key_a, used) ∷ []))
          × (snapshots j t' ≡ snapshots j ((key_a, used) ∷ [])))
restore-snapshot_example = restore-snapshot two ((key_a, used) ∷ []) (7 ∷ []) two-NodupKeys two-Fits
