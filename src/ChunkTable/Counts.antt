-- ===== src/ChunkTable/Counts.antt =====
-- The counts under `use` and `release`.
use cloud_file_system.Base.{
  ◌≡◌, refl, ◌∙◌, Bool, true, false, inl, inr, none, some, arith, Option-cases, Bool-cases,
  if◌then◌else◌,
}
use cloud_file_system.Base.Dict.{
  lookup, insert, erase, NodupKeys, lookup-insert_self, lookup-insert_ne, lookup-erase_self,
  lookup-erase_ne, insert-NodupKeys, erase-NodupKeys, insert-insert, insert_same, erase-insert_new,
}
use cloud_file_system.Base.Int.{ℤ, pos, ◌+ℤ◌, ◌-ℤ◌, +ℤ_cancel, +ℤ_parts}
use cloud_file_system.Base.Outcome.{ok, runtime_error}
use cloud_file_system.Bytes.{Str, str_dec}
use cloud_file_system.ChunkTable.{RefCounts, Table, no_counts, entry, is_dead, use_chunk, release}

-- How often the files use a chunk, and how many snapshots do.
abbrev pub refs : Str → Table → ℤ
refs k t = (entry k t).ref_count

abbrev pub snapshots : Str → Table → ℤ
snapshots k t = (entry k t).snapshot_ref_count

abbrev pub plus_at : Str → Str → ℤ → ℤ → ℤ
plus_at j k d n = elim (str_dec j k) [ yes _ ↦ n +ℤ d | no _ ↦ n ]

abbrev pub minus_at : Str → Str → ℤ → ℤ → ℤ
minus_at j k d n = elim (str_dec j k) [ yes _ ↦ n -ℤ d | no _ ↦ n ]

abbrev pub at_key : Str → Str → RefCounts → RefCounts → RefCounts
at_key j k c d = elim (str_dec j k) [ yes _ ↦ c | no _ ↦ d ]

pub entry-insert :
    (j k : Str) (c : RefCounts) (t : Table)
    → entry j (insert str_dec k c t) ≡ at_key j k c (entry j t)
unfolding entry
entry-insert j k c t =
    elim (str_dec j k)
      as (λ d. entry j (insert str_dec k c t) ≡ (elim d [ yes _ ↦ c | no _ ↦ entry j t ])) [
        | yes p ↦ rw (p, lookup-insert_self str_dec k c t, entry)
        | no p ↦ rw (lookup-insert_ne str_dec j k c t p, entry)
      ]

entry-erase :
    (j k : Str) (t : Table)
    → NodupKeys str_dec t
    → entry j (erase str_dec k t) ≡ at_key j k no_counts (entry j t)
unfolding entry
entry-erase j k t u =
    elim (str_dec j k)
      as (λ d. entry j (erase str_dec k t) ≡ (elim d [ yes _ ↦ no_counts | no _ ↦ entry j t ])) [
        | yes p ↦ rw (p, lookup-erase_self str_dec k t u, entry)
        | no p ↦ rw (lookup-erase_ne str_dec j k t p, entry)
      ]

dead_lem : (c : RefCounts) → is_dead c ≡ true → c ≡ no_counts
dead_lem c h = ground arith

-- `use` adds one to the count of its chunk, and changes no other count.
pub use_chunk_counts :
    (j k : Str) (t : Table)
    → (refs j (use_chunk k t).0 ≡ plus_at j k (pos 1) (refs j t))
      × (snapshots j (use_chunk k t).0 ≡ snapshots j t)
unfolding use_chunk
use_chunk_counts j k t =
    ground (arith, entry-insert j k (record (entry k t) { ref_count = refs k t +ℤ pos 1 }) t)

-- It reports a new chunk exactly if no file and no snapshot uses it yet.
pub use_chunk_new : (k : Str) (t : Table) → (use_chunk k t).1 ≡ is_dead (entry k t)
unfolding use_chunk
use_chunk_new k t = ground (arith, +ℤ_parts (refs k t) (pos 1))

pub use_chunk-NodupKeys :
    (k : Str) (t : Table) → NodupKeys str_dec t → NodupKeys str_dec (use_chunk k t).0
unfolding use_chunk
use_chunk-NodupKeys k t u = insert-NodupKeys str_dec k _ t u

-- `release` throws for a chunk that is not in the table.
pub release_missing :
    (k : Str) (t : Table) → lookup str_dec k t ≡ none → release k t ≡ runtime_error
unfolding release
release_missing k t h = rw (h, release)

-- What `release` makes of the table, with the new counts `c` of the chunk.
abbrev settle : Str → RefCounts → Table → Table
settle k c t = if is_dead c then erase str_dec k (insert str_dec k c t) else insert str_dec k c t

entry-settle :
    (j k : Str) (c : RefCounts) (t : Table)
    → NodupKeys str_dec t
    → entry j (settle k c t) ≡ at_key j k c (entry j t)
entry-settle j k c t u = elim (Bool-cases (is_dead c)) [
  | inl dead ↦ rw dead (
      entry-erase j k (insert str_dec k c t) (insert-NodupKeys str_dec k c t u)
      ∙ ground (arith, entry-insert j k c t, dead_lem c dead))
  | inr alive ↦ rw alive (entry-insert j k c t)
]

settle-NodupKeys :
    (k : Str) (c : RefCounts) (t : Table) → NodupKeys str_dec t → NodupKeys str_dec (settle k c t)
settle-NodupKeys k c t u =
    let u' = insert-NodupKeys str_dec k c t u in
    elim (Bool-cases (is_dead c)) [
      | inl dead ↦ rw dead (erase-NodupKeys str_dec k (insert str_dec k c t) u')
      | inr alive ↦ rw alive u'
    ]

-- Of a chunk in a table with distinct keys, `release` takes one from the count, changes no other
-- count, keeps the keys distinct, and reports whether nothing uses the chunk any longer.
pub release_counts :
    (k : Str) (t : Table) (c : RefCounts)
    → NodupKeys str_dec t
    → lookup str_dec k t ≡ some c
    → (t' : Table) × (is_last : Bool) × (release k t ≡ ok (t', is_last))
      × NodupKeys str_dec t'
      × (is_last ≡ is_dead (record c { ref_count = c.ref_count -ℤ pos 1 }))
      × ((j : Str)
          → (refs j t' ≡ minus_at j k (pos 1) (refs j t)) × (snapshots j t' ≡ snapshots j t))
unfolding release entry
release_counts k t c u h =
    let c' : RefCounts = record c { ref_count = c.ref_count -ℤ pos 1 } in
    (
      settle k c' t,
      is_dead c',
      rw (h, release),
      settle-NodupKeys k c' t u,
      refl,
      λ j. ground (arith, entry-settle j k c' t u),
    )

release-insert :
    (k : Str) (c : RefCounts) (t : Table)
    → (let c' : RefCounts = record c { ref_count = c.ref_count -ℤ pos 1 } in
        release k (insert str_dec k c t) ≡ ok (settle k c' t, is_dead c'))
unfolding release
release-insert k c t =
    rw
      (
        lookup-insert_self str_dec k c t,
        insert-insert str_dec k c (record c { ref_count = c.ref_count -ℤ pos 1 }) t,
        release,
      )
      refl

use_back :
    (k : Str) (c : RefCounts) (t : Table)
    → entry k t ≡ c
    → settle k c t ≡ t
    → release k (use_chunk k t).0 ≡ ok (t, is_dead c)
unfolding use_chunk
use_back k c t old same =
    rw (old, use_chunk)
      (release-insert k (record c { ref_count = c.ref_count +ℤ pos 1 }) t
        ∙ rw (+ℤ_cancel c.ref_count (pos 1), same) refl)

-- To use a chunk and to release it again leaves the table as it was, entries and their order
-- included, and reports a chunk without users exactly if it was new, where the table has no entry of
-- two zeros for the chunk.
pub release-use_chunk :
    (k : Str) (t : Table)
    → ((c : RefCounts) → lookup str_dec k t ≡ some c → is_dead c ≡ false)
    → release k (use_chunk k t).0 ≡ ok (t, (use_chunk k t).1)
unfolding entry
release-use_chunk k t alive = rw (use_chunk_new k t) (
    use_back k (entry k t) t refl (elim (Option-cases (lookup str_dec k t)) [
      | inl new ↦ rw (new, entry) (erase-insert_new str_dec k no_counts t new)
      | inr (c, old) ↦ rw (old, alive c old, entry) (insert_same str_dec k c t old)
    ]))
