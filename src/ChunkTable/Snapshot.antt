-- ===== src/ChunkTable/Snapshot.antt =====
-- The chunk table in a snapshot: what deleting or restoring a snapshot makes of it.
use cloud_file_system.Base.{
  ℕ, suc, ◌^◌, ◌<◌, ◌≡◌, ◌≢◌, refl, ◌∙◌, [], ◌∷◌, ◌++◌, none, some, arith, length, false, inl, inr,
  Bool-cases, Option-cases,
}
use mathlib.Core.List.{append_assoc}
use cloud_file_system.Base.Dict.{
  lookup, NodupKeys, lookup_before, lookup_at, insert_at, lookup-insert_ne, lookup-insert_self,
}
use cloud_file_system.Base.Outcome.{Outcome, ok, ◌>>=◌, >>=-eq_of_ok}
use cloud_file_system.Base.Int.{ℤ, pos, ◌+ℤ◌, +ℤ_cancel, ltb_ℤ}
use cloud_file_system.Bytes.{Bytes, Str, str_dec, put_size, put_int, put_str}
use cloud_file_system.Bytes.RoundTrip.{
  get_size-put_size, get_str-put_str, get_int-put_int, IsInt, skip_bytes-append, skip_put_int,
}
use cloud_file_system.ChunkTable.{
  RefCounts, Table, no_counts, entry, is_dead, add_snapshot, referenced, saved_entries, snapshot,
  drop_snapshot, drop_entries, snapshot_deleted, restore_entry, restore_entries, restore,
  skip_entries, skip_snapshot,
}
use cloud_file_system.ChunkTable.Counts.{refs, snapshots}
use cloud_file_system.ChunkTable.File.{EntriesFit, Fits}

-- Every chunk of the table is in use.
abbrev pub Live : Table → Type 0
Live [] = Unit
Live (e ∷ t) = (is_dead e.1 ≡ false) × Live t

module _ {S : Type 0} (delete_object : Str → S → Outcome S) where
  drop_snapshot-add_snapshot :
      (k : Str) (c : RefCounts) (done t : Table) (s : S)
      → lookup str_dec k done ≡ none
      → is_dead c ≡ false
      → drop_snapshot delete_object k c.ref_count (done ++ ((k, add_snapshot c) ∷ t), s)
        ≡ ok (done ++ ((k, c) ∷ t), s)
  unfolding drop_snapshot
  drop_snapshot-add_snapshot k c done t s new alive =
      rw (lookup_at str_dec k (add_snapshot c) done t new, drop_snapshot)
        (elim (Bool-cases (ltb_ℤ (pos 0) c.ref_count)) [
          | inl p ↦
              let more : RefCounts = record c {
                snapshot_ref_count = c.snapshot_ref_count +ℤ pos 1;
              } in
              rw
                (
                  p,
                  +ℤ_cancel c.snapshot_ref_count (pos 1),
                  alive,
                  insert_at str_dec k more c done t new,
                )
                refl
          | inr p ↦ rw (p, alive, insert_at str_dec k c c done t new) refl
        ])

  drop_entries_step :
      (e : Str × RefCounts) (n : ℕ) (rest : Bytes) (w : Table × S)
      → (length e.0 < 2 ^ 64)
      → IsInt e.1.ref_count
      → drop_entries delete_object (suc n) (put_str e.0 ++ (put_int e.1.ref_count ++ rest)) w
        ≡ (drop_snapshot delete_object e.0 e.1.ref_count w >>= drop_entries delete_object n rest)
  unfolding drop_entries
  drop_entries_step e n rest w short i =
      rw
        (
          get_str-put_str e.0 (put_int e.1.ref_count ++ rest) short,
          get_int-put_int e.1.ref_count rest i,
          drop_entries,
        )
        refl

  drop_entries-saved_entries :
      (t done : Table) (s : S) (rest : Bytes)
      → NodupKeys str_dec (done ++ t)
      → EntriesFit t
      → Live t
      → drop_entries delete_object (length t) (saved_entries t ++ rest) (done ++ referenced t, s)
        ≡ ok ((done ++ t, s), rest)
  unfolding saved_entries referenced drop_entries
  drop_entries-saved_entries [] done s rest u fit live = refl
  drop_entries-saved_entries (e ∷ t) done s rest u fit live =
      let same = append_assoc done (e ∷ []) t in
      let u' : NodupKeys str_dec ((done ++ (e ∷ [])) ++ t) = rw same u in
      let back =
        drop_snapshot-add_snapshot e.0 e.1 done (referenced t) s
          (lookup_before str_dec e.0 e.1 done t u) live.0 in
      let ih = drop_entries-saved_entries t (done ++ (e ∷ [])) s rest u' fit.3 live.1 in
      rw
        (
          append_assoc (put_str e.0) (put_int e.1.ref_count ++ saved_entries t) rest,
          append_assoc (put_int e.1.ref_count) (saved_entries t) rest,
        )
        (drop_entries_step e (length t) (saved_entries t ++ rest) _ fit.0 fit.1
          ∙ >>=-eq_of_ok _ (drop_entries delete_object (length t) (saved_entries t ++ rest)) back
          ∙ rw (same, append_assoc done (e ∷ []) (referenced t)) at ih)

  -- To delete a snapshot takes back what making it did to the table, entries and their order
  -- included, and deletes no chunk; the rest of the file is left unread. The keys are distinct, the
  -- counts and lengths fit their types, and every chunk is in use.
  pub snapshot_deleted-snapshot :
      (t : Table) (s : S) (rest : Bytes)
      → NodupKeys str_dec t
      → Fits t
      → Live t
      → snapshot_deleted delete_object ((snapshot t).0 ++ rest) ((snapshot t).1, s)
        ≡ ok ((t, s), rest)
  unfolding snapshot snapshot_deleted
  snapshot_deleted-snapshot t s rest u fit live =
      rw
        (
          append_assoc (put_size (length t)) (saved_entries t) rest,
          get_size-put_size (length t) (saved_entries t ++ rest) fit.0,
          snapshot_deleted,
        )
        (drop_entries-saved_entries t [] s rest u fit.1 live)

-- The counts of a chunk after `restore`, from those that the snapshot file and the table give it.
abbrev pub restored_refs : Str → Table → Table → ℤ
restored_refs j saved t = elim (lookup str_dec j saved) [
  | none ↦ refs j t
  | some c ↦ elim (lookup str_dec j t) [ none ↦ pos 0 | some _ ↦ c.ref_count ]
]

restore_entry_self :
    (k : Str) (n : ℤ) (t : Table)
    → (refs k (restore_entry k n t) ≡ (elim (lookup str_dec k t) [ none ↦ pos 0 | some _ ↦ n ]))
      × (snapshots k (restore_entry k n t) ≡ snapshots k t)
unfolding entry
restore_entry_self k n t = elim (Option-cases (lookup str_dec k t)) [
  | inl p ↦ ground (arith, lookup-insert_self str_dec k no_counts t)
  | inr (c, p) ↦ ground (arith, lookup-insert_self str_dec k (record c { ref_count = n }) t)
]

restore_entry_ne :
    (j k : Str) (n : ℤ) (t : Table)
    → j ≢ k
    → lookup str_dec j (restore_entry k n t) ≡ lookup str_dec j t
restore_entry_ne j k n t h = elim (Option-cases (lookup str_dec k t)) [
  | inl p ↦ ground (arith, lookup-insert_ne str_dec j k no_counts t h)
  | inr (c, p) ↦ ground (arith, lookup-insert_ne str_dec j k (record c { ref_count = n }) t h)
]

restore_entries_step :
    (e : Str × RefCounts) (n : ℕ) (rest : Bytes) (t : Table)
    → (length e.0 < 2 ^ 64)
    → IsInt e.1.ref_count
    → restore_entries (suc n) (put_str e.0 ++ (put_int e.1.ref_count ++ rest)) t
      ≡ restore_entries n rest (restore_entry e.0 e.1.ref_count t)
unfolding restore_entries
restore_entries_step e n rest t short i =
    rw
      (
        get_str-put_str e.0 (put_int e.1.ref_count ++ rest) short,
        get_int-put_int e.1.ref_count rest i,
        restore_entries,
      )
      refl

restored_same :
    (k : Str) (c : RefCounts) (saved t mid t' : Table)
    → lookup str_dec k saved ≡ none
    → (refs k mid ≡ (elim (lookup str_dec k t) [ none ↦ pos 0 | some _ ↦ c.ref_count ]))
      × (snapshots k mid ≡ snapshots k t)
    → (refs k t' ≡ restored_refs k saved mid) × (snapshots k t' ≡ snapshots k mid)
    → (refs k t' ≡ restored_refs k ((k, c) ∷ saved) t) × (snapshots k t' ≡ snapshots k t)
unfolding lookup
restored_same k c saved t mid t' new now h = ground arith

restored_other :
    (j : Str) (e : Str × RefCounts) (saved t mid t' : Table)
    → j ≢ e.0
    → lookup str_dec j mid ≡ lookup str_dec j t
    → (refs j t' ≡ restored_refs j saved mid) × (snapshots j t' ≡ snapshots j mid)
    → (refs j t' ≡ restored_refs j (e ∷ saved) t) × (snapshots j t' ≡ snapshots j t)
unfolding lookup entry
restored_other j e saved t mid t' other same h = ground arith

restored_step :
    (j : Str) (e : Str × RefCounts) (saved t t' : Table)
    → lookup str_dec e.0 saved ≡ none
    → (refs j t' ≡ restored_refs j saved (restore_entry e.0 e.1.ref_count t))
      × (snapshots j t' ≡ snapshots j (restore_entry e.0 e.1.ref_count t))
    → (refs j t' ≡ restored_refs j (e ∷ saved) t) × (snapshots j t' ≡ snapshots j t)
restored_step j e saved t t' new h =
    let mid = restore_entry e.0 e.1.ref_count t in
    elim (str_dec j e.0) [
      | yes p ↦ rw p (
          restored_same e.0 e.1 saved t mid t' new (restore_entry_self e.0 e.1.ref_count t)
            (rw p at h))
      | no p ↦ restored_other j e saved t mid t' p (restore_entry_ne j e.0 e.1.ref_count t p) h
    ]

restore_entries-saved_entries :
    (saved t : Table) (rest : Bytes)
    → NodupKeys str_dec saved
    → EntriesFit saved
    → (t' : Table) × (restore_entries (length saved) (saved_entries saved ++ rest) t
        ≡ ok (t', rest))
      × ((j : Str) → (refs j t' ≡ restored_refs j saved t) × (snapshots j t' ≡ snapshots j t))
unfolding saved_entries restore_entries lookup
restore_entries-saved_entries [] t rest u fit = (t, refl, λ j. (refl, refl))
restore_entries-saved_entries (e ∷ saved) t rest u fit =
    let next = restore_entry e.0 e.1.ref_count t in
    let (t', eq, counts) = restore_entries-saved_entries saved next rest u.1 fit.3 in
    (
      t',
      rw
          (
            append_assoc (put_str e.0) (put_int e.1.ref_count ++ saved_entries saved) rest,
            append_assoc (put_int e.1.ref_count) (saved_entries saved) rest,
          )
          (restore_entries_step e (length saved) (saved_entries saved ++ rest) t fit.0 fit.1 ∙ eq),
      λ j. restored_step j e saved t t' u.0 (counts j),
    )

-- To restore a snapshot of one table in another sets the count of every chunk of the snapshot that
-- is in the table to the saved one, leaves a count of 0 for one that is not, and changes neither the
-- counts of the other chunks nor the numbers of snapshots. The keys of the snapshot are distinct,
-- and its counts and lengths fit their types.
pub restore-snapshot :
    (saved t : Table) (rest : Bytes)
    → NodupKeys str_dec saved
    → Fits saved
    → (t' : Table) × (restore ((snapshot saved).0 ++ rest) t ≡ ok (t', rest))
      × ((j : Str) → (refs j t' ≡ restored_refs j saved t) × (snapshots j t' ≡ snapshots j t))
unfolding snapshot restore
restore-snapshot saved t rest u fit =
    let (t', eq, counts) = restore_entries-saved_entries saved t rest u fit.1 in
    (
      t',
      rw
          (
            append_assoc (put_size (length saved)) (saved_entries saved) rest,
            get_size-put_size (length saved) (saved_entries saved ++ rest) fit.0,
            restore,
          )
          eq,
      counts,
    )

skip_entries-saved_entries :
    (t : Table) (rest : Bytes)
    → EntriesFit t
    → skip_entries (length t) (saved_entries t ++ rest) ≡ ok rest
unfolding saved_entries skip_entries put_str
skip_entries-saved_entries [] rest fit = refl
skip_entries-saved_entries (e ∷ t) rest fit =
    let tail = saved_entries t in
    let refs = put_int e.1.ref_count in
    rw
      (
        append_assoc (put_size (length e.0) ++ e.0) (refs ++ tail) rest,
        append_assoc (put_size (length e.0)) e.0 ((refs ++ tail) ++ rest),
        append_assoc refs tail rest,
        get_size-put_size (length e.0) (e.0 ++ (refs ++ (tail ++ rest))) fit.0,
        skip_bytes-append e.0 (refs ++ (tail ++ rest)),
        skip_put_int e.1.ref_count (tail ++ rest),
        skip_entries,
      )
      (skip_entries-saved_entries t rest fit.3)

-- `skip_snapshot` leaves what stands behind the chunk table in the snapshot file, where the lengths
-- fit their types.
pub skip_snapshot-snapshot :
    (t : Table) (rest : Bytes) → Fits t → skip_snapshot ((snapshot t).0 ++ rest) ≡ ok rest
unfolding snapshot skip_snapshot
skip_snapshot-snapshot t rest fit =
    rw
      (
        append_assoc (put_size (length t)) (saved_entries t) rest,
        get_size-put_size (length t) (saved_entries t ++ rest) fit.0,
        skip_snapshot,
      )
      (skip_entries-saved_entries t rest fit.1)
