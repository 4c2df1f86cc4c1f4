-- ===== src/ChunkTable.antt =====
-- cloudfs/chunk_table.h and cloudfs/chunk_table.cc: how often each chunk is used by the files, and
-- by how many snapshots. The counts are integers that do not overflow an `int`.
pub mod Counts
pub mod File
pub mod Snapshot
use cloud_file_system.Base.{
  ℕ, zero, suc, Bool, true, false, ◌&&◌, List, [], ◌∷◌, ◌++◌, Option, none, some, length,
  if◌then◌else◌,
}
use cloud_file_system.Base.Dict.{Dict, lookup, insert, erase}
use cloud_file_system.Base.Int.{ℤ, pos, ◌+ℤ◌, ◌-ℤ◌, ltb_ℤ, eqb_ℤ}
use cloud_file_system.Base.Outcome.{Outcome, ok, runtime_error, undefined, ◌>>=◌}
use cloud_file_system.Bytes.{
  Bytes, Str, str_dec, put_size, put_int, put_str, get_size, get_int, get_str, skip_bytes,
}

pub record RefCounts : Type 0 where
  pub ref_count : ℤ
  pub snapshot_ref_count : ℤ

abbrev pub Table : Type 0
Table = Dict Str RefCounts

-- `RefCounts()`.
abbrev pub no_counts : RefCounts
no_counts = record { ref_count = pos 0; snapshot_ref_count = pos 0 }

-- `chunk_table_[key]`, which makes an entry of zeros for a missing key.
unfoldable pub entry : Str → Table → RefCounts
entry key t = elim (lookup str_dec key t) [ none ↦ no_counts | some c ↦ c ]

abbrev pub is_dead : RefCounts → Bool
is_dead c = eqb_ℤ c.ref_count (pos 0) && eqb_ℤ c.snapshot_ref_count (pos 0)

-- True if the chunk is new.
unfoldable pub use_chunk : Str → Table → Table × Bool
use_chunk key t =
    let c = entry key t in
    let c' : RefCounts = record c { ref_count = c.ref_count +ℤ pos 1 } in
    (insert str_dec key c' t, eqb_ℤ c'.ref_count (pos 1) && eqb_ℤ c'.snapshot_ref_count (pos 0))

-- True if nothing uses the chunk any longer.
unfoldable pub release : Str → Table → Outcome (Table × Bool)
release key t = elim (lookup str_dec key t) [
  | none ↦ runtime_error
  | some c ↦
      let c' : RefCounts = record c { ref_count = c.ref_count -ℤ pos 1 } in
      let t' = insert str_dec key c' t in
      let is_last = is_dead c' in ok (if is_last then erase str_dec key t' else t', is_last)
]

-- The loop of `persist` over the entries.
unfoldable pub put_entries : Table → Bytes
put_entries [] = []
put_entries (e ∷ t) =
    put_str e.0 ++ (put_int e.1.ref_count ++ (put_int e.1.snapshot_ref_count ++ put_entries t))

-- The text that `persist` uploads; an empty table uploads nothing.
unfoldable pub persist : Table → Option Bytes
persist [] = none
persist (e ∷ t) = some (put_size (length (e ∷ t)) ++ put_entries (e ∷ t))

-- The loop of the constructor.
unfoldable pub load_entries : ℕ → Bytes → Table → Outcome Table
load_entries zero bs t = ok t
load_entries (suc n) bs t = elim (get_str bs) [
  | none ↦ undefined
  | some (key, bs) ↦ elim (get_int bs) [
    | none ↦ undefined
    | some (refs, bs) ↦ elim (get_int bs) [
      | none ↦ undefined
      | some (snapshots, bs) ↦
          let c : RefCounts = record { ref_count = refs; snapshot_ref_count = snapshots } in
          load_entries n bs (insert str_dec key c t)
    ]
  ]
]

-- The constructor, on what the download leaves in the file: nothing if there is no such object.
unfoldable pub load : Bytes → Outcome Table
load [] = ok []
load (b ∷ bs) = elim (get_size (b ∷ bs)) [
  | none ↦ undefined
  | some (n, rest) ↦ load_entries n rest []
]

-- The loop of `snapshot`: what it writes, and the table with the snapshot's references.
unfoldable pub saved_entries : Table → Bytes
saved_entries [] = []
saved_entries (e ∷ t) = put_str e.0 ++ (put_int e.1.ref_count ++ saved_entries t)

abbrev pub add_snapshot : RefCounts → RefCounts
add_snapshot c =
    if ltb_ℤ (pos 0) c.ref_count
    then record c { snapshot_ref_count = c.snapshot_ref_count +ℤ pos 1 }
    else c

unfoldable pub referenced : Table → Table
referenced [] = []
referenced (e ∷ t) = (e.0, add_snapshot e.1) ∷ referenced t

unfoldable pub snapshot : Table → Bytes × Table
snapshot t = (put_size (length t) ++ saved_entries t, referenced t)

abbrev pub restore_entry : Str → ℤ → Table → Table
restore_entry key refs t = elim (lookup str_dec key t) [
  | none ↦ if ltb_ℤ (pos 0) refs then t else insert str_dec key no_counts t
  | some c ↦ insert str_dec key (record c { ref_count = refs }) t
]

unfoldable pub restore_entries : ℕ → Bytes → Table → Outcome (Table × Bytes)
restore_entries zero bs t = ok (t, bs)
restore_entries (suc n) bs t = elim (get_str bs) [
  | none ↦ undefined
  | some (key, bs) ↦ elim (get_int bs) [
    | none ↦ undefined
    | some (refs, bs) ↦ restore_entries n bs (restore_entry key refs t)
  ]
]

-- The new table, and the rest of the snapshot file.
unfoldable pub restore : Bytes → Table → Outcome (Table × Bytes)
restore bs t = elim (get_size bs) [ none ↦ undefined | some (n, rest) ↦ restore_entries n rest t ]

-- `buffer_controller_->delete_object`, which changes the state of another component, is an argument.
module _ {S : Type 0} (delete_object : Str → S → Outcome S) where
  unfoldable pub drop_snapshot : Str → ℤ → Table × S → Outcome (Table × S)
  drop_snapshot key refs (t, s) = elim (lookup str_dec key t) [
    | none ↦ ok (t, s)
    | some c ↦
        let c' : RefCounts =
          if ltb_ℤ (pos 0) refs
          then record c { snapshot_ref_count = c.snapshot_ref_count -ℤ pos 1 }
          else c in
        let deleted : Outcome (Table × S) =
          delete_object key s >>= λ s'. ok (erase str_dec key (insert str_dec key c' t), s') in
        if is_dead c' then deleted else ok (insert str_dec key c' t, s)
  ]

  unfoldable pub drop_entries : ℕ → Bytes → Table × S → Outcome ((Table × S) × Bytes)
  drop_entries zero bs w = ok (w, bs)
  drop_entries (suc n) bs w = elim (get_str bs) [
    | none ↦ undefined
    | some (key, bs) ↦ elim (get_int bs) [
      | none ↦ undefined
      | some (refs, bs) ↦ do w' ← drop_snapshot key refs w; drop_entries n bs w'
    ]
  ]

  unfoldable pub snapshot_deleted : Bytes → Table × S → Outcome ((Table × S) × Bytes)
  snapshot_deleted bs w = elim (get_size bs) [
    | none ↦ undefined
    | some (n, rest) ↦ drop_entries n rest w
  ]

unfoldable pub skip_entries : ℕ → Bytes → Outcome Bytes
skip_entries zero bs = ok bs
skip_entries (suc n) bs = elim (get_size bs) [
  | none ↦ undefined
  | some (key_len, bs) ↦ elim (skip_bytes key_len bs) [
    | none ↦ undefined
    | some (_, bs) ↦ elim (skip_bytes 4 bs) [ none ↦ undefined | some (_, bs) ↦ skip_entries n bs ]
  ]
]

-- The rest of the snapshot file behind the chunk table.
unfoldable pub skip_snapshot : Bytes → Outcome Bytes
skip_snapshot bs = elim (get_size bs) [ none ↦ undefined | some (n, rest) ↦ skip_entries n rest ]
