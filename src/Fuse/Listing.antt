-- ===== src/Fuse/Listing.antt =====
-- What a listing shows.
use cloud_file_system.Base.{
  ℕ, ◌+◌, ◌≡◌, refl, ap, ◌∙◌, inl, inr, true, false, List, [], ◌∷◌, ◌++◌, some, Option, Bool-cases,
  if◌then◌else◌, arith, length, ◌<◌,
}
use cloud_file_system.Base.Outcome.{ok, ◌>>=◌}
use cloud_file_system.Bytes.{Str, str_dec}
use cloud_file_system.Snapshot.Tree.{slash, same_str, snapshot_name}
use cloud_file_system.Dedup.Counting.{count, count-append}
use cloud_file_system.Fuse.{is_hidden, fill_entries, readdir}

-- A filler with room for every name.
abbrev pub append_name : Str → List Str → Option (List Str)
append_name name buf = some (buf ++ (name ∷ []))

-- How often a name is shown: as often as it is there, but for hidden names, and once for `.snapshot`
-- in the root.
abbrev pub shown : Str → Str → List Str → ℕ
shown path name names =
    (if is_hidden name then 0 else count name names)
    + (if same_str path (slash ∷ []) then count name (snapshot_name ∷ []) else 0)

abbrev visible : Str → List Str → ℕ
visible name names = if is_hidden name then 0 else count name names

visible_hidden :
    (name n : Str) (names : List Str)
    → is_hidden n ≡ true
    → visible name (n ∷ names) ≡ visible name names
unfolding count
visible_hidden name n names hidden = elim (str_dec name n) [
  | yes p ↦ rw (p, hidden) refl
  | no p ↦ ap (λ i. if is_hidden name then 0 else i) (ground (arith, p))
]

visible_name :
    (name n : Str) (names : List Str)
    → is_hidden n ≡ false
    → visible name (n ∷ names) ≡ count name (n ∷ []) + visible name names
unfolding count
visible_name name n names seen = elim (str_dec name n) [
  | yes p ↦ rw (p, seen) (ground arith)
  | no p ↦
      let here : count name (n ∷ names) ≡ count name names = ground (arith, p) in
      let absent : count name (n ∷ []) ≡ 0 = ground (arith, p) in
      ap (λ i. if is_hidden name then 0 else i) here ∙ omega (arith, absent)
]

none_visible : (name : Str) (buf : List Str) → count name buf ≡ count name buf + visible name []
unfolding count
none_visible name buf = ground arith

nothing_counted : (name : Str) → count name [] ≡ 0
unfolding count
nothing_counted name = refl

fill_entries-append :
    (name : Str) (names buf : List Str)
    → (all : List Str) × (fill_entries append_name names buf ≡ ok all)
      × (count name all ≡ count name buf + visible name names)
unfolding fill_entries
fill_entries-append name [] buf = (buf, refl, none_visible name buf)
fill_entries-append name (n ∷ names) buf = elim (Bool-cases (is_hidden n)) [
  | inl hidden ↦
      let (all, eq, counted) = fill_entries-append name names buf in
      (all, rw hidden eq, omega (arith, counted, visible_hidden name n names hidden))
  | inr seen ↦
      let (all, eq, counted) = fill_entries-append name names (buf ++ (n ∷ [])) in
      (
        all,
        rw (seen, ◌>>=◌) eq,
        omega (arith, counted, visible_name name n names seen, count-append name buf (n ∷ [])),
      )
]

-- Where the directory can be read and the filler has room, a listing shows each name of the directory
-- as often as it is there, but `lost+found` and the names of buffer files, which it never shows, and
-- in the root, and only there, it adds `.snapshot`.
pub readdir_lem :
    (path name : Str) (names : List Str)
    → 0 < length names
    → (all : List Str) × (readdir append_name path names [] ≡ ok all)
      × (count name all ≡ shown path name names)
unfolding readdir
readdir_lem path name [] some_name = ground (arith, some_name)
readdir_lem path name (n ∷ names) some_name =
    let (all, eq, counted) = fill_entries-append name (n ∷ names) [] in
    elim (Bool-cases (same_str path (slash ∷ []))) [
      | inl root ↦ (
        all ++ (snapshot_name ∷ []),
        rw (eq, ◌>>=◌, root) refl,
        rw root (
            omega
              (arith, counted, nothing_counted name, count-append name all (snapshot_name ∷ []))),
      )
      | inr below ↦
          (all, rw (eq, ◌>>=◌, below) refl, rw below (omega (arith, counted, nothing_counted name)))
    ]
