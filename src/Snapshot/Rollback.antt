-- ===== src/Snapshot/Rollback.antt =====
-- The files and the lists after `uninstall_snapshot` and after a restore.
use cloud_file_system.Base.{
  ℕ, ◌^◌, ◌<◌, ◌≡◌, refl, sym, ap, ◌∙◌, ◌⊎◌, inl, inr, true, false, not, ◌&&◌, List, [], ◌∷◌, ◌++◌,
  none, length, leb, if◌then◌else◌, arith, Bool-cases,
}
use cloud_file_system.Base.Dict.{lookup, NodupKeys}
use cloud_file_system.Base.Outcome.{ok, failure, >>=-eq_of_ok}
use cloud_file_system.Bytes.{Bytes, Str, str_dec}
use cloud_file_system.ChunkTable.{Table}
use cloud_file_system.ChunkTable.Counts.{snapshots}
use cloud_file_system.ChunkTable.File.{Fits}
use cloud_file_system.Objects.{Objects}
use cloud_file_system.Snapshot.Registry.{Lists}
use cloud_file_system.Snapshot.Format.{Entry, EntriesFit}
use cloud_file_system.Snapshot.Tree.{Ssd, behind, keeps_name, clear_dir}
use cloud_file_system.Snapshot.Calls.{
  Environment, Controller, contains, without, sort, split_at, delete_newer, has_dirs, remove_dir,
  install_root, snapshot_file, check_restore, update_snapshots, restore_files, restore_snapshot,
  uninstall_snapshot,
}
use cloud_file_system.Snapshot.Guards.{Distinct, check_restore_lem}
use cloud_file_system.Snapshot.Cleared.{
  Plain, AllPlain, path_of, clear_dir_below, clear_dir_outside,
}
use cloud_file_system.Snapshot.Sorted.{
  contains-sort, sort-Sorted, sort-Distinct, split_at_lem, split_at-Distinct, contains_only_one,
}
use cloud_file_system.Snapshot.Undo.{Holds, update_snapshots-Lists, restore_files_eq}
use cloud_file_system.Snapshot.Install.{uninstalled, uninstall_snapshot_eq}

remove_dir_files :
    (dir : Str) (d : Ssd)
    → ((remove_dir dir d).files ≡ d.files) × ((remove_dir dir d).buffers ≡ d.buffers)
remove_dir_files dir d = elim (Bool-cases (has_dirs dir d.directories)) [
  | inl some_below ↦ (rw (some_below, remove_dir) refl, rw (some_below, remove_dir) refl)
  | inr empty ↦ (rw (empty, remove_dir) refl, rw (empty, remove_dir) refl)
]

-- A file at a path, and a buffer file at a path, are those of another state.
abbrev pub SameAt : Str → Ssd → Ssd → Type 0
SameAt p d d' =
    (lookup str_dec p d'.files ≡ lookup str_dec p d.files)
    × (lookup str_dec p d'.buffers ≡ lookup str_dec p d.buffers)

-- Files below a directory are deleted, but for those with a name in their path that is passed over.
abbrev pub DeletedBelow : Str → List Str → Ssd → Ssd → Type 0
DeletedBelow dir ns d d' =
    (lookup str_dec (dir ++ path_of ns) d'.files
      ≡ (if keeps_name ns then lookup str_dec (dir ++ path_of ns) d.files else none))
    × (lookup str_dec (dir ++ path_of ns) d'.buffers
        ≡ (if keeps_name ns then lookup str_dec (dir ++ path_of ns) d.buffers else none))

module _ (env : Environment) (store : Objects) where
  -- With the lists in the attributes, `uninstall_snapshot` is refused for a snapshot that is not
  -- installed. For an installed one it succeeds, and takes it out of the list of the installed ones,
  -- which are different: every file and every buffer file below the directory of the snapshot is
  -- then gone, if its path has no name that the deletion passes over; those that are not below it,
  -- the list of the snapshots, the objects and the chunk table stay as they were. No file is a
  -- symbolic link, so that the deletion does not stop half way.
  pub uninstall_snapshot_lem :
      (ts : ℕ) (s : Controller env store) (list installed : List ℕ) (n : Str) (ns : List Str)
      (other : Str)
      → Lists s.registry list installed
      → Distinct installed
      → Plain n
      → AllPlain ns
      → behind (install_root env store ts) other ≡ none
      → ((contains ts installed ≡ false) × (uninstall_snapshot env store ts s ≡ failure))
        ⊎ ((s' : Controller env store) × (contains ts installed ≡ true)
            × (uninstall_snapshot env store ts s ≡ ok s')
            × Lists s'.registry list (without ts installed)
            × (contains ts (without ts installed) ≡ false)
            × DeletedBelow (install_root env store ts) (n ∷ ns) s.ssd s'.ssd
            × SameAt other s.ssd s'.ssd
            × (s'.objects ≡ s.objects)
            × (s'.chunk_table ≡ s.chunk_table))
  uninstall_snapshot_lem ts s list installed n ns other h d plain all outside =
      let (eq, lists, distinct, gone) = uninstall_snapshot_eq env store ts s list installed h d in
      let root = install_root env store ts in
      let cleared = clear_dir root s.ssd in
      let (files, buffers) = remove_dir_files root cleared in
      let below = clear_dir_below root n ns s.ssd plain all in
      let away = clear_dir_outside root other s.ssd outside in
      elim (Bool-cases (contains ts installed)) [
        | inl there ↦ inr (
          uninstalled env store ts installed s,
          there,
          rw there at eq,
          lists,
          gone,
          (
            ap (λ d. lookup str_dec (root ++ path_of (n ∷ ns)) d) files ∙ below.0,
            ap (λ d. lookup str_dec (root ++ path_of (n ∷ ns)) d) buffers ∙ below.1,
          ),
          (
            ap (λ d. lookup str_dec other d) files ∙ away.0,
            ap (λ d. lookup str_dec other d) buffers ∙ away.1,
          ),
          refl,
          refl,
        )
        | inr absent ↦ inl (absent, rw absent at eq)
      ]

  -- The newer snapshots, where there is one.
  newer_only :
      (ts newer : ℕ) (list : List ℕ)
      → Distinct list
      → contains newer list ≡ true
      → ts < newer
      → ((u : ℕ) → contains u list && not (leb u ts) ≡ true → u ≡ newer)
      → (split_at ts (sort list)).1 ≡ newer ∷ []
  newer_only ts newer list d there later only =
      let sorted = sort-Sorted list in
      let parts = λ (u : ℕ).
        (split_at_lem ts u (sort list) sorted).1
        ∙ ap (λ b. b && not (leb u ts)) (contains-sort u list) in
      contains_only_one newer (split_at ts (sort list)).1
        (split_at-Distinct ts (sort list) sorted (sort-Distinct list d)).1
        (parts newer ∙ ground (arith, there, later)) (λ u h. only u (sym (parts u) ∙ h))

  pub restore_snapshot_one_newer :
      (ts newer other : ℕ) (t : Table) (es : List Entry) (s : Controller env store)
      (list installed : List ℕ)
      → Lists s.registry list installed
      → Distinct list
      → contains ts list ≡ true
      → contains newer list ≡ true
      → ts < newer
      → ((u : ℕ) → contains u list && not (leb u ts) ≡ true → u ≡ newer)
      → Holds env store ts (snapshot_file env store t es) s
      → NodupKeys str_dec t
      → Fits t
      → length es < 2 ^ 64
      → EntriesFit env.platform env.threshold es
      → (s' : Controller env store) × (list' : List ℕ) × (restore_snapshot env store ts s ≡ ok s')
        × Lists s'.registry list' installed
        × (contains newer list' ≡ false)
        × (contains other list' ≡ contains other list && leb other ts)
        × (s'.objects ≡ s.objects)
        × ((j : Str) → snapshots j s'.chunk_table ≡ snapshots j s.chunk_table)
  unfolding restore_snapshot delete_newer
  restore_snapshot_one_newer ts newer other t es s list installed h d listed there later only held u
        fit small entries =
      let (s1, eq, tree, objects, registry, counts) =
        restore_files_eq env store ts t es s held u fit small entries in
      let let_through : check_restore env store ts s.registry ≡ ok list =
        check_restore_lem env store ts s.registry list installed h ∙ rw listed refl in
      let behind_ts = newer_only ts newer list d there later only in
      let front = λ (v : ℕ).
        (split_at_lem ts v (sort list) (sort-Sorted list)).0
        ∙ ap (λ b. b && leb v ts) (contains-sort v list) in
      let list' = (split_at ts (sort list)).0 in
      (
        record s1 { registry = update_snapshots list' s1.registry },
        list',
        >>=-eq_of_ok (check_restore env store ts s.registry) _ let_through
            ∙ >>=-eq_of_ok (restore_files env store ts s) _ eq
            ∙ rw behind_ts refl,
        rw registry (update_snapshots-Lists s.registry list list' installed h),
        front newer ∙ ground (arith, later),
        front other,
        objects,
        λ j. (counts j).1,
      )
