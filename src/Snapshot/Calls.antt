-- ===== src/Snapshot/Calls.antt =====
-- The calls of `SnapshotController`. `std::to_string`, libarchive's `tar_file` and `untar_file`, and
-- what `readdir` and the calls on its entries find, are arguments.
use cloud_file_system.Base.{
  ℕ, zero, suc, Bool, true, false, not, List, [], ◌∷◌, ◌++◌, Option, none, some, length, leb, ltb,
  ◌==◌, if◌then◌else◌,
}
use cloud_file_system.Base.Dict.{Dict, lookup, erase}
use cloud_file_system.Base.Outcome.{Outcome, ok, runtime_error, failure, undefined, stuck, ◌>>=◌}
use cloud_file_system.Bytes.{Bytes, Str, str_dec, put_size, get_size}
use cloud_file_system.ChunkTable.{Table, snapshot, restore, snapshot_deleted, skip_snapshot}
use cloud_file_system.Objects.{Objects}
use cloud_file_system.Snapshot.Registry.{
  Registry, get_snapshot_count, set_snapshot_count, get_snapshot_list, set_snapshot_list,
  get_installed_snapshot_count, set_installed_snapshot_count, get_installed_snapshot_list,
  set_installed_snapshot_list,
}
use cloud_file_system.Snapshot.Format.{Platform, Entry, put_entries, get_entries}
use cloud_file_system.Snapshot.Tree.{
  Ssd, Found, walk, restore_tree, install_tree, clear_dir, make_dir, behind, slash,
}

pub record SnapshotController (S : Type 0) : Type 0 where
  pub registry : Registry
  pub chunk_table : Table
  pub objects : S
  pub ssd : Ssd

-- The configuration, and the libraries.
pub record Environment : Type 0 where
  pub ssd_path : Str
  pub threshold : ℕ
  pub platform : Platform
  pub to_string : ℕ → Str
  pub tar_file : Bytes → Bytes
  pub untar_file : Bytes → Option Bytes

abbrev pub max_num_snapshots : ℕ
max_num_snapshots = 8

unfoldable pub contains : ℕ → List ℕ → Bool
contains ts [] = false
contains ts (t ∷ list) = if t == ts then true else contains ts list

-- The loops that leave a timestamp out.
unfoldable pub without : ℕ → List ℕ → List ℕ
without ts [] = []
without ts (t ∷ list) = if t == ts then without ts list else t ∷ without ts list

unfoldable pub insert_sorted : ℕ → List ℕ → List ℕ
insert_sorted ts [] = ts ∷ []
insert_sorted ts (t ∷ list) = if leb ts t then ts ∷ (t ∷ list) else t ∷ insert_sorted ts list

-- `std::sort`.
unfoldable pub sort : List ℕ → List ℕ
sort [] = []
sort (t ∷ list) = insert_sorted t (sort list)

-- The front of a sorted list, up to a timestamp, and the rest.
unfoldable pub split_at : ℕ → List ℕ → List ℕ × List ℕ
split_at ts [] = ([], [])
split_at ts (t ∷ list) =
    let r = split_at ts list in if leb t ts then (t ∷ r.0, r.1) else ([], t ∷ list)

abbrev pub tail : List ℕ → List ℕ
tail [] = []
tail (t ∷ list) = list

-- `snapshot_<timestamp>`.
abbrev pub snapshot_prefix : Str
snapshot_prefix = 115 ∷ 110 ∷ 97 ∷ 112 ∷ 115 ∷ 104 ∷ 111 ∷ 116 ∷ 95 ∷ []

unfoldable pub update_snapshots : List ℕ → Registry → Registry
update_snapshots list r = set_snapshot_list list (set_snapshot_count (length list) r)

unfoldable pub update_installed : List ℕ → Registry → Registry
update_installed list r =
    set_installed_snapshot_list list (set_installed_snapshot_count (length list) r)

-- Whether a directory has directories below it.
unfoldable pub has_dirs : Str → Dict Str Bytes → Bool
has_dirs dir [] = false
has_dirs dir (e ∷ d) = elim (behind dir e.0) [ none ↦ has_dirs dir d | some _ ↦ true ]

-- `remove` of a directory, which leaves one that is not empty.
abbrev pub remove_dir : Str → Ssd → Ssd
remove_dir dir d =
    if has_dirs dir d.directories
    then d
    else record d { directories = erase str_dec dir d.directories }

-- A call whose error code is not tested.
abbrev pub unless_failure {ℓ} : {A : Type ℓ} → A → Outcome A → Outcome A
unless_failure a (ok b) = ok b
unless_failure a runtime_error = runtime_error
unless_failure a failure = ok a
unless_failure a undefined = undefined
unless_failure a stuck = stuck

module _ (env : Environment) (store : Objects) where
  abbrev pub Controller : Type 0
  Controller = SnapshotController store.State

  abbrev pub object_key : ℕ → Str
  object_key ts = snapshot_prefix ++ env.to_string ts

  abbrev pub install_root : ℕ → Str
  install_root ts = env.ssd_path ++ (slash ∷ object_key ts)

  -- The text of a snapshot file.
  abbrev pub snapshot_file : Table → List Entry → Bytes
  snapshot_file t es = put_size (length es) ++ ((snapshot t).0 ++ put_entries es)

  -- The guards of `create_snapshot`, and the list.
  unfoldable pub check_create : ℕ → Registry → Outcome (List ℕ)
  check_create ts r =
      if leb max_num_snapshots (get_snapshot_count r)
      then failure
      else (if ltb 0 (get_installed_snapshot_count r)
          then failure
          else do list ← get_snapshot_list r; (if contains ts list then failure else ok list))

  unfoldable pub create_snapshot :
      (Str → Option (List (Str × Found))) → ℕ → ℕ → Controller → Outcome Controller
  create_snapshot read_dir fuel ts s = do
    list ← check_create ts s.registry
    es ← walk env.threshold read_dir fuel (env.ssd_path ∷ [])
    let tar = env.tar_file (snapshot_file s.chunk_table es)
    ok (record s {
      chunk_table = (snapshot s.chunk_table).1;
      objects = store.upload_file (object_key ts) tar (length tar) s.objects;
      registry = update_snapshots (list ++ (ts ∷ [])) s.registry;
    })

  -- The download of a snapshot.
  unfoldable pub open_snapshot : ℕ → Controller → Outcome Bytes
  open_snapshot ts s = elim (env.untar_file (store.download_file (object_key ts) s.objects)) [
    | none ↦ failure
    | some file ↦ ok file
  ]

  abbrev pub read_count : Bytes → Outcome (ℕ × Bytes)
  read_count file = elim (get_size file) [ none ↦ undefined | some r ↦ ok r ]

  abbrev pub read_entries : ℕ → Bytes → Outcome (List Entry × Bytes)
  read_entries n bs = elim (get_entries env.platform env.threshold n bs) [
    | none ↦ undefined
    | some r ↦ ok r
  ]

  -- The guards of `delete_snapshot`, and the list.
  unfoldable pub check_delete : ℕ → Registry → Outcome (List ℕ)
  check_delete ts r = do
    list ← get_snapshot_list r
    if not (contains ts list) then failure else do
      installed ← get_installed_snapshot_list r
      (if contains ts installed then failure else ok list)

  unfoldable pub delete_snapshot : ℕ → Controller → Outcome Controller
  delete_snapshot ts s = do
    list ← check_delete ts s.registry
    file ← open_snapshot ts s
    (_, rest) ← read_count file
    ((t, o), _) ← snapshot_deleted store.delete_object rest (s.chunk_table, s.objects)
    o' ← store.delete_object (object_key ts) o
    ok (record s {
      chunk_table = t;
      objects = o';
      registry = update_snapshots (without ts list) s.registry;
    })

  -- The guards of `install_snapshot`, and the list of the installed snapshots.
  unfoldable pub check_install : ℕ → Registry → Outcome (List ℕ)
  check_install ts r = do
    list ← get_snapshot_list r
    if not (contains ts list) then failure else do
      installed ← get_installed_snapshot_list r
      (if contains ts installed then failure else ok installed)

  -- `mkdir` of the directory that the snapshot goes to.
  abbrev pub make_root : ℕ → Controller → Outcome Ssd
  make_root ts s = elim (lookup str_dec (install_root ts) s.ssd.directories) [
    | some _ ↦ failure
    | none ↦ ok (make_dir [] (install_root ts) s.ssd)
  ]

  unfoldable pub install_snapshot : ℕ → Controller → Outcome Controller
  install_snapshot ts s = do
    installed ← check_install ts s.registry
    file ← open_snapshot ts s
    root ← make_root ts s
    (entry_count, rest) ← read_count file
    rest' ← skip_snapshot rest
    (es, _) ← read_entries entry_count rest'
    ssd' ← install_tree (install_root ts ++ (slash ∷ [])) (length env.ssd_path) es root
    ok (record s { ssd = ssd'; registry = update_installed (installed ++ (ts ∷ [])) s.registry })

  unfoldable pub uninstall_snapshot : ℕ → Controller → Outcome Controller
  uninstall_snapshot ts s = do
    installed ← get_installed_snapshot_list s.registry
    if not (contains ts installed)
        then failure
        else ok (record s {
          ssd = remove_dir (install_root ts) (clear_dir (install_root ts) s.ssd);
          registry = update_installed (without ts installed) s.registry;
        })

  -- The loop over newer snapshots, which does not test whether its calls succeed.
  unfoldable pub delete_newer : List ℕ → Controller → Outcome Controller
  delete_newer [] s = ok s
  delete_newer (t ∷ list) s = do
    s1 ← unless_failure s (uninstall_snapshot t s)
    s2 ← unless_failure s1 (delete_snapshot t s1)
    delete_newer list s2

  -- The guard of `restore_snapshot`, and the list.
  unfoldable pub check_restore : ℕ → Registry → Outcome (List ℕ)
  check_restore ts r = do
    list ← get_snapshot_list r
    (if contains ts list then ok list else failure)

  -- The first part of `restore_snapshot`: the files and the chunk table.
  unfoldable pub restore_files : ℕ → Controller → Outcome Controller
  restore_files ts s = do
    let cleared = clear_dir env.ssd_path s.ssd
    file ← open_snapshot ts s
    (entry_count, rest) ← read_count file
    (t, rest') ← restore rest s.chunk_table
    (es, _) ← read_entries entry_count rest'
    ok (record s { chunk_table = t; ssd = restore_tree es cleared })

  -- The loop starts at `i + 1`, behind the first of the newer snapshots.
  unfoldable pub restore_snapshot : ℕ → Controller → Outcome Controller
  restore_snapshot ts s = do
    list ← check_restore ts s.registry
    s1 ← restore_files ts s
    let parts = split_at ts (sort list)
    s2 ← delete_newer (tail parts.1) s1
    ok (record s2 { registry = update_snapshots (parts.0) s2.registry })

  -- What is written behind the pointer.
  unfoldable pub list_snapshots : Controller → Outcome (List ℕ)
  list_snapshots s = do list ← get_snapshot_list s.registry; ok (list ++ (0 ∷ []))

  unfoldable pub put_timestamps : List ℕ → Bytes
  put_timestamps [] = []
  put_timestamps (t ∷ list) = put_size t ++ put_timestamps list

  -- An empty list uploads nothing. `key` is the object key of `.snapshot`.
  unfoldable pub persist : Str → Controller → Outcome Controller
  persist key s = do
    list ← get_snapshot_list s.registry
    let bs = put_size (length list) ++ put_timestamps list
    if (length list) == 0
        then ok s
        else ok (record s { objects = store.upload_file key bs (length bs) s.objects })

  unfoldable pub get_timestamps : ℕ → Bytes → Outcome (List ℕ)
  get_timestamps zero bs = ok []
  get_timestamps (suc n) bs = elim (get_size bs) [
    | none ↦ undefined
    | some (t, rest) ↦ do list ← get_timestamps n rest; ok (t ∷ list)
  ]

  unfoldable pub recover_list : Bytes → Controller → Outcome Controller
  recover_list bs s = elim (get_size bs) [
    | none ↦ undefined
    | some (n, rest) ↦ do
      list ← get_timestamps n rest
      ok (record s { registry = set_snapshot_list list (set_snapshot_count n s.registry) })
  ]

  -- The constructor.
  unfoldable pub recover : Str → Controller → Outcome Controller
  recover key s =
      let bs = store.download_file key s.objects in
      if (length bs) == 0 then ok s else recover_list bs s
