-- ===== src/Tests/Rollback.antt =====
-- A snapshot of one file that is restored, and one that is uninstalled.
use cloud_file_system.Base.{ℕ, ◌≡◌, ◌⊎◌, ◌&&◌, not, refl, true, false, [], ◌∷◌, ◌++◌, leb, arith}
use cloud_file_system.Base.Dict.{lookup}
use cloud_file_system.Base.Outcome.{ok, failure}
use cloud_file_system.Bytes.{Str, str_dec}
use cloud_file_system.Snapshot.Registry.{
  Lists, get_snapshot_list, get_items, get_snapshot_count, set_snapshot_list, set_items,
  set_snapshot_count, get_installed_snapshot_list, get_installed_snapshot_count,
}
use cloud_file_system.BufferFile.{download_file, upload_file}
use cloud_file_system.Snapshot.Tree.{
  install_tree, install_entry, UserFile, saved, read_only, behind,
}
use cloud_file_system.Snapshot.Calls.{
  install_snapshot, check_install, open_snapshot, contains, without, install_root, update_snapshots,
  update_installed, restore_snapshot, uninstall_snapshot,
}
use cloud_file_system.Snapshot.Guards.{Distinct}
use cloud_file_system.Snapshot.Install.{update_installed-Lists}
use cloud_file_system.Snapshot.Undo.{update_snapshots-Lists, contains_nil}
use cloud_file_system.Snapshot.Rollback.{
  SameAt, DeletedBelow, uninstall_snapshot_lem, restore_snapshot_one_newer,
}
use cloud_file_system.Snapshot.Runs.{Counted, no_call, one_call, restore_step, Run-Counted}
use cloud_file_system.ChunkTable.{skip_snapshot, snapshot, skip_entries, saved_entries}
use cloud_file_system.Snapshot.Format.{
  get_entries, get_entry, get_regular, get_chunks, put_entries, put_entry, put_chunks,
}
use cloud_file_system.Bytes.{
  skip_bytes, put_int, get_str, get_size, get_bytes, from_le, put_str, put_size, le_bytes,
}
use cloud_file_system.Snapshot.Reinstall.{uninstall_snapshot-install_snapshot}
use cloud_file_system.Tests.Snapshots.{
  env, store, chunk, buffer_name, entries, entries-EntriesFit, table, table-Fits, registry,
  registry-Lists, S, mounted, after, held,
}

abbrev root : Str
root = 47 ∷ 115 ∷ []

-- A file that was made after the snapshot.
abbrev later_file : UserFile
later_file = record { mode = saved []; chunkinfo = []; buffer_path = 47 ∷ 115 ∷ 47 ∷ 46 ∷ 103 ∷ [] }

abbrev with_later : S
with_later = record after {
  ssd = record after.ssd { files = (47 ∷ 115 ∷ 47 ∷ 103 ∷ [], later_file) ∷ [] };
}

-- Two snapshots, of which the newer one is installed.
abbrev both : S
both = record after {
  registry = update_installed (5 ∷ []) (update_snapshots (5 ∷ 3 ∷ []) registry);
}

both-Lists : Lists both.registry (5 ∷ 3 ∷ []) (5 ∷ [])
both-Lists =
    update_installed-Lists (update_snapshots (5 ∷ 3 ∷ []) registry) (5 ∷ 3 ∷ []) [] (5 ∷ [])
      (update_snapshots-Lists registry [] (5 ∷ 3 ∷ []) [] registry-Lists)

both-Distinct : Distinct (5 ∷ 3 ∷ [])
unfolding contains
both-Distinct = (refl, (refl, tt))

five_only : (u : ℕ) → contains u (5 ∷ 3 ∷ []) && not (leb u 3) ≡ true → u ≡ 5
unfolding contains
five_only u h = ground (arith, h)

-- The list before the restore, and the state after it.
both-Counted : Counted env store both
both-Counted = (5 ∷ 3 ∷ [], 5 ∷ [], both-Lists, (omega arith, both-Distinct), (contains_nil 5, tt))

back_to_three : (s' : S) × (restore_snapshot env store 3 both ≡ ok s')
unfolding lookup contains
back_to_three =
    let (s', list', eq, lists, gone, stays, objects, counts) =
      restore_snapshot_one_newer env store 3 5 3 table entries both (5 ∷ 3 ∷ []) (5 ∷ []) both-Lists
        both-Distinct refl refl (omega arith) five_only held (refl, tt) table-Fits (omega arith)
        entries-EntriesFit in
    (s', eq)

Run-Counted_example : Counted env store back_to_three.0
Run-Counted_example =
    Run-Counted env store both back_to_three.0 (one_call no_call (restore_step 3 back_to_three.1))
      both-Counted

-- A snapshot that is installed, with a file, beside a file of the user.
abbrev installed_file : Str
installed_file = install_root env store 3 ++ (47 ∷ 102 ∷ [])

abbrev with_installed : S
with_installed = record mounted {
  registry = update_installed (3 ∷ []) registry;
  ssd = record mounted.ssd {
    files =
        (
          installed_file,
          record { mode = read_only []; chunkinfo = chunk ∷ []; buffer_path = buffer_name },
        )
        ∷ (47 ∷ 115 ∷ 47 ∷ 103 ∷ [], later_file)
        ∷ [];
  };
}

installed-Lists : Lists with_installed.registry [] (3 ∷ [])
installed-Lists = update_installed-Lists registry [] [] (3 ∷ []) registry-Lists

three-Distinct : Distinct (3 ∷ [])
unfolding contains
three-Distinct = (refl, tt)

uninstall_snapshot_lem_example :
    ((true ≡ false) × (uninstall_snapshot env store 3 with_installed ≡ failure))
    ⊎ ((s' : S) × (true ≡ true)
        × (uninstall_snapshot env store 3 with_installed ≡ ok s')
        × Lists s'.registry [] []
        × (contains 3 [] ≡ false)
        × DeletedBelow (install_root env store 3) ((102 ∷ []) ∷ []) with_installed.ssd s'.ssd
        × SameAt (47 ∷ 115 ∷ 47 ∷ 103 ∷ []) with_installed.ssd s'.ssd
        × (s'.objects ≡ with_installed.objects)
        × (s'.chunk_table ≡ with_installed.chunk_table))
unfolding contains without behind
uninstall_snapshot_lem_example =
    uninstall_snapshot_lem env store 3 with_installed [] (3 ∷ []) (102 ∷ []) []
      (47 ∷ 115 ∷ 47 ∷ 103 ∷ []) installed-Lists three-Distinct (refl, tt) tt refl

-- The snapshot of one file, which is installed.
mounted_three : (s' : S) × (install_snapshot env store 3 after ≡ ok s')
unfolding lookup str_dec contains install_snapshot check_install open_snapshot skip_snapshot
    get_entries get_entry get_regular get_chunks get_str get_size get_bytes from_le install_tree
    install_entry put_entries put_entry put_chunks put_str put_size le_bytes get_snapshot_list
    get_items get_snapshot_count update_snapshots set_snapshot_list set_items set_snapshot_count
    get_installed_snapshot_list get_installed_snapshot_count download_file upload_file snapshot
    skip_entries saved_entries skip_bytes put_int
mounted_three = (_, refl)

after-Lists : Lists after.registry (3 ∷ []) []
after-Lists = update_snapshots-Lists registry [] (3 ∷ []) [] registry-Lists

uninstall_snapshot-install_snapshot_example :
    (s2 : S) × (uninstall_snapshot env store 3 mounted_three.0 ≡ ok s2)
    × Lists s2.registry (3 ∷ []) []
    × DeletedBelow (install_root env store 3) ((102 ∷ []) ∷ []) mounted_three.0.ssd s2.ssd
    × (s2.objects ≡ after.objects)
    × (s2.chunk_table ≡ after.chunk_table)
uninstall_snapshot-install_snapshot_example =
    uninstall_snapshot-install_snapshot env store 3 after mounted_three.0 (3 ∷ []) [] (102 ∷ []) []
      after-Lists tt (refl, tt) tt mounted_three.1
