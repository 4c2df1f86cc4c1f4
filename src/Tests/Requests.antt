-- ===== src/Tests/Requests.antt =====
-- Requests for `.snapshot`, and a listing of the root.
use cloud_file_system.Base.{◌≡◌, refl, List, [], ◌∷◌, ◌++◌, arith}
use cloud_file_system.Base.Outcome.{ok}
use cloud_file_system.Bytes.{Str, str_dec}
use cloud_file_system.Dedup.Counting.{count}
use cloud_file_system.Snapshot.Tree.{slash, is_buffer_path}
use cloud_file_system.FileController.{main_path_to_buffer_path, has_slash}
use cloud_file_system.Fuse.{Commands, stub, readdir}
use cloud_file_system.Fuse.Listing.{append_name, readdir_lem}

abbrev codes : Commands
codes = record {
  cloudfs_snapshot = 1;
  cloudfs_restore = 2;
  cloudfs_snapshot_list = 3;
  cloudfs_delete = 4;
  cloudfs_install_snapshot = 5;
  cloudfs_uninstall_snapshot = 6;
}

abbrev root : Str
root = 47 ∷ 115 ∷ []

-- The file `/f`, which was made under this path.
abbrev file_f : Str
file_f = 47 ∷ 102 ∷ []

-- The buffer file of `/snapshot` is `.snapshot`.
stub_shared :
    main_path_to_buffer_path (root ++ (47 ∷ 115 ∷ 110 ∷ 97 ∷ 112 ∷ 115 ∷ 104 ∷ 111 ∷ 116 ∷ []))
    ≡ root ++ stub
unfolding has_slash main_path_to_buffer_path
stub_shared = refl

-- A name, the name of its buffer file, and the directory itself.
abbrev listed : List Str
listed = (102 ∷ []) ∷ (46 ∷ 102 ∷ []) ∷ (46 ∷ []) ∷ []

readdir_lem_example :
    (all : List Str) × (readdir append_name (slash ∷ []) listed [] ≡ ok all)
    × (count (102 ∷ []) all ≡ 1)
unfolding count str_dec is_buffer_path
readdir_lem_example = readdir_lem (slash ∷ []) (102 ∷ []) listed (omega arith)
