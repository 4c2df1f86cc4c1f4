-- ===== src/Tests/Sessions.antt =====
-- A file without deduplication, over a session, and a run of calls on snapshots.
use cloud_file_system.Base.{◌≡◌, refl, true, false, [], ◌∷◌, arith}
unfoldable use cloud_file_system.Base.{ℕ_discrete}
use cloud_file_system.Base.Dict.{lookup}
use cloud_file_system.Base.Outcome.{ok}
use cloud_file_system.Bytes.{Str, str_dec}
use cloud_file_system.CacheReplacer.Recency.{lru}
use cloud_file_system.BufferFile.{delete_object}
use cloud_file_system.BufferFile.Stored.{buffer_objects}
use cloud_file_system.Objects.{Objects}
use cloud_file_system.Snapshot.Tree.{Buffer}
use cloud_file_system.FileController.{Disk, MainFile, regular_file, inode_of, generate_object_key}
use cloud_file_system.NoDedup.{Controller, close_file, truncate_file}
use cloud_file_system.NoDedup.Sessions.{Deletes}
use cloud_file_system.NoDedup.Reopened.{Opens, open_file-close_file, open_file-truncate_file}
use cloud_file_system.Snapshot.Reach.{Sound, no_step, one_more, create_step, Reach-Sound}
use cloud_file_system.Tests.Objects.{memory_cloud, start}
use cloud_file_system.Tests.Snapshots.{env, mounted, undone, registry-Lists, read_dir}

abbrev store : Objects
store = buffer_objects lru memory_cloud

abbrev root : Str
root = 47 ∷ 115 ∷ []

abbrev name : Str
name = 47 ∷ 102 ∷ []

abbrev hidden : Str
hidden = 47 ∷ 115 ∷ 47 ∷ 46 ∷ 102 ∷ []

abbrev main : MainFile
main = record { buffer_path = hidden; is_on_cloud = true; truncated = false; chunkinfo = [] }

abbrev disk_with : Buffer → Disk
disk_with b = record {
  names = (47 ∷ 115 ∷ 47 ∷ 102 ∷ [], 1) ∷ [];
  inodes = (1, regular_file main) ∷ [];
  buffers = (hidden, b) ∷ [];
}

-- Two bytes were written, where there were none.
abbrev written : Buffer
written = record { size = 0; content = 5 ∷ 6 ∷ [] }

abbrev opened : Controller store 1
opened = record {
  disk = disk_with written;
  descriptors = (5, hidden) ∷ [];
  open_files = [];
  objects = start;
}

opened-Deletes : Deletes store 1 main start
unfolding delete_object lookup
opened-Deletes on = (_, refl)

open_file-close_file_example :
    (c1 : Controller store 1) × (close_file store 1 root name 5 opened ≡ ok c1)
    × Opens store 1 root name 7 hidden (5 ∷ 6 ∷ []) c1
unfolding inode_of lookup str_dec ℕ_discrete
open_file-close_file_example =
    open_file-close_file store 1 root name 5 7 main written opened refl refl refl opened-Deletes
      (λ same. ground (arith, same))

abbrev emptied : Buffer
emptied = record { size = 2; content = [] }

-- The file is in the cloud, and not open.
abbrev closed : Controller store 1
closed = record {
  disk = disk_with emptied;
  descriptors = [];
  open_files = [];
  objects = store.upload_file (generate_object_key hidden) (5 ∷ 6 ∷ []) 2 start;
}

open_file-truncate_file_example :
    (c1 : Controller store 1) × (truncate_file store 1 root name 1 closed ≡ ok c1)
    × Opens store 1 root name 7 hidden (5 ∷ 6 ∷ []) c1
unfolding inode_of lookup str_dec ℕ_discrete
open_file-truncate_file_example =
    open_file-truncate_file store 1 root name 7 1 main emptied (5 ∷ 6 ∷ []) closed refl refl refl
      (store.download_file-upload_file (generate_object_key hidden) (5 ∷ 6 ∷ []) start) refl

mounted-Sound : Sound env store mounted
mounted-Sound = ([], [], registry-Lists, (omega arith, tt), tt, λ t h. h)

Reach-Sound_example : Sound env store undone.0
Reach-Sound_example =
    Reach-Sound env store mounted undone.0 (one_more no_step (create_step read_dir 1 4 undone.2))
      mounted-Sound
