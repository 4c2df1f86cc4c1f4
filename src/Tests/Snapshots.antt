-- ===== src/Tests/Snapshots.antt =====
-- A snapshot of one file, in the bucket in memory.
use cloud_file_system.Base.{
  ℕ, ◌≡◌, ◌==◌, refl, false, List, [], ◌∷◌, ◌++◌, Option, none, some, arith,
}
use cloud_file_system.Base.Dict.{lookup}
use cloud_file_system.Base.Int.{pos}
use cloud_file_system.Base.Outcome.{ok}
use cloud_file_system.Bytes.{Str, str_dec}
use cloud_file_system.Objects.{Objects}
use cloud_file_system.CacheReplacer.Recency.{lru}
use cloud_file_system.BufferFile.{delete_object, upload_file}
use cloud_file_system.BufferFile.Stored.{buffer_objects}
use cloud_file_system.ChunkTable.{Table}
use cloud_file_system.ChunkTable.File.{Fits}
use cloud_file_system.Snapshot.Registry.{
  Registry, Lists, get_snapshot_count, get_snapshot_list, get_installed_snapshot_count,
  get_installed_snapshot_list, get_items, set_items, set_snapshot_list, set_snapshot_count,
}
use cloud_file_system.Snapshot.Format.{
  Platform, Chunk, Entry, regular, EntriesFit, put_entries, get_entries, get_entries-put_entries,
}
use cloud_file_system.Snapshot.Tree.{Found, no_stat, found_file, walk, scan, is_buffer_path}
use cloud_file_system.Snapshot.Calls.{
  Environment, Controller, contains, create_snapshot, delete_snapshot, persist, recover, object_key,
  snapshot_file, update_snapshots,
}
use cloud_file_system.Snapshot.Undo.{
  delete_snapshot-create_snapshot, created, created-Holds, update_snapshots-Lists,
}
use cloud_file_system.Snapshot.Remount.{Bounded, recover-persist}
use cloud_file_system.Tests.Objects.{memory_cloud, start}

abbrev pub platform : Platform
platform = record { sizeof_stat = 2; is_dir = λ st. elim st [ [] ↦ false | b ∷ _ ↦ b == 1 ] }

abbrev pub env : Environment
env = record {
  ssd_path = 47 ∷ 115 ∷ [];
  threshold = 8;
  platform = platform;
  to_string = λ n. n ∷ [];
  tar_file = λ bs. bs;
  untar_file = λ bs. some bs;
}

abbrev pub store : Objects
store = buffer_objects lru memory_cloud

abbrev pub chunk : Chunk
chunk = record { start = 0; len = 2; key = 97 ∷ [] }

abbrev pub buffer_name : Str
buffer_name = 47 ∷ 115 ∷ 47 ∷ 46 ∷ 102 ∷ []

abbrev pub read_dir : Str → Option (List (Str × Found))
read_dir dir = some (
    (46 ∷ [], no_stat)
    ∷ (
      102 ∷ [],
      found_file (0 ∷ 0 ∷ []) (some (chunk ∷ [])) (some buffer_name) (some 2) (some (5 ∷ 6 ∷ [])),
    )
    ∷ [])

abbrev pub entries : List Entry
entries =
    regular (0 ∷ 0 ∷ []) (47 ∷ 115 ∷ 47 ∷ 102 ∷ []) (chunk ∷ []) buffer_name 2 (some (5 ∷ 6 ∷ []))
    ∷ []

walk_lem : walk 8 read_dir 1 ((47 ∷ 115 ∷ []) ∷ []) ≡ ok entries
unfolding walk scan is_buffer_path str_dec
walk_lem = refl

pub entries-EntriesFit : EntriesFit platform 8 entries
entries-EntriesFit = (
  (
    refl,
    refl,
    omega arith,
    omega arith,
    (omega arith, omega arith, omega arith, tt),
    omega arith,
    omega arith,
    refl,
    (refl, omega arith),
  ),
  tt,
)

abbrev pub table : Table
table = (97 ∷ [], record { ref_count = pos 1; snapshot_ref_count = pos 0 }) ∷ []

pub table-Fits : Fits table
table-Fits = (omega arith, (omega arith, omega arith, omega arith, tt))

abbrev pub registry : Registry
registry = record {
  snapshots = record { count = none; items = λ i. none };
  installed = record { count = none; items = λ i. none };
}

pub registry-Lists : Lists registry [] []
unfolding get_snapshot_count get_snapshot_list get_installed_snapshot_count
    get_installed_snapshot_list get_items
registry-Lists = (refl, refl, refl, refl)

abbrev pub S : Type 0
S = Controller env store

abbrev pub mounted : S
mounted = record {
  registry = registry;
  chunk_table = table;
  objects = start;
  ssd = record { directories = []; files = []; buffers = [] };
}

abbrev pub after_at : ℕ → S
after_at ts = created env store ts [] entries mounted

abbrev pub after : S
after = after_at 3

gone :
    (ts : ℕ)
    → (o : store.State) × (store.delete_object (object_key env store ts) (after_at ts).objects
        ≡ ok o)
unfolding delete_object upload_file lookup
gone ts = (_, refl)

pub held :
    env.untar_file (store.download_file (object_key env store 3) after.objects)
    ≡ some (snapshot_file env store table entries)
held = created-Holds env store 3 [] entries mounted refl

get_entries-put_entries_example :
    get_entries platform 8 1 (put_entries entries ++ (9 ∷ [])) ≡ some (entries, 9 ∷ [])
get_entries-put_entries_example =
    get_entries-put_entries platform 8 entries (9 ∷ []) entries-EntriesFit

pub undone :
    (s1 : S) × (s2 : S) × (create_snapshot env store read_dir 1 4 mounted ≡ ok s1)
    × Lists s1.registry (4 ∷ []) []
    × (delete_snapshot env store 4 s1 ≡ ok s2)
    × (s2.chunk_table ≡ table)
    × (s2.ssd ≡ mounted.ssd)
    × Lists s2.registry [] []
unfolding contains lookup
undone =
    delete_snapshot-create_snapshot env store read_dir 1 4 mounted [] entries (gone 4).0
      registry-Lists (omega arith) refl (refl, tt) table-Fits (refl, tt) walk_lem (omega arith) refl
      (gone 4).1

four-Bounded : Bounded (4 ∷ [])
unfolding contains
four-Bounded = (omega arith, (refl, tt))

after-Lists : Lists after.registry (3 ∷ []) []
after-Lists = update_snapshots-Lists registry [] (3 ∷ []) [] registry-Lists

abbrev stub : Str
stub = 46 ∷ 115 ∷ []

persisted : (s' : S) × (persist env store stub after ≡ ok s')
unfolding persist update_snapshots get_snapshot_list get_snapshot_count set_snapshot_list
    set_snapshot_count get_items set_items
persisted = (_, refl)

recover-persist_example :
    (s'' : S) × (recover env store stub (record persisted.0 { registry = registry }) ≡ ok s'')
    × Lists s''.registry (3 ∷ []) []
    × (s''.chunk_table ≡ persisted.0.chunk_table)
recover-persist_example =
    recover-persist env store stub after persisted.0 (3 ∷ []) [] [] registry after-Lists
      (omega arith) (omega arith) (omega arith, tt) persisted.1 registry-Lists
