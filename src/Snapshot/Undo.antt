-- ===== src/Snapshot/Undo.antt =====
-- Snapshots that are deleted or restored again.
use cloud_file_system.Base.{
  ℕ, ◌^◌, ◌<◌, ◌≡◌, refl, ◌∙◌, true, false, List, [], ◌∷◌, ◌++◌, Option, some, length, arith,
}
use mathlib.Core.List.{append-nil}
use cloud_file_system.Base.Dict.{NodupKeys}
use cloud_file_system.Base.Outcome.{ok, >>=-eq_of_ok}
use cloud_file_system.Bytes.{Bytes, Str, str_dec}
use cloud_file_system.Bytes.RoundTrip.{get_size-put_size}
use cloud_file_system.ChunkTable.{Table, snapshot, snapshot_deleted, restore}
use cloud_file_system.ChunkTable.Counts.{refs, snapshots}
use cloud_file_system.ChunkTable.File.{Fits}
use cloud_file_system.ChunkTable.Snapshot.{
  Live, snapshot_deleted-snapshot, restored_refs, restore-snapshot,
}
use cloud_file_system.Objects.{Objects}
use cloud_file_system.Snapshot.Registry.{Registry, Lists, set_snapshot_list-Lists}
use cloud_file_system.Snapshot.Format.{Entry, EntriesFit, put_entries, get_entries-put_entries}
use cloud_file_system.Snapshot.Tree.{Found, walk, clear_dir, restore_tree}
use cloud_file_system.Snapshot.Calls.{
  Environment, Controller, contains, without, max_num_snapshots, check_create, check_delete,
  object_key, snapshot_file, create_snapshot, delete_snapshot, open_snapshot, update_snapshots,
  read_count, read_entries, restore_files,
}
use cloud_file_system.Snapshot.Guards.{check_create_lem, check_delete_lem, without-snoc}

pub update_snapshots-Lists :
    (r : Registry) (old list installed : List ℕ)
    → Lists r old installed
    → Lists (update_snapshots list r) list installed
unfolding update_snapshots
update_snapshots-Lists r old list installed h = set_snapshot_list-Lists r old list installed h

pub contains-snoc : (ts : ℕ) (list : List ℕ) → contains ts (list ++ (ts ∷ [])) ≡ true
unfolding contains
contains-snoc ts [] = ground arith
contains-snoc ts (t ∷ list) = ground (arith, contains-snoc ts list)

pub contains_nil : (ts : ℕ) → contains ts [] ≡ false
unfolding contains
contains_nil ts = refl

module _ (env : Environment) (store : Objects) where
  -- The state after `create_snapshot`.
  abbrev pub created : ℕ → List ℕ → List Entry → Controller env store → Controller env store
  created ts list es s =
      let tar = env.tar_file (snapshot_file env store s.chunk_table es) in
      record s {
        chunk_table = (snapshot s.chunk_table).1;
        objects = store.upload_file (object_key env store ts) tar (length tar) s.objects;
        registry = update_snapshots (list ++ (ts ∷ [])) s.registry;
      }

  create_snapshot_eq :
      (read_dir : Str → Option (List (Str × Found))) (fuel ts : ℕ) (s : Controller env store)
      (list : List ℕ) (es : List Entry)
      → Lists s.registry list []
      → length list < max_num_snapshots
      → contains ts list ≡ false
      → walk env.threshold read_dir fuel (env.ssd_path ∷ []) ≡ ok es
      → create_snapshot env store read_dir fuel ts s ≡ ok (created ts list es s)
  unfolding create_snapshot
  create_snapshot_eq read_dir fuel ts s list es h few new walked =
      let let_through : check_create env store ts s.registry ≡ ok list =
        check_create_lem env store ts s.registry list [] h ∙ ground arith in
      >>=-eq_of_ok (check_create env store ts s.registry) _ let_through
      ∙ >>=-eq_of_ok (walk env.threshold read_dir fuel (env.ssd_path ∷ [])) _ walked

  -- The object of a snapshot holds this file.
  abbrev pub Holds : ℕ → Bytes → Controller env store → Type 0
  Holds ts file s =
      env.untar_file (store.download_file (object_key env store ts) s.objects) ≡ some file

  open_snapshot_lem :
      (ts : ℕ) (file : Bytes) (s : Controller env store)
      → Holds ts file s
      → open_snapshot env store ts s ≡ ok file
  unfolding open_snapshot
  open_snapshot_lem ts file s h = rw (h, open_snapshot) refl

  pub created-Holds :
      (ts : ℕ) (list : List ℕ) (es : List Entry) (s : Controller env store)
      → (let file = snapshot_file env store s.chunk_table es in
          env.untar_file (env.tar_file file) ≡ some file → Holds ts file (created ts list es s))
  created-Holds ts list es s back =
      let tar = env.tar_file (snapshot_file env store s.chunk_table es) in
      rw (store.download_file-upload_file (object_key env store ts) tar s.objects) back

  read_count_lem :
      (t : Table) (es : List Entry)
      → length es < 2 ^ 64
      → read_count env store (snapshot_file env store t es)
        ≡ ok (length es, (snapshot t).0 ++ put_entries es)
  read_count_lem t es small =
      rw (get_size-put_size (length es) ((snapshot t).0 ++ put_entries es) small, read_count) refl

  pub delete_snapshot-create_snapshot :
      (read_dir : Str → Option (List (Str × Found))) (fuel ts : ℕ) (s : Controller env store)
      (list : List ℕ) (es : List Entry) (o : store.State)
      → Lists s.registry list []
      → length list < max_num_snapshots
      → contains ts list ≡ false
      → NodupKeys str_dec s.chunk_table
      → Fits s.chunk_table
      → Live s.chunk_table
      → walk env.threshold read_dir fuel (env.ssd_path ∷ []) ≡ ok es
      → length es < 2 ^ 64
      → (let file = snapshot_file env store s.chunk_table es in
          env.untar_file (env.tar_file file) ≡ some file)
      → store.delete_object (object_key env store ts) (created ts list es s).objects ≡ ok o
      → (s1 : Controller env store) × (s2 : Controller env store) × (create_snapshot env store
            read_dir fuel ts s
          ≡ ok s1)
        × Lists s1.registry (list ++ (ts ∷ [])) []
        × (delete_snapshot env store ts s1 ≡ ok s2)
        × (s2.chunk_table ≡ s.chunk_table)
        × (s2.ssd ≡ s.ssd)
        × Lists s2.registry list []
  unfolding delete_snapshot
  delete_snapshot-create_snapshot read_dir fuel ts s list es o h few new u fit live walked small
        back gone =
      let s1 = created ts list es s in
      let file = snapshot_file env store s.chunk_table es in
      let list1 = list ++ (ts ∷ []) in
      let h1 = update_snapshots-Lists s.registry list list1 [] h in
      let let_through : check_delete env store ts s1.registry ≡ ok list1 =
        check_delete_lem env store ts s1.registry list1 [] h1
        ∙ rw (contains-snoc ts list, contains_nil ts) refl in
      let opened = open_snapshot_lem ts file s1 (created-Holds ts list es s back) in
      let s2 : Controller env store = record s1 {
        chunk_table = s.chunk_table;
        objects = o;
        registry = update_snapshots (without ts list1) s1.registry;
      } in
      let deleted : delete_snapshot env store ts s1 ≡ ok s2 =
        >>=-eq_of_ok (check_delete env store ts s1.registry) _ let_through
        ∙ >>=-eq_of_ok (open_snapshot env store ts s1) _ opened
        ∙ >>=-eq_of_ok (read_count env store file) _ (read_count_lem s.chunk_table es small)
        ∙ >>=-eq_of_ok
            (snapshot_deleted store.delete_object ((snapshot s.chunk_table).0 ++ put_entries es)
              ((snapshot s.chunk_table).1, s1.objects))
            _
            (snapshot_deleted-snapshot store.delete_object s.chunk_table s1.objects (put_entries es)
              u fit live)
        ∙ >>=-eq_of_ok (store.delete_object (object_key env store ts) s1.objects) _ gone in
      let h2 : Lists (update_snapshots (without ts list1) s1.registry) list [] =
        rw (without-snoc ts list new) (update_snapshots-Lists s1.registry list1 list [] h1) in
      (
        s1,
        s2,
        create_snapshot_eq read_dir fuel ts s list es h few new walked,
        h1,
        deleted,
        refl,
        refl,
        h2,
      )

  -- The steps of `restore_files`.
  pub restore_files_eq :
      (ts : ℕ) (t : Table) (es : List Entry) (s : Controller env store)
      → Holds ts (snapshot_file env store t es) s
      → NodupKeys str_dec t
      → Fits t
      → length es < 2 ^ 64
      → EntriesFit env.platform env.threshold es
      → (s' : Controller env store) × (restore_files env store ts s ≡ ok s')
        × (s'.ssd ≡ restore_tree es (clear_dir env.ssd_path s.ssd))
        × (s'.objects ≡ s.objects)
        × (s'.registry ≡ s.registry)
        × ((j : Str)
            → (refs j s'.chunk_table ≡ restored_refs j t s.chunk_table)
              × (snapshots j s'.chunk_table ≡ snapshots j s.chunk_table))
  unfolding restore_files
  restore_files_eq ts t es s held u fit small entries =
      let file = snapshot_file env store t es in
      let (t', eq, counts) = restore-snapshot t s.chunk_table (put_entries es) u fit in
      let read =
        rw (append-nil (put_entries es)) at
          (get_entries-put_entries env.platform env.threshold es [] entries) in
      let read_all : read_entries env store (length es) (put_entries es) ≡ ok (es, []) =
        rw (read, read_entries) refl in
      (
        record s { chunk_table = t'; ssd = restore_tree es (clear_dir env.ssd_path s.ssd) },
        >>=-eq_of_ok (open_snapshot env store ts s) _ (open_snapshot_lem ts file s held)
            ∙ >>=-eq_of_ok (read_count env store file) _ (read_count_lem t es small)
            ∙ >>=-eq_of_ok (restore ((snapshot t).0 ++ put_entries es) s.chunk_table) _ eq
            ∙ >>=-eq_of_ok (read_entries env store (length es) (put_entries es)) _ read_all,
        refl,
        refl,
        refl,
        counts,
      )
