-- ===== src/NoDedup.antt =====
-- `CloudfsControllerNoDedup` of cloudfs/cloudfs_controller.cc: the controller that stores a large file
-- as one object. Its main files are those of FileController; a descriptor is that of a buffer file.
-- A code that `delete_object` returns is not looked at by the source; the model ends there.
pub mod Sessions
pub mod Reopened
use cloud_file_system.Base.{
  ℕ, ◌-◌, Bool, true, false, not, ◌||◌, List, [], ◌∷◌, ◌++◌, Option, none, some, length, take,
  replicate, ltb, ◌==◌, if◌then◌else◌, ℕ_discrete,
}
use cloud_file_system.Base.Dict.{Dict, lookup, insert, erase}
use cloud_file_system.Base.Outcome.{Outcome, ok, failure, undefined, ◌>>=◌}
use cloud_file_system.Bytes.{Bytes, Str, str_dec, write_at, read_at}
use cloud_file_system.Objects.{Objects}
use cloud_file_system.Snapshot.Tree.{Buffer}
use cloud_file_system.FileController.{
  Disk, MainFile, OpenFile, regular_file, other_file, inode_of, main_file, set_main, buffer_file,
  set_buffer, generate_object_key, unlink_main, unlink_buffer, is_last_link, resize,
}

-- `S` is the state of the buffer file controller.
pub record NoDedupController (S : Type 0) : Type 0 where
  pub disk : Disk
  pub descriptors : Dict ℕ Str
  pub open_files : Dict ℕ OpenFile
  pub objects : S

-- `open_files_[fd].is_dirty_`: a missing entry is made, with zeros.
abbrev pub is_dirty : ℕ → Dict ℕ OpenFile → Bool
is_dirty fd open_files = elim (lookup ℕ_discrete fd open_files) [
  | none ↦ false
  | some f ↦ f.is_dirty
]

module _ (store : Objects) (threshold : ℕ) where
  abbrev pub Controller : Type 0
  Controller = NoDedupController store.State

  -- The bytes that a file has while it is open: its object, if it is in the cloud.
  abbrev pub fetched : MainFile → Buffer → Controller → Bytes
  fetched m b c =
      if m.is_on_cloud
      then store.download_file (generate_object_key m.buffer_path) c.objects
      else b.content

  -- `fd` is the number that `open` gives. `O_TRUNC` empties the main file and the buffer file. A buffer
  -- file that is missing fails, also if the download would make a new one, without a size.
  unfoldable pub open_file : Str → Str → Bool → ℕ → Controller → Outcome Controller
  open_file ssd_path path truncates fd c = do
    let main_path = ssd_path ++ path
    m ← main_file main_path c.disk
    b ← buffer_file m.buffer_path c.disk
    let content = if truncates then [] else fetched m b c
    let m' : MainFile = if truncates then record m { chunkinfo = [] } else m
    let f : OpenFile = record {
      main_path = main_path;
      start = 0;
      len = 0;
      is_dirty = false;
      chunks = [];
      op_fd = 0;
    }
    ok (record c {
      disk =
          set_buffer m.buffer_path (record b { content = content }) (set_main main_path m' c.disk);
      descriptors = insert ℕ_discrete fd m.buffer_path c.descriptors;
      open_files = insert ℕ_discrete fd f c.open_files;
    })

  abbrev pub described : ℕ → Controller → Outcome (Str × Buffer)
  described fd c = elim (lookup ℕ_discrete fd c.descriptors) [
    | none ↦ failure
    | some p ↦ buffer_file p c.disk >>= λ b. ok (p, b)
  ]

  unfoldable pub read_file : ℕ → ℕ → ℕ → Controller → Outcome Bytes
  read_file fd size offset c = do (path, b) ← described fd c; ok (read_at size offset b.content)

  abbrev pub mark_dirty : ℕ → Dict ℕ OpenFile → Dict ℕ OpenFile
  mark_dirty fd open_files = elim (lookup ℕ_discrete fd open_files) [
    | none ↦
        insert ℕ_discrete fd
          (record { main_path = []; start = 0; len = 0; is_dirty = true; chunks = []; op_fd = 0 })
          open_files
    | some f ↦ insert ℕ_discrete fd (record f { is_dirty = true }) open_files
  ]

  -- `pwrite` writes all of its bytes.
  unfoldable pub write_file : ℕ → Bytes → ℕ → Controller → Outcome (ℕ × Controller)
  write_file fd buf offset c = do
    (path, b) ← described fd c
    let content = write_at offset buf b.content
    ok (
      length buf,
      record c {
        disk = set_buffer path (record { size = length content; content = content }) c.disk;
        open_files = mark_dirty fd c.open_files;
      },
    )

  -- A large file goes to the cloud, and its buffer file is emptied.
  abbrev pub uploaded : Str → MainFile → Bytes → Controller → Controller
  uploaded main_path m content c = record c {
    disk =
        set_buffer m.buffer_path (record { size = length content; content = [] })
          (set_main main_path (record m { is_on_cloud = true }) c.disk);
    objects =
        store.upload_file (generate_object_key m.buffer_path) content (length content) c.objects;
  }

  -- A small file stays in its buffer file.
  abbrev pub kept : Str → MainFile → Bytes → store.State → Controller → Controller
  kept main_path m content s c = record c {
    disk =
        set_buffer m.buffer_path (record { size = length content; content = content })
          (set_main main_path (record m { is_on_cloud = false }) c.disk);
    objects = s;
  }

  -- The part of `close_file` for a file that has changed.
  unfoldable pub save : Str → MainFile → Bytes → Controller → Outcome Controller
  save main_path m content c =
      let key = generate_object_key m.buffer_path in
      let local : Outcome Controller =
        (if m.is_on_cloud then store.delete_object key c.objects else ok c.objects) >>= λ s.
        ok (kept main_path m content s c) in
      if ltb threshold (length content) then ok (uploaded main_path m content c) else local

  -- The part for a file that was only read.
  unfoldable pub put_back : MainFile → Bytes → Controller → Controller
  put_back m content c =
      let local = if m.is_on_cloud then [] else content in
      record c {
        disk = set_buffer m.buffer_path (record { size = length content; content = local }) c.disk;
      }

  unfoldable pub close_file : Str → Str → ℕ → Controller → Outcome Controller
  close_file ssd_path path fd c = do
    let main_path = ssd_path ++ path
    m ← main_file main_path c.disk
    closed ← described fd c
    b ← buffer_file m.buffer_path c.disk
    let changed = is_dirty fd c.open_files || not (length b.content == b.size)
    let left : Controller = record c { descriptors = erase ℕ_discrete fd c.descriptors }
    let saved = save main_path m b.content left
    c' ← (if changed then saved else ok (put_back m b.content left))
    ok (record c' { open_files = erase ℕ_discrete fd c'.open_files })

  unfoldable pub unlink_file : Str → Str → Controller → Outcome Controller
  unlink_file ssd_path path c = do
    let main_path = ssd_path ++ path
    c1 ← (elim (inode_of main_path c.disk) [
      | none ↦ failure
      | some (other_file size) ↦ ok c
      | some (regular_file m) ↦
          let deleted : Outcome Controller =
            (if m.is_on_cloud
              then store.delete_object (generate_object_key m.buffer_path) c.objects
              else ok c.objects)
            >>= λ s. unlink_buffer m.buffer_path c.disk >>= λ d.
                ok (record c { disk = d; objects = s }) in
          if is_last_link main_path c.disk then deleted else ok c
    ])
    d ← unlink_main main_path c1.disk
    ok (record c1 { disk = d })

  unfoldable pub truncate_file : Str → Str → ℕ → Controller → Outcome Controller
  truncate_file ssd_path path size c = do
    m ← main_file (ssd_path ++ path) c.disk
    b ← buffer_file m.buffer_path c.disk
    ok (record c {
      disk = set_buffer m.buffer_path (record b { content = resize size b.content }) c.disk;
    })
