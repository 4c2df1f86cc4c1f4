-- ===== src/Snapshot/Tree.antt =====
-- The files under `ssd_path`: the walk over the directories when a snapshot is made, what restoring or
-- installing an entry does, and `clear_dir`. A path names a directory, a file of the user or a buffer
-- file. `read_dir` lists a directory, as `opendir`, `readdir`, `stat` and the attributes give it.
use cloud_file_system.Base.{
  ℕ, zero, suc, Bool, true, false, not, ◌&&◌, ◌||◌, List, [], ◌∷◌, ◌++◌, Option, none, some, length,
  take, drop, leb, ◌==◌, if◌then◌else◌,
}
use cloud_file_system.Base.Dict.{Dict, lookup, insert}
use cloud_file_system.Base.Outcome.{Outcome, ok, runtime_error, failure, stuck, ◌>>=◌}
use cloud_file_system.Bytes.{Bytes, Str, str_dec}
use cloud_file_system.Snapshot.Format.{Chunk, Entry, directory, regular}

-- The mode and the times of a restored file are those of its `struct stat`, but an installed file
-- has the mode 0444.
pub data Mode : Type 0 where
  saved : Bytes → Mode
  read_only : Bytes → Mode

pub record UserFile : Type 0 where
  pub mode : Mode
  pub chunkinfo : List Chunk
  pub buffer_path : Str

pub record Buffer : Type 0 where
  pub size : ℕ
  pub content : Bytes

pub record Ssd : Type 0 where
  pub directories : Dict Str Bytes
  pub files : Dict Str UserFile
  pub buffers : Dict Str Buffer

-- What `readdir` and the calls on its entries find: `none` for a call that fails.
pub data Found : Type 0 where
  no_stat : Found
  found_dir : Bytes → Found
  found_file : Bytes → Option (List Chunk) → Option Str → Option ℕ → Option Bytes → Found

abbrev pub slash : ℕ
slash = 47

abbrev pub dot : ℕ
dot = 46

abbrev pub lost_found : Str
lost_found = 108 ∷ 111 ∷ 115 ∷ 116 ∷ 43 ∷ 102 ∷ 111 ∷ 117 ∷ 110 ∷ 100 ∷ []

abbrev pub same_str : Str → Str → Bool
same_str a b = elim (str_dec a b) [ yes _ ↦ true | no _ ↦ false ]

-- `is_buffer_path`. `path[0]` of an empty string is the null character.
unfoldable pub is_buffer_path : Str → Bool
is_buffer_path [] = false
is_buffer_path (c ∷ path) =
    not (same_str (c ∷ path) (dot ∷ []) || same_str (c ∷ path) (dot ∷ dot ∷ [])) && (c == dot)

-- The names that `create_snapshot` passes over.
abbrev pub is_skipped : Str → Bool
is_skipped name =
    same_str name lost_found
    || (same_str name (dot ∷ []) || (same_str name (dot ∷ dot ∷ []) || is_buffer_path name))

-- The content of a small file, of which `size` bytes are read.
abbrev pub small_content : ℕ → ℕ → Option Bytes → Outcome (Option Bytes)
small_content threshold size content = if not (leb size threshold) then ok none else (elim content [
  | none ↦ failure
  | some bs ↦ if leb size (length bs) then ok (some (take size bs)) else failure
])

abbrev pub entry_of : ℕ → Str → Found → Outcome Entry
entry_of threshold path no_stat = failure
entry_of threshold path (found_dir st) = ok (directory st path)
entry_of threshold path (found_file st none buffer_path size content) = failure
entry_of threshold path (found_file st (some chunks) none size content) = failure
entry_of threshold path (found_file st (some chunks) (some buffer_path) none content) = failure
entry_of threshold path (found_file st (some chunks) (some buffer_path) (some size) content) = do
  c ← small_content threshold size content
  ok (regular st path chunks buffer_path size c)

abbrev pub dirs_of : Entry → List Str
dirs_of (directory st path) = path ∷ []
dirs_of (regular st path chunks buffer_path size content) = []

-- The inner loop: the entries of a directory, and the directories that are added to the queue.
unfoldable pub scan : ℕ → Str → List (Str × Found) → Outcome (List Entry × List Str)
scan threshold dir [] = ok ([], [])
scan threshold dir (e ∷ es) =
    let later = scan threshold dir es in
    if is_skipped e.0 then later else do
      here ← entry_of threshold (dir ++ (slash ∷ e.0)) e.1
      (rest, dirs) ← later
      ok (here ∷ rest, dirs_of here ++ dirs)

-- The outer loop, over a queue of directories, for so many directories at most.
unfoldable pub walk : ℕ → (Str → Option (List (Str × Found))) → ℕ → List Str → Outcome (List Entry)
walk threshold read_dir fuel [] = ok []
walk threshold read_dir zero (dir ∷ queue) = stuck
walk threshold read_dir (suc n) (dir ∷ queue) = elim (read_dir dir) [
  | none ↦ failure
  | some [] ↦ failure
  | some (e ∷ es) ↦ do
    (here, dirs) ← scan threshold dir (e ∷ es)
    rest ← walk threshold read_dir n (queue ++ dirs)
    ok (here ++ rest)
]

-- The content of a buffer file after an entry is restored: a large file keeps what is there.
abbrev pub buffer_content : Option Bytes → Option Buffer → Bytes
buffer_content (some bs) old = bs
buffer_content none none = []
buffer_content none (some b) = b.content

abbrev pub put_file : Mode → Str → List Chunk → Str → ℕ → Option Bytes → Ssd → Ssd
put_file mode path chunks buffer_path size content d = record d {
  files =
      insert str_dec path (record { mode = mode; chunkinfo = chunks; buffer_path = buffer_path })
        d.files;
  buffers =
      insert str_dec buffer_path
        (record {
          size = size;
          content = buffer_content content (lookup str_dec buffer_path d.buffers);
        })
        d.buffers;
}

-- `mkdir`, which leaves a directory that is there.
abbrev pub make_dir : Bytes → Str → Ssd → Ssd
make_dir st path d = elim (lookup str_dec path d.directories) [
  | some _ ↦ d
  | none ↦ record d { directories = insert str_dec path st d.directories }
]

-- The body of the loop of `restore_snapshot`.
unfoldable pub restore_entry : Entry → Ssd → Ssd
restore_entry (directory st path) d = make_dir st path d
restore_entry (regular st path chunks buffer_path size content) d =
    put_file (saved st) path chunks buffer_path size content d

-- `root_path + path.substr(ssd_path_len)`, which throws if the path is shorter.
abbrev pub relocate : Str → ℕ → Str → Outcome Str
relocate root ssd_path_len path =
    if leb ssd_path_len (length path) then ok (root ++ drop ssd_path_len path) else runtime_error

-- The body of the loop of `install_snapshot`.
unfoldable pub install_entry : Str → ℕ → Entry → Ssd → Outcome Ssd
install_entry root len (directory st path) d = do
  path' ← relocate root len path
  ok (make_dir st path' d)
install_entry root len (regular st path chunks buffer_path size content) d = do
  path' ← relocate root len path
  buffer_path' ← relocate root len buffer_path
  ok (put_file (read_only st) path' chunks buffer_path' size content d)

unfoldable pub restore_tree : List Entry → Ssd → Ssd
restore_tree [] d = d
restore_tree (e ∷ es) d = restore_tree es (restore_entry e d)

unfoldable pub install_tree : Str → ℕ → List Entry → Ssd → Outcome Ssd
install_tree root len [] d = ok d
install_tree root len (e ∷ es) d = do d' ← install_entry root len e d; install_tree root len es d'

abbrev pub snapshot_name : Str
snapshot_name = dot ∷ 115 ∷ 110 ∷ 97 ∷ 112 ∷ 115 ∷ 104 ∷ 111 ∷ 116 ∷ []

abbrev pub cache_name : Str
cache_name = dot ∷ 99 ∷ 97 ∷ 99 ∷ 104 ∷ 101 ∷ []

-- The path behind a directory, without the slash.
unfoldable pub behind : Str → Str → Option Str
behind [] [] = none
behind [] (c ∷ path) = if c == slash then some path else none
behind (d ∷ dir) [] = none
behind (d ∷ dir) (c ∷ path) = let rest = behind dir path in if d == c then rest else none

-- The names of a path, with the one that is being read.
unfoldable pub names : Str → Str → List Str
names name [] = name ∷ []
names name (c ∷ path) =
    let ended = name ∷ names [] path in
    let longer = names (name ++ (c ∷ [])) path in if c == slash then ended else longer

unfoldable pub keeps_name : List Str → Bool
keeps_name [] = false
keeps_name (n ∷ ns) =
    same_str n lost_found || (same_str n snapshot_name || (same_str n cache_name || keeps_name ns))

-- A file that `clear_dir` deletes: it is below the directory, by a path without the names that are
-- passed over.
abbrev pub is_cleared : Str → Str → Bool
is_cleared dir path = elim (behind dir path) [
  | none ↦ false
  | some rest ↦ not (keeps_name (names [] rest))
]

unfoldable pub clear_files {ℓ} : {V : Type ℓ} → Str → Dict Str V → Dict Str V
clear_files dir [] = []
clear_files dir (e ∷ d) =
    let rest = clear_files dir d in if is_cleared dir e.0 then rest else e ∷ rest

-- `clear_dir` deletes files only; directories stay. Its calls of `opendir` and `stat` succeed here: the
-- files of the model are no symbolic links, whose target `stat` could miss. A call that fails ends the
-- walk of the source, and no caller tests that.
unfoldable pub clear_dir : Str → Ssd → Ssd
clear_dir dir d = record d { files = clear_files dir d.files; buffers = clear_files dir d.buffers }
