-- ===== src/FileController.antt =====
-- `CloudfsController` of cloudfs/cloudfs_controller.h and cloudfs/cloudfs_controller.cc, and the paths
-- of cloudfs/util.cc: main files with their attributes and their chunk lists, and the buffer files
-- with their contents. A main file can have several names, which are hard links.
pub mod ChunkInfo
pub mod Names
use cloud_file_system.Base.{
  ℕ, zero, suc, ◌+◌, ◌-◌, take, replicate, Bool, true, false, ◌&&◌, List, [], ◌∷◌, ◌++◌, Option,
  none, some, length, leb, ltb, ◌==◌, if◌then◌else◌,
}
use cloud_file_system.Base.Dict.{Dict, lookup, insert, erase}
use cloud_file_system.Base.Outcome.{Outcome, ok, failure, undefined, ◌>>=◌}
use cloud_file_system.Bytes.{Bytes, Str, str_dec, put_size, get_size}
use cloud_file_system.Snapshot.Format.{Chunk, put_chunks, get_chunks}
use cloud_file_system.Snapshot.Tree.{Buffer, slash, dot}
unfoldable use cloud_file_system.Base.{ℕ_discrete}

-- The attributes of a main file, and its bytes, which are its chunk list.
pub record MainFile : Type 0 where
  pub buffer_path : Str
  pub is_on_cloud : Bool
  pub truncated : Bool
  pub chunkinfo : Bytes

-- An inode: a regular file, or a directory or symbolic link, with its size.
pub data Inode : Type 0 where
  regular_file : MainFile → Inode
  other_file : ℕ → Inode

pub record Disk : Type 0 where
  pub names : Dict Str ℕ
  pub inodes : Dict ℕ Inode
  pub buffers : Dict Str Buffer

pub record OpenFile : Type 0 where
  pub main_path : Str
  pub start : ℕ
  pub len : ℕ
  pub is_dirty : Bool
  pub chunks : List Chunk
  pub op_fd : ℕ

-- `generate_object_key`.
unfoldable pub generate_object_key : Str → Str
generate_object_key [] = []
generate_object_key (c ∷ path) =
    let rest = generate_object_key path in if c == slash then 95 ∷ rest else c ∷ rest

unfoldable pub has_slash : Str → Bool
has_slash [] = false
has_slash (c ∷ path) = let rest = has_slash path in if c == slash then true else rest

-- `main_path_to_buffer_path`: a dot behind the last slash, or in front if there is none.
unfoldable pub main_path_to_buffer_path : Str → Str
main_path_to_buffer_path [] = dot ∷ []
main_path_to_buffer_path (c ∷ path) =
    let rest = main_path_to_buffer_path path in
    if has_slash (c ∷ path)
    then (if has_slash path then c ∷ rest else c ∷ dot ∷ path)
    else dot ∷ c ∷ path

-- `get_chunkinfo` on the bytes of a main file. A file that is too short leaves variables without
-- values.
unfoldable pub get_chunkinfo : Bytes → Outcome (List Chunk)
get_chunkinfo bs = elim (get_size bs) [
  | none ↦ undefined
  | some (n, rest) ↦ elim (get_chunks n rest) [ none ↦ undefined | some (cs, _) ↦ ok cs ]
]

-- `set_chunkinfo`: the new bytes of the main file.
unfoldable pub set_chunkinfo : List Chunk → Bytes
set_chunkinfo cs = put_size (length cs) ++ put_chunks cs

-- The loop of `get_chunk_idx`, at chunk `i`, which starts at `cur`; `none` is -1.
unfoldable pub chunk_idx_from : ℕ → ℕ → List Chunk → ℕ → Option ℕ
chunk_idx_from cur i [] offset = none
chunk_idx_from cur i (c ∷ cs) offset =
    let later = chunk_idx_from (cur + c.len) (suc i) cs offset in
    if leb cur offset && ltb offset (cur + c.len) then some i else later

abbrev pub get_chunk_idx : List Chunk → ℕ → Option ℕ
get_chunk_idx cs offset = chunk_idx_from 0 0 cs offset

-- What `lstat` finds.
unfoldable pub inode_of : Str → Disk → Option Inode
inode_of path d = elim (lookup str_dec path d.names) [
  | none ↦ none
  | some i ↦ lookup ℕ_discrete i d.inodes
]

-- The attributes of a main file; the calls fail on what is no main file.
abbrev pub main_file : Str → Disk → Outcome MainFile
main_file path d = elim (inode_of path d) [
  | none ↦ failure
  | some (other_file size) ↦ failure
  | some (regular_file m) ↦ ok m
]

-- A change of the attributes or of the bytes of a main file, under any of its names.
unfoldable pub set_main : Str → MainFile → Disk → Disk
set_main path m d = elim (lookup str_dec path d.names) [
  | none ↦ d
  | some i ↦ record d { inodes = insert ℕ_discrete i (regular_file m) d.inodes }
]

abbrev pub buffer_file : Str → Disk → Outcome Buffer
buffer_file path d = elim (lookup str_dec path d.buffers) [ none ↦ failure | some b ↦ ok b ]

abbrev pub set_buffer : Str → Buffer → Disk → Disk
set_buffer path b d = record d { buffers = insert str_dec path b d.buffers }

-- `st_nlink`.
unfoldable pub links : ℕ → Dict Str ℕ → ℕ
links i [] = 0
links i (e ∷ d) = let rest = links i d in if i == e.1 then suc rest else rest

-- `unlink` of a main file: the inode goes with its last name.
unfoldable pub unlink_main : Str → Disk → Outcome Disk
unlink_main path d = elim (lookup str_dec path d.names) [
  | none ↦ failure
  | some i ↦
      let d' : Disk = record d { names = erase str_dec path d.names } in
      ok (if links i d'.names == 0 then record d' { inodes = erase ℕ_discrete i d.inodes } else d')
]

-- `truncate` and `ftruncate`, which fill a longer file with zeros.
abbrev pub resize : ℕ → Bytes → Bytes
resize n bs = take n bs ++ replicate (n - length bs) 0

-- `unlink` of a buffer file.
abbrev pub unlink_buffer : Str → Disk → Outcome Disk
unlink_buffer path d = elim (lookup str_dec path d.buffers) [
  | none ↦ failure
  | some b ↦ ok (record d { buffers = erase str_dec path d.buffers })
]

-- `stbuf.st_nlink == 1`.
abbrev pub is_last_link : Str → Disk → Bool
is_last_link path d = elim (lookup str_dec path d.names) [
  | none ↦ false
  | some i ↦ links i d.names == 1
]

-- `stat_file`, without the other fields of the `struct stat`: the size of a regular file is that of
-- its buffer file.
unfoldable pub stat_file : Str → Str → Disk → Outcome ℕ
stat_file ssd_path path d = elim (inode_of (ssd_path ++ path) d) [
  | none ↦ failure
  | some (other_file size) ↦ ok size
  | some (regular_file m) ↦ buffer_file m.buffer_path d >>= λ b. ok b.size
]

-- `creat` of a main file, with the number of the inode if it is new.
abbrev pub creat_main : Str → ℕ → MainFile → Disk → Outcome Disk
creat_main path ino m d = elim (inode_of path d) [
  | none ↦ ok (record d {
    names = insert str_dec path ino d.names;
    inodes = insert ℕ_discrete ino (regular_file m) d.inodes;
  })
  | some (regular_file old) ↦ ok (set_main path m d)
  | some (other_file size) ↦ failure
]

unfoldable pub create_file : Str → Str → ℕ → Disk → Outcome Disk
create_file ssd_path path ino d = do
  let main_path = ssd_path ++ path
  let buffer_path = main_path_to_buffer_path main_path
  let m : MainFile = record {
    buffer_path = buffer_path;
    is_on_cloud = false;
    truncated = false;
    chunkinfo = set_chunkinfo [];
  }
  d1 ← creat_main main_path ino m d
  ok (set_buffer buffer_path (record { size = 0; content = [] }) d1)
