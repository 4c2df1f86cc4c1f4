-- ===== src/Fuse.antt =====
-- cloudfs/cloudfs.cc: the handlers of the FUSE operations. A handler refuses a request, or passes it on
-- to the operating system, to the controller of files or to the snapshot controller, whose error is
-- then its own. The end of `cloud_readlink`, which refuses a target that fills the buffer, is not here.
pub mod Guard
pub mod Listing
use cloud_file_system.Base.{
  ℕ, ◌%◌, Bool, true, false, not, ◌||◌, List, [], ◌∷◌, ◌++◌, Option, none, some, leb, ◌==◌,
  if◌then◌else◌,
}
use cloud_file_system.Base.Outcome.{Outcome, ok, failure, ◌>>=◌}
use cloud_file_system.Bytes.{Bytes, Str, str_dec}
use cloud_file_system.Snapshot.Tree.{slash, same_str, lost_found, is_buffer_path, snapshot_name}

-- The operations with their arguments, the path first.
pub data Request : Type 0 where
  getattr : Str → Request
  getxattr : Str → Str → Request
  setxattr : Str → Str → Bytes → Request
  mkdir : Str → ℕ → Request
  mknod : Str → ℕ → ℕ → Request
  create : Str → ℕ → ℕ → Request
  open_path : Str → ℕ → Request
  read : Str → ℕ → ℕ → ℕ → Request
  write : Str → ℕ → Bytes → ℕ → Request
  release : Str → ℕ → Request
  opendir : Str → Request
  access : Str → ℕ → Request
  utimens : Str → Bytes → Request
  chmod : Str → ℕ → Request
  link : Str → Str → Request
  symlink : Str → Str → Request
  readlink : Str → ℕ → Request
  unlink : Str → Request
  rmdir : Str → Request
  truncate : Str → ℕ → Request
  ioctl : Str → ℕ → ℕ → Request

-- What a handler calls: the operating system with a path or a descriptor, or a controller.
pub data Call : Type 0 where
  os_lstat : Str → Call
  os_getxattr : Str → Str → Call
  os_setxattr : Str → Str → Bytes → Call
  os_mkdir : Str → ℕ → Call
  os_mknod : Str → ℕ → ℕ → Call
  os_open : Str → ℕ → Call
  os_pread : ℕ → ℕ → ℕ → Call
  os_close : ℕ → Call
  os_opendir : Str → Call
  os_access : Str → ℕ → Call
  os_utimens : Str → Bytes → Call
  os_chmod : Str → ℕ → Call
  os_link : Str → Str → Call
  os_symlink : Str → Str → Call
  os_readlink : Str → ℕ → Call
  os_rmdir : Str → Call
  stat_file : Str → Call
  create_file : Str → ℕ → Call
  open_file : Str → ℕ → Call
  read_file : Str → ℕ → ℕ → ℕ → Call
  write_file : Str → ℕ → Bytes → ℕ → Call
  close_file : Str → ℕ → Call
  unlink_file : Str → Call
  truncate_file : Str → ℕ → Call
  create_snapshot : Call
  restore_snapshot : ℕ → Call
  list_snapshots : Call
  delete_snapshot : ℕ → Call
  install_snapshot : ℕ → Call
  uninstall_snapshot : ℕ → Call

-- The error number, or the calls, of which each is made if those before it succeed.
pub data Reaction : Type 0 where
  refuse : ℕ → Reaction
  pass : List Call → Reaction

abbrev pub eacces : ℕ
eacces = 13

abbrev pub eexist : ℕ
eexist = 17

abbrev pub einval : ℕ
einval = 22

-- `/.snapshot`.
abbrev pub stub : Str
stub = slash ∷ snapshot_name

-- The commands of the `ioctl`, as snapshot-api.h numbers them.
pub record Commands : Type 0 where
  pub cloudfs_snapshot : ℕ
  pub cloudfs_restore : ℕ
  pub cloudfs_snapshot_list : ℕ
  pub cloudfs_delete : ℕ
  pub cloudfs_install_snapshot : ℕ
  pub cloudfs_uninstall_snapshot : ℕ

abbrev pub guarded : ℕ → Str → Call → Reaction
guarded errno path call = if same_str path stub then refuse errno else pass (call ∷ [])

abbrev pub stub_or : Str → Call → Call → Reaction
stub_or path at_stub call = pass ((if same_str path stub then at_stub else call) ∷ [])

-- `(flags & O_ACCMODE) != O_RDONLY`.
abbrev pub for_writing : ℕ → Bool
for_writing flags = not (flags % 4 == 0)

-- The `switch` of `cloud_ioctl`.
unfoldable pub command : Commands → ℕ → ℕ → Reaction
command codes cmd ts =
    if cmd == codes.cloudfs_snapshot
    then pass (create_snapshot ∷ [])
    else (if cmd == codes.cloudfs_restore
        then pass (restore_snapshot ts ∷ [])
        else (if cmd == codes.cloudfs_snapshot_list
            then pass (list_snapshots ∷ [])
            else (if cmd == codes.cloudfs_delete
                then pass (delete_snapshot ts ∷ [])
                else (if cmd == codes.cloudfs_install_snapshot
                    then pass (install_snapshot ts ∷ [])
                    else (if cmd == codes.cloudfs_uninstall_snapshot
                        then pass (uninstall_snapshot ts ∷ [])
                        else refuse einval)))))

-- `snapshot_stub_path_` is `ssd ++ stub`.
abbrev pub cloudfs_getattr : Str → Str → Reaction
cloudfs_getattr ssd path = stub_or path (os_lstat (ssd ++ stub)) (stat_file path)

abbrev pub cloudfs_getxattr : Str → Str → Str → Reaction
cloudfs_getxattr ssd path name =
    stub_or path (os_getxattr (ssd ++ stub) name) (os_getxattr (ssd ++ path) name)

abbrev pub cloudfs_setxattr : Str → Str → Str → Bytes → Reaction
cloudfs_setxattr ssd path name value = guarded eacces path (os_setxattr (ssd ++ path) name value)

abbrev pub cloudfs_mkdir : Str → Str → ℕ → Reaction
cloudfs_mkdir ssd path mode = guarded eexist path (os_mkdir (ssd ++ path) mode)

abbrev pub cloudfs_mknod : Str → Str → ℕ → ℕ → Reaction
cloudfs_mknod ssd path mode dev = guarded eexist path (os_mknod (ssd ++ path) mode dev)

abbrev pub cloudfs_create : Str → Str → ℕ → ℕ → Reaction
cloudfs_create ssd path mode flags =
    if same_str path stub
    then refuse eexist
    else pass (create_file path mode ∷ open_file path flags ∷ [])

abbrev pub cloudfs_open : Str → Str → ℕ → Reaction
cloudfs_open ssd path flags =
    let stubbed =
      if for_writing flags then refuse eacces else pass (os_open (ssd ++ stub) flags ∷ []) in
    if same_str path stub then stubbed else pass (open_file path flags ∷ [])

abbrev pub cloudfs_read : Str → Str → ℕ → ℕ → ℕ → Reaction
cloudfs_read ssd path fh count offset =
    stub_or path (os_pread fh count offset) (read_file path fh count offset)

abbrev pub cloud_write : Str → Str → ℕ → Bytes → ℕ → Reaction
cloud_write ssd path fh buf offset = guarded eacces path (write_file path fh buf offset)

abbrev pub cloud_release : Str → Str → ℕ → Reaction
cloud_release ssd path fh = stub_or path (os_close fh) (close_file path fh)

abbrev pub cloud_opendir : Str → Str → Reaction
cloud_opendir ssd path = pass (os_opendir (ssd ++ path) ∷ [])

abbrev pub cloud_access : Str → Str → ℕ → Reaction
cloud_access ssd path mask =
    let stubbed =
      if for_writing mask then refuse eacces else pass (os_access (ssd ++ stub) mask ∷ []) in
    if same_str path stub then stubbed else pass (os_access (ssd ++ path) mask ∷ [])

abbrev pub cloud_utimens : Str → Str → Bytes → Reaction
cloud_utimens ssd path tv = guarded eacces path (os_utimens (ssd ++ path) tv)

abbrev pub cloud_chmod : Str → Str → ℕ → Reaction
cloud_chmod ssd path mode = guarded eacces path (os_chmod (ssd ++ path) mode)

abbrev pub cloud_link : Str → Str → Str → Reaction
cloud_link ssd path newpath = guarded eacces path (os_link (ssd ++ path) (ssd ++ newpath))

abbrev pub cloud_symlink : Str → Str → Str → Reaction
cloud_symlink ssd target linkpath = guarded eacces linkpath (os_symlink target (ssd ++ linkpath))

abbrev pub cloud_readlink : Str → Str → ℕ → Reaction
cloud_readlink ssd path size = pass (os_readlink (ssd ++ path) size ∷ [])

abbrev pub cloud_unlink : Str → Str → Reaction
cloud_unlink ssd path = guarded eacces path (unlink_file path)

abbrev pub cloud_rmdir : Str → Str → Reaction
cloud_rmdir ssd path = pass (os_rmdir (ssd ++ path) ∷ [])

abbrev pub cloud_truncate : Str → Str → ℕ → Reaction
cloud_truncate ssd path size = guarded eacces path (truncate_file path size)

abbrev pub cloud_ioctl : Commands → Str → Str → ℕ → ℕ → Reaction
cloud_ioctl codes ssd path cmd ts =
    if same_str path stub then command codes cmd ts else refuse eacces

-- The table of the operations.
unfoldable pub handle : Commands → Str → Request → Reaction
handle codes ssd (getattr path) = cloudfs_getattr ssd path
handle codes ssd (getxattr path name) = cloudfs_getxattr ssd path name
handle codes ssd (setxattr path name value) = cloudfs_setxattr ssd path name value
handle codes ssd (mkdir path mode) = cloudfs_mkdir ssd path mode
handle codes ssd (mknod path mode dev) = cloudfs_mknod ssd path mode dev
handle codes ssd (create path mode flags) = cloudfs_create ssd path mode flags
handle codes ssd (open_path path flags) = cloudfs_open ssd path flags
handle codes ssd (read path fh count offset) = cloudfs_read ssd path fh count offset
handle codes ssd (write path fh buf offset) = cloud_write ssd path fh buf offset
handle codes ssd (release path fh) = cloud_release ssd path fh
handle codes ssd (opendir path) = cloud_opendir ssd path
handle codes ssd (access path mask) = cloud_access ssd path mask
handle codes ssd (utimens path tv) = cloud_utimens ssd path tv
handle codes ssd (chmod path mode) = cloud_chmod ssd path mode
handle codes ssd (link path newpath) = cloud_link ssd path newpath
handle codes ssd (symlink target linkpath) = cloud_symlink ssd target linkpath
handle codes ssd (readlink path size) = cloud_readlink ssd path size
handle codes ssd (unlink path) = cloud_unlink ssd path
handle codes ssd (rmdir path) = cloud_rmdir ssd path
handle codes ssd (truncate path size) = cloud_truncate ssd path size
handle codes ssd (ioctl path cmd ts) = cloud_ioctl codes ssd path cmd ts

-- The names that a listing passes over.
abbrev pub is_hidden : Str → Bool
is_hidden name = same_str name lost_found || is_buffer_path name

module _ {B : Type 0} (filler : Str → B → Option B) where
  -- A filler that gives an error ends the handler.
  abbrev pub fill : Str → B → Outcome B
  fill name buf = elim (filler name buf) [ none ↦ failure | some buf' ↦ ok buf' ]

  unfoldable pub fill_entries : List Str → B → Outcome B
  fill_entries [] buf = ok buf
  fill_entries (name ∷ names) buf =
      let filled = fill name buf >>= fill_entries names in
      let passed = fill_entries names buf in if is_hidden name then passed else filled

  -- `cloud_readdir`, over the names that `readdir` gives; none at all is an error.
  unfoldable pub readdir : Str → List Str → B → Outcome B
  readdir path [] buf = failure
  readdir path (name ∷ names) buf = do
    buf' ← fill_entries (name ∷ names) buf
    if same_str path (slash ∷ []) then fill snapshot_name buf' else ok buf'
