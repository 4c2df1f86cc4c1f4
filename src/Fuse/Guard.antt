-- ===== src/Fuse/Guard.antt =====
-- The file `.snapshot` is not changed by requests on files.
use cloud_file_system.Base.{Bool, true, false, ◌&&◌, ◌||◌, List, [], ◌∷◌, ◌++◌}
use cloud_file_system.Bytes.{Str}
use cloud_file_system.Snapshot.Tree.{same_str}
use cloud_file_system.FileController.{main_path_to_buffer_path}
use cloud_file_system.Fuse.{
  Request, Call, Reaction, refuse, pass, stub, for_writing, os_lstat, os_getxattr, os_setxattr,
  os_mkdir, os_mknod, os_open, os_pread, os_close, os_opendir, os_access, os_utimens, os_chmod,
  os_link, os_symlink, os_readlink, os_rmdir, stat_file, create_file, open_file, read_file,
  write_file, close_file, unlink_file, truncate_file, create_snapshot, restore_snapshot,
  list_snapshots, delete_snapshot, install_snapshot, uninstall_snapshot, create, open_path, read,
  write, release, link, unlink, rmdir, truncate, ioctl,
}

-- Whether a path of a file has its buffer file at a path: the one that a new file gets, or, as the
-- attribute of its main file says, the one that a file there has.
abbrev pub shares_buffer : Str → (Str → Str) → Str → Str → Bool
shares_buffer ssd buffer_of at p =
    same_str (main_path_to_buffer_path (ssd ++ p)) at || same_str (buffer_of (ssd ++ p)) at

-- A call on a file touches its main file and its buffer file.
abbrev pub touches : Str → (Str → Str) → Str → Str → Bool
touches ssd buffer_of at p = same_str (ssd ++ p) at || shares_buffer ssd buffer_of at p

-- Whether a call changes the file at a path, its attributes or its names, or could: a call on
-- snapshots changes the attributes of `.snapshot`. `buffer_of` gives the buffer path in the attributes of
-- a main file.
unfoldable pub changes : Str → (Str → Str) → Str → Call → Bool
changes ssd buffer_of at (os_lstat p) = false
changes ssd buffer_of at (os_getxattr p name) = false
changes ssd buffer_of at (os_setxattr p name value) = same_str p at
changes ssd buffer_of at (os_mkdir p mode) = same_str p at
changes ssd buffer_of at (os_mknod p mode dev) = same_str p at
changes ssd buffer_of at (os_open p flags) = same_str p at && for_writing flags
changes ssd buffer_of at (os_pread fh count offset) = false
changes ssd buffer_of at (os_close fh) = false
changes ssd buffer_of at (os_opendir p) = false
changes ssd buffer_of at (os_access p mask) = false
changes ssd buffer_of at (os_utimens p tv) = same_str p at
changes ssd buffer_of at (os_chmod p mode) = same_str p at
changes ssd buffer_of at (os_link p q) = same_str p at || same_str q at
changes ssd buffer_of at (os_symlink target p) = same_str p at
changes ssd buffer_of at (os_readlink p size) = false
changes ssd buffer_of at (os_rmdir p) = same_str p at
changes ssd buffer_of at (stat_file p) = false
changes ssd buffer_of at (create_file p mode) = touches ssd buffer_of at p
changes ssd buffer_of at (open_file p flags) = touches ssd buffer_of at p
changes ssd buffer_of at (read_file p fh count offset) = touches ssd buffer_of at p
changes ssd buffer_of at (write_file p fh buf offset) = touches ssd buffer_of at p
changes ssd buffer_of at (close_file p fh) = touches ssd buffer_of at p
changes ssd buffer_of at (unlink_file p) = touches ssd buffer_of at p
changes ssd buffer_of at (truncate_file p size) = touches ssd buffer_of at p
changes ssd buffer_of at create_snapshot = true
changes ssd buffer_of at (restore_snapshot ts) = true
changes ssd buffer_of at list_snapshots = true
changes ssd buffer_of at (delete_snapshot ts) = true
changes ssd buffer_of at (install_snapshot ts) = true
changes ssd buffer_of at (uninstall_snapshot ts) = true

unfoldable pub some_changes : Str → (Str → Str) → Str → List Call → Bool
some_changes ssd buffer_of at [] = false
some_changes ssd buffer_of at (c ∷ cs) =
    changes ssd buffer_of at c || some_changes ssd buffer_of at cs

abbrev pub may_change : Str → (Str → Str) → Str → Reaction → Bool
may_change ssd buffer_of at (refuse errno) = false
may_change ssd buffer_of at (pass calls) = some_changes ssd buffer_of at calls

-- The requests that reach `.snapshot`: the `ioctl`, what no handler guards, and those on a file with
-- `.snapshot` as its buffer file.
abbrev pub reaches_stub : Str → (Str → Str) → Request → Bool
reaches_stub ssd buffer_of (ioctl path cmd ts) = true
reaches_stub ssd buffer_of (rmdir path) = same_str path stub
reaches_stub ssd buffer_of (link path newpath) = same_str newpath stub
reaches_stub ssd buffer_of (create path mode flags) = shares_buffer ssd buffer_of (ssd ++ stub) path
reaches_stub ssd buffer_of (open_path path flags) = shares_buffer ssd buffer_of (ssd ++ stub) path
reaches_stub ssd buffer_of (read path fh count offset) =
    shares_buffer ssd buffer_of (ssd ++ stub) path
reaches_stub ssd buffer_of (write path fh buf offset) =
    shares_buffer ssd buffer_of (ssd ++ stub) path
reaches_stub ssd buffer_of (release path fh) = shares_buffer ssd buffer_of (ssd ++ stub) path
reaches_stub ssd buffer_of (unlink path) = shares_buffer ssd buffer_of (ssd ++ stub) path
reaches_stub ssd buffer_of (truncate path size) = shares_buffer ssd buffer_of (ssd ++ stub) path
reaches_stub ssd buffer_of r = false
