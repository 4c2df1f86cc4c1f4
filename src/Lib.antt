-- ===== src/Lib.antt =====
-- CloudFS: a FUSE file system that keeps small files on an SSD and large ones, cut into deduplicated
-- chunks, in an object store, with a cache of objects on the SSD and with snapshots. The sources are the
-- C++ files of src/cloudfs.
--
-- Parts, and how they interact:
-- - CacheReplacer (src/cloudfs/cache_replacer.h and .cc) models `LRUCacheReplacer`: nodes on a heap with
--   previous and next pointers, and a map from keys to nodes, with `access`, `evict`, `remove`, `persist`
--   (`walk`, `put_strs`) and the constructor (`load_file`). Replacer is the abstract class, with the
--   contract of a replacer over the list of keys; CacheReplacer/Recency fills it.
-- - ChunkTable (src/cloudfs/chunk_table.h and .cc) models the counts of the references to chunks:
--   `use` (`use_chunk`), `release`, `persist`, the constructor (`load`), `snapshot`, `restore`,
--   `snapshot_deleted` and `skip_snapshot`. `snapshot_deleted` takes the deletion of an object as an
--   argument, since that changes the state of the buffer file controller.
-- - BufferFile (src/cloudfs/buffer_file.h and .cc) models `BufferFileController`: the map of the cached
--   objects, the files of the cache, the replacer and the bucket. It takes a Replacer and a Cloud. Cloud
--   is the object store behind cloudapi.h, a parameter with the documented behaviour of put, get and
--   delete. BufferFile/Persist has `persist_cache_state` and the loop of the constructor that loads the
--   states of the cached objects.
-- - Snapshot (src/cloudfs/snapshot.h and .cc) models `SnapshotController`: Snapshot/Registry the extended
--   attributes of `.snapshot`, Snapshot/Format the entries of a snapshot file, Snapshot/Tree the files
--   under `ssd_path`, Snapshot/Calls the calls. Snapshot/Cleared, Snapshot/Restored and Snapshot/Sorted say
--   what deleting and restoring files and sorting the list do, Snapshot/Rollback and
--   Snapshot/Reinstall what becomes of the files,
--   Snapshot/Reach and Snapshot/Runs which lists a run of calls leads to. It uses the chunk table, and of the buffer file controller
--   the interface Objects, which BufferFile/Stored fills.
-- - ChunkSplitter (src/cloudfs/chunk_splitter.h and .cc) models `ChunkSplitter`, with the Rabin
--   fingerprints of dedup.h (the record Rabin) and MD5 as parameters. ChunkSplitter/Pieces says what its
--   chunks are: the pieces of the bytes that it has read.
-- - FileController (src/cloudfs/cloudfs_controller.h and .cc, and the paths of src/cloudfs/util.cc) models
--   `CloudfsController`: main files with their names, attributes and chunk lists, and buffer files.
-- - Dedup models `CloudfsControllerDedup` of the same file: Dedup/Chunks the loops that use and release
--   chunks and cut a buffer file, Dedup/Prepare `prepare_read_data` and `prepare_write_data`, Dedup/Files
--   the calls on open files, Dedup/Paths `unlink_file` and `truncate_file`. It uses the chunk table, the
--   splitter, and of the buffer file controller the interface ChunkStore, which BufferFile/Chunks fills.
--   Dedup/Counting has the invariant that ties the counts and the stored chunks to the chunk lists of the
--   files, Dedup/Contents what bytes a chunk list stands for, Dedup/Splice and Dedup/Written what they are
--   when chunks are replaced. Chunks are told apart by their MD5 keys alone: `Known`, a parameter, says
--   which byte strings are in use, and the theorems on contents ask that no two of them have one key.
--   Dedup/Loaded has what `prepare_write_data` loads, Dedup/Overwrite and Dedup/Change the bytes, and
--   Dedup/Write the steps of `write_file` on a large file, which Dedup/WriteFile puts together.
-- - NoDedup models `CloudfsControllerNoDedup` of the same file, over the interface Objects.
-- - Fuse (src/cloudfs/cloudfs.cc) models the handlers of the FUSE operations: a handler refuses a request,
--   or passes it on, and the calls it makes are values. Fuse/Guard and Fuse/Listing are about `.snapshot`
--   and about listings. FUSE runs in one thread, so that one handler ends before the next starts.
-- - Base has lists, integers and maps over the native numbers, and Outcome, how a call ends: with a
--   result, an exception, an error code, or undefined behaviour. Bytes has the binary files.
--
-- A call that fails gives no state: what it has changed before it fails is not modelled. Where
-- `write_file`, `truncate_file` and `unlink_file` go on after an upload or a deletion that has failed,
-- the model ends with that failure.
--
-- Bounds and fuel: `size_t`, `off_t` and `unsigned long` are natural numbers, with the bound of 64 bits
-- as a hypothesis where they are written to a file; `int` counts are integers that do not overflow, with
-- the bound of 32 bits as a hypothesis where they are written. The casts of sizes to `int` in the copy
-- loops and in the reading of snapshots are written out, and the model ends where a sum of chunk lengths
-- in an `int` is 2^31 or more. `evict_to_size` makes as many rounds as there are objects, the copy loops as
-- many as there are bytes, and `walk` over a list as many as nodes were ever made, and each is shown to
-- be enough. The splitter makes a round for each byte and one more, and the loop that cuts a buffer file
-- one for each byte of it. The walk over the directories of the SSD has as many rounds as it is given.
--
-- Not modelled: of the buffer file controller the set-up in its constructor; of cloudfs.cc the end of
-- `cloud_readlink`, `cloudfs_init` and `cloudfs_start`; the operating system behind the handlers;
-- symbolic links under `ssd_path`, and calls that fail while its files are deleted; permissions and open
-- modes of descriptors, and a buffer file that is unlinked while it is open; main.cc,
-- logging and printing; libs3, libarchive, MD5 and the Rabin library, which are parameters or not used
-- here.
pub mod Base
pub mod BufferFile
pub mod Bytes
pub mod CacheReplacer
pub mod ChunkSplitter
pub mod ChunkStore
pub mod ChunkTable
pub mod Cloud
pub mod Dedup
pub mod FileController
pub mod Fuse
pub mod NoDedup
pub mod Objects
pub mod Replacer
pub mod Snapshot
pub mod Tests
