-- ===== src/Tests/Files.antt =====
-- A file of one chunk on a disk, open and closed.
use cloud_file_system.Base.{◌≡◌, refl, true, false, [], ◌∷◌, ◌++◌, none, some, arith}
unfoldable use cloud_file_system.Base.{ℕ_discrete}
use cloud_file_system.Base.Dict.{lookup}
use cloud_file_system.Base.Outcome.{ok}
use cloud_file_system.Bytes.{Str, str_dec, read_at}
use cloud_file_system.ChunkSplitter.{hex}
use cloud_file_system.Snapshot.Format.{ChunksFit}
use cloud_file_system.Snapshot.Tree.{Buffer, is_buffer_path}
use cloud_file_system.FileController.{
  Disk, MainFile, OpenFile, regular_file, inode_of, links, set_chunkinfo, get_chunkinfo,
  main_path_to_buffer_path, has_slash,
}
use cloud_file_system.FileController.ChunkInfo.{get_chunkinfo-set_chunkinfo}
use cloud_file_system.FileController.Names.{main_path_to_buffer_path_lem}
use cloud_file_system.Dedup.Counting.{Consistent}
use cloud_file_system.Dedup.Release.{Remains}
use cloud_file_system.Dedup.Files.{Controller, read_file}
use cloud_file_system.Dedup.Delivery.{Opened, Holds, read_file_lem}
use cloud_file_system.Dedup.Unlink.{unlink_file_lem}
use cloud_file_system.Dedup.Paths.{unlink_file}
use cloud_file_system.Tests.Objects.{start, start-Valid}
use cloud_file_system.Tests.Dedup.{Known, rabin, md5, store, text, idle, chunk, one_used}

chunks-Fit : ChunksFit (chunk ∷ [])
unfolding hex
chunks-Fit = (omega arith, omega arith, omega arith, tt)

listed : get_chunkinfo (set_chunkinfo (chunk ∷ [])) ≡ ok (chunk ∷ [])
listed = get_chunkinfo-set_chunkinfo (chunk ∷ []) (omega arith) chunks-Fit

get_chunkinfo-set_chunkinfo_example :
    get_chunkinfo (set_chunkinfo (chunk ∷ chunk ∷ [])) ≡ ok (chunk ∷ chunk ∷ [])
unfolding hex
get_chunkinfo-set_chunkinfo_example =
    get_chunkinfo-set_chunkinfo (chunk ∷ chunk ∷ []) (omega arith)
      (omega arith, omega arith, omega arith, (omega arith, omega arith, omega arith, tt))

main_path_to_buffer_path_lem_example :
    (main_path_to_buffer_path (115 ∷ 47 ∷ 102 ∷ []) ≡ 115 ∷ 47 ∷ 46 ∷ 102 ∷ [])
    × (is_buffer_path (46 ∷ 102 ∷ []) ≡ true)
unfolding has_slash
main_path_to_buffer_path_lem_example =
    main_path_to_buffer_path_lem (115 ∷ []) (102 ∷ []) refl (ground arith) (ground arith)

abbrev root : Str
root = 47 ∷ 115 ∷ []

abbrev name : Str
name = 47 ∷ 102 ∷ []

abbrev hidden : Str
hidden = 47 ∷ 115 ∷ 47 ∷ 46 ∷ 102 ∷ []

abbrev main : MainFile
main = record {
  buffer_path = hidden;
  is_on_cloud = false;
  truncated = false;
  chunkinfo = set_chunkinfo (chunk ∷ []);
}

abbrev buffer : Buffer
buffer = record { size = 2; content = [] }

abbrev disk : Disk
disk = record {
  names = (47 ∷ 115 ∷ 47 ∷ 102 ∷ [], 1) ∷ [];
  inodes = (1, regular_file main) ∷ [];
  buffers = (hidden, buffer) ∷ [];
}

abbrev closed : Controller store rabin md5 1
closed = record {
  disk = disk;
  descriptors = [];
  open_files = [];
  chunk_splitter = idle;
  shared = one_used.0;
}

unlink_file_lem_example :
    (c' : Controller store rabin md5 1) × (unlink_file store rabin md5 1 root name closed ≡ ok c')
    × (lookup str_dec (47 ∷ 115 ∷ 47 ∷ 102 ∷ []) c'.disk.names ≡ none)
    × (lookup str_dec hidden c'.disk.buffers ≡ none)
    × Consistent store md5 rabin Known [] c'.shared
    × Remains store md5 rabin Known [] one_used.0 c'.shared
unfolding inode_of lookup links str_dec ℕ_discrete
unlink_file_lem_example =
    unlink_file_lem store rabin md5 1 Known root name main 1 buffer (chunk ∷ []) [] closed refl refl
      refl refl (refl, tt) (refl, tt) listed one_used.1

-- The chunk is in the cache.
uploaded :
    (s : store.State) × (store.upload_chunk chunk.key text 0 2 start ≡ ok s)
    × store.Valid s
    × (store.contents chunk.key s ≡ some (read_at 2 0 text))
unfolding lookup
uploaded =
    let (s, eq, v, stored, others) =
      store.upload_chunk_new chunk.key text 0 2 start ([], 4, start-Valid) refl (omega arith)
        (omega arith) in
    (s, eq, v, stored)

abbrev entry_of_five : OpenFile
entry_of_five = record {
  main_path = root ++ name;
  start = 0;
  len = 0;
  is_dirty = false;
  chunks = chunk ∷ [];
  op_fd = 6;
}

abbrev opened : Controller store rabin md5 1
opened = record closed {
  descriptors = (5, hidden) ∷ (6, hidden) ∷ [];
  open_files = (5, entry_of_five) ∷ [];
  shared = record { table = one_used.0.table; store = uploaded.0 };
}

opened-Opened : Opened store rabin md5 1 5 entry_of_five hidden buffer opened
unfolding lookup str_dec ℕ_discrete
opened-Opened = record { entry = refl; named = refl; op_named = refl; buffer = refl }

opened-Holds : Holds store rabin md5 1 entry_of_five text opened
opened-Holds =
    (uploaded.2, (text, [], refl, refl, refl, omega arith, uploaded.3, refl), omega arith)

read_file_lem_example :
    (f' : OpenFile) × (b' : Buffer) × (c' : Controller store rabin md5 1) × (read_file store rabin
        md5 1 5 4 1 opened
      ≡ ok (8 ∷ [], c'))
    × Opened store rabin md5 1 5 f' hidden b' c'
    × (b'.size ≡ 2)
    × (f'.chunks ≡ chunk ∷ [])
    × Holds store rabin md5 1 f' text c'
read_file_lem_example =
    read_file_lem store rabin md5 1 5 4 1 entry_of_five hidden buffer text opened opened-Opened
      (omega arith) opened-Holds (omega arith)
