-- ===== src/Tests/Writes.antt =====
-- A byte is written behind an open file of two bytes, which has one chunk.
use cloud_file_system.Base.{
  ℕ, zero, suc, ◌*◌, ◌≡◌, refl, sym, ap, ◌∙◌, false, [], ◌∷◌, ◌++◌, length, arith,
}
unfoldable use cloud_file_system.Base.{ℕ_discrete}
use cloud_file_system.Base.Dict.{lookup}
use cloud_file_system.Bytes.{Bytes, Str, str_dec, write_at}
use cloud_file_system.ChunkSplitter.{hex}
use cloud_file_system.ChunkSplitter.Pieces.{chunk_of}
use cloud_file_system.ChunkTable.{entry}
use cloud_file_system.Snapshot.Format.{Chunk}
use cloud_file_system.Snapshot.Tree.{Buffer}
use cloud_file_system.FileController.{MainFile, OpenFile, regular_file, set_chunkinfo, inode_of}
use cloud_file_system.Dedup.Chunks.{World}
use cloud_file_system.Dedup.Counting.{Consistent, count, count_self}
use cloud_file_system.Dedup.Use.{add_chunk-Consistent}
use cloud_file_system.Dedup.Written.{NoCollision, contents_known}
use cloud_file_system.Dedup.Files.{Controller}
use cloud_file_system.Dedup.Delivery.{Opened, Holds}
use cloud_file_system.Dedup.WriteFile.{FileWritten, write_file_lem}
use cloud_file_system.Dedup.Prepare.{prepare_write_data}
use cloud_file_system.Dedup.Loaded.{Loaded, prepare_write_data-Loaded}
use cloud_file_system.Tests.Objects.{start-Valid}
use cloud_file_system.Tests.Dedup.{rabin, md5, store, nothing, idle}

abbrev eights : ℕ → Bytes
eights zero = []
eights (suc n) = 8 ∷ eights n

-- The byte strings of eights are the known ones.
abbrev Eights : Bytes → Type 0
Eights bs = bs ≡ eights (length bs)

length-hex_lem : (bs : Bytes) → length (hex bs) ≡ 2 * length bs
unfolding hex
length-hex_lem [] = refl
length-hex_lem (b ∷ bs) = omega (arith, length-hex_lem bs)

keys_differ : NoCollision store md5 rabin Eights
keys_differ p q known known' same_key =
    let same : length p ≡ length q =
      omega (arith, length-hex_lem p, length-hex_lem q, ap length same_key) in
    known ∙ ap eights same ∙ sym known'

front_known : (n : ℕ) (p b : Bytes) → eights n ≡ p ++ b → Eights p
front_known n [] b h = refl
front_known zero (x ∷ p) b h = ground (arith, h)
front_known (suc n) (x ∷ p) b h =
    let first : x ≡ 8 = ground (arith, h) in
    let rest : eights n ≡ p ++ b = ground (arith, h) in
    rw first (ap (λ r. 8 ∷ r) (front_known n p b rest))

part_known : (n : ℕ) (a p b : Bytes) → eights n ≡ a ++ (p ++ b) → Eights p
part_known n [] p b h = front_known n p b h
part_known zero (x ∷ a) p b h = ground (arith, h)
part_known (suc n) (x ∷ a) p b h =
    let rest : eights n ≡ a ++ (p ++ b) = ground (arith, h) in part_known n a p b rest

nothing_used : Consistent store md5 rabin Eights [] nothing
unfolding lookup entry count
nothing_used = record {
  nodup = tt;
  valid = ([], 4, start-Valid);
  counted = λ j. refl;
  kept = λ j. (λ dead. refl, λ alive. ground (arith, alive));
}

abbrev chunk_of_two : Chunk
chunk_of_two = chunk_of rabin md5 0 (8 ∷ 8 ∷ [])

two_stored : (w : World store) × Consistent store md5 rabin Eights (chunk_of_two.key ∷ []) w
two_stored =
    let (w, eq, c, grows) =
      add_chunk-Consistent store md5 rabin Eights (8 ∷ 8 ∷ []) 0 0 (8 ∷ 8 ∷ []) [] nothing
        nothing_used (omega arith) refl (omega arith) refl in
    (w, c)

abbrev hidden_name : Str
hidden_name = 47 ∷ 46 ∷ 102 ∷ []

abbrev main_name : Str
main_name = 47 ∷ 102 ∷ []

abbrev main_of_two : MainFile
main_of_two = record {
  buffer_path = hidden_name;
  is_on_cloud = false;
  truncated = false;
  chunkinfo = set_chunkinfo (chunk_of_two ∷ []);
}

abbrev buffer_of_two : Buffer
buffer_of_two = record { size = 2; content = [] }

abbrev file_of_two : OpenFile
file_of_two = record {
  main_path = main_name;
  start = 0;
  len = 0;
  is_dirty = false;
  chunks = chunk_of_two ∷ [];
  op_fd = 6;
}

abbrev open_two : Controller store rabin md5 1
open_two = record {
  disk = record {
    names = (main_name, 1) ∷ [];
    inodes = (1, regular_file main_of_two) ∷ [];
    buffers = (hidden_name, buffer_of_two) ∷ [];
  };
  descriptors = (5, hidden_name) ∷ (6, hidden_name) ∷ [];
  open_files = (5, file_of_two) ∷ [];
  chunk_splitter = idle;
  shared = two_stored.0;
}

open_two-Opened : Opened store rabin md5 1 5 file_of_two hidden_name buffer_of_two open_two
unfolding lookup str_dec ℕ_discrete
open_two-Opened = record { entry = refl; named = refl; op_named = refl; buffer = refl }

open_two-Holds : Holds store rabin md5 1 file_of_two (8 ∷ 8 ∷ []) open_two
open_two-Holds =
    let used = count_self chunk_of_two.key [] in
    let stored =
      contents_known store md5 rabin Eights (chunk_of_two.key ∷ []) two_stored.0 (8 ∷ 8 ∷ [])
        two_stored.1 keys_differ refl (omega (arith, used)) in
    (two_stored.1.valid, (8 ∷ 8 ∷ [], [], refl, refl, refl, omega arith, stored, refl), omega arith)

write_file_lem_example :
    FileWritten store rabin md5 1 Eights 5 (8 ∷ []) 2 hidden_name [] (8 ∷ 8 ∷ 8 ∷ []) open_two
unfolding write_at lookup str_dec ℕ_discrete inode_of
write_file_lem_example =
    write_file_lem store rabin md5 1 Eights 5 2 (8 ∷ []) file_of_two hidden_name buffer_of_two
      main_of_two (8 ∷ 8 ∷ []) [] open_two open_two-Opened (omega arith) refl refl refl
      open_two-Holds two_stored.1 keys_differ (part_known 3) (omega arith) (omega arith)

prepare_write_data-Loaded_example :
    Loaded store
      (prepare_write_data store 2 1 file_of_two two_stored.0.store)
      2
      1
      (8 ∷ 8 ∷ [])
      file_of_two
      two_stored.0.store
prepare_write_data-Loaded_example =
    prepare_write_data-Loaded store 2 1 file_of_two two_stored.0.store (8 ∷ 8 ∷ []) (omega arith)
      open_two-Holds.0 open_two-Holds.1 (omega arith) (omega arith)
