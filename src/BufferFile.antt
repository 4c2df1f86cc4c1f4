-- ===== src/BufferFile.antt =====
-- cloudfs/buffer_file.h and cloudfs/buffer_file.cc: objects in the cloud and in the cache on the
-- disk. A file of the cache is named by its key, as its path `cache_root_ + "." + key` is by the key.
-- The file of a user, which a call gets as a file descriptor, is its bytes.
pub mod Valid
pub mod Room
pub mod Copy
pub mod Transfer
pub mod Calls
pub mod Download
pub mod Stored
pub mod Chunks
pub mod Persist
use cloud_file_system.Base.{
  ℕ, zero, suc, ◌+◌, ◌-◌, ◌%◌, ◌^◌, min, Bool, true, false, not, [], ◌++◌, Option, none, some,
  length, drop, if◌then◌else◌, ltb, ◌==◌,
}
use cloud_file_system.Base.Dict.{Dict, lookup, insert, erase}
use cloud_file_system.Base.Int.{ℤ, pos, ◌+ℤ◌, ◌-ℤ◌, ltb_ℤ}
use cloud_file_system.Base.Outcome.{Outcome, ok, failure, undefined, stuck, ◌>>=◌}
use cloud_file_system.Bytes.{Bytes, Str, str_dec, write_at, read_at}
use cloud_file_system.Replacer.{Replacer}
use cloud_file_system.Cloud.{Cloud}

pub record CachedObject : Type 0 where
  pub size : ℕ
  pub dirty : Bool

-- A file of the cache, with the extended attributes that `persist_cache_state` sets.
pub record CacheFile : Type 0 where
  pub content : Bytes
  pub attributes : Option (Str × CachedObject)

-- `R` is the state of the replacer, `C` that of the bucket.
pub record BufferFileController (R C : Type 0) : Type 0 where
  pub cached_objects : Dict Str CachedObject
  pub cache_size : ℤ
  pub cache_used : ℤ
  pub cache_root : Dict Str CacheFile
  pub cache_replacer : R
  pub bucket : C

abbrev pub mem_buffer_len : ℕ
mem_buffer_len = 4096

-- `std::min((int)left, MEM_BUFFER_LEN + 1)`. If the cast to `int` gives a negative number, the read
-- is not bounded by the buffer.
abbrev pub read_size : ℕ → Outcome ℕ
read_size left =
    let v = left % 2 ^ 32 in if ltb v (2 ^ 31) then ok (min v (mem_buffer_len + 1)) else undefined

-- One round of the loop of `download_chunk`: from the cached file, which is read in order, to the
-- file of the user, at its offset.
unfoldable pub copy_out : ℕ → ℕ → ℕ → Bytes → ℕ → Bytes → Outcome Bytes
copy_out zero object_size read_cnt cached offset file =
    if ltb read_cnt object_size then stuck else ok file
copy_out (suc n) object_size read_cnt cached offset file =
    if not (ltb read_cnt object_size) then ok file else do
      len ← read_size (object_size - read_cnt)
      let buffer = read_at len read_cnt cached
      let rest =
          copy_out n object_size (read_cnt + len) cached offset
            (write_at (offset + read_cnt) buffer file)
      if length buffer == len then rest else failure

-- One round of the loop of `upload_chunk`, which appends to the cached file.
unfoldable pub copy_in : ℕ → ℕ → ℕ → Bytes → ℕ → Bytes → Outcome Bytes
copy_in zero size read_cnt file offset cached = if ltb read_cnt size then stuck else ok cached
copy_in (suc n) size read_cnt file offset cached = if not (ltb read_cnt size) then ok cached else do
  len ← read_size (size - read_cnt)
  let buffer = read_at len (offset + read_cnt) file
  let rest = copy_in n size (read_cnt + len) file offset (cached ++ buffer)
  if length buffer == len then rest else failure

abbrev pub object_of : {R C : Type 0} → Str → BufferFileController R C → CachedObject
object_of key s = elim (lookup str_dec key s.cached_objects) [
  | none ↦ record { size = 0; dirty = false }
  | some o ↦ o
]

-- A file after new content is written to it: the attributes of an old one stay.
abbrev pub file_with : Bytes → Option CacheFile → CacheFile
file_with bs none = record { content = bs; attributes = none }
file_with bs (some f) = record f { content = bs }

abbrev pub content_of : Option CacheFile → Bytes
content_of none = []
content_of (some f) = f.content

module _ (replacer : Replacer) (cloud : Cloud) where
  abbrev pub Controller : Type 0
  Controller = BufferFileController replacer.State cloud.State

  -- What the callback of a get receives: nothing if there is no such object.
  abbrev pub received : Str → Controller → Bytes
  received key s = elim (cloud.get key s.bucket) [ none ↦ [] | some bs ↦ bs ]

  -- `open` of the cached file, the put of its content, and `close`.
  abbrev pub write_back : Str → CachedObject → Controller → Outcome Controller
  write_back key o s = elim (lookup str_dec key s.cache_root) [
    | none ↦ failure
    | some f ↦ ok (record s { bucket = cloud.put key o.size f.content s.bucket })
  ]

  -- The body of the loop of `evict_to_size`.
  unfoldable pub evict_one : Controller → Outcome Controller
  evict_one s = do
    (to_evict, r) ← replacer.evict s.cache_replacer
    let o = object_of to_evict s
    let s1 : Controller = record s { cache_replacer = r }
    s2 ← (if o.dirty then write_back to_evict o s1 else ok s1)
    ok (record s2 {
      cache_root = erase str_dec to_evict s2.cache_root;
      cache_used = s2.cache_used -ℤ pos o.size;
      cached_objects = erase str_dec to_evict s2.cached_objects;
    })

  unfoldable pub evict_rounds : ℕ → ℕ → Controller → Outcome Controller
  evict_rounds zero required_size s =
      if ltb_ℤ (s.cache_size -ℤ s.cache_used) (pos required_size) then stuck else ok s
  evict_rounds (suc n) required_size s =
      if not (ltb_ℤ (s.cache_size -ℤ s.cache_used) (pos required_size))
      then ok s
      else do s1 ← evict_one s; evict_rounds n required_size s1

  -- A round takes an object out of the cache, so that there are no more rounds than objects.
  abbrev pub evict_to_size : ℕ → Controller → Outcome Controller
  evict_to_size required_size s = evict_rounds (length s.cached_objects) required_size s

  abbrev pub set_cached : Str → CachedObject → Controller → Controller
  set_cached key o s = record s {
    cached_objects = insert str_dec key o s.cached_objects;
    cache_used = s.cache_used +ℤ pos o.size;
  }

  abbrev pub set_content : Str → Bytes → Controller → Controller
  set_content key bs s = record s {
    cache_root = insert str_dec key (file_with bs (lookup str_dec key s.cache_root)) s.cache_root;
  }

  -- The part of `download_chunk` that fills the cache.
  unfoldable pub fetch : Str → ℕ → Controller → Outcome Controller
  fetch key size s = elim (lookup str_dec key s.cached_objects) [
    | some _ ↦ ok s
    | none ↦ do
      s1 ← evict_to_size size s
      let old = content_of (lookup str_dec key s1.cache_root)
      ok (
          set_cached key (record { size = size; dirty = false })
            (set_content key (write_at 0 (received key s1) old) s1))
  ]

  unfoldable pub access : Str → Controller → Outcome Controller
  access key s = do r ← replacer.access key s.cache_replacer; ok (record s { cache_replacer = r })

  -- The new content of the file, and the new state.
  unfoldable pub download_chunk : Str → Bytes → ℕ → ℕ → Controller → Outcome (Bytes × Controller)
  download_chunk key file offset size s =
      if ltb_ℤ s.cache_size (pos size) then ok (write_at offset (received key s) file, s) else do
        s1 ← fetch key size s
        file' ← (elim (lookup str_dec key s1.cache_root) [
          | none ↦ failure
          | some f ↦
              let object_size = (object_of key s1).size in
              copy_out object_size object_size 0 f.content offset file
        ])
        s2 ← access key s1
        ok (file', s2)

  unfoldable pub upload_chunk : Str → Bytes → ℕ → ℕ → Controller → Outcome Controller
  upload_chunk key file offset size s =
      let cached : Outcome Controller = elim (lookup str_dec key s.cached_objects) [
        | some _ ↦ ok s
        | none ↦ do
          s1 ← evict_to_size size s
          bs ← copy_in size size 0 file offset []
          access key (set_cached key (record { size = size; dirty = true }) (set_content key bs s1))
      ] in
      if ltb_ℤ s.cache_size (pos size)
      then ok (record s { bucket = cloud.put key size (drop offset file) s.bucket })
      else cached

  abbrev pub deleted : Str → Controller → Controller
  deleted key s = record s { bucket = cloud.delete key s.bucket }

  unfoldable pub delete_object : Str → Controller → Outcome Controller
  delete_object key s = elim (lookup str_dec key s.cached_objects) [
    | none ↦ ok (deleted key s)
    | some o ↦ do
      r ← replacer.remove key s.cache_replacer
      let s' : Controller = record s {
        cache_used = s.cache_used -ℤ pos o.size;
        cached_objects = erase str_dec key s.cached_objects;
        cache_root = erase str_dec key s.cache_root;
        cache_replacer = r;
      }
      ok (if o.dirty then s' else deleted key s')
  ]

  -- `download_file` into a file that can be opened, which `fopen(_, "w")` empties.
  unfoldable pub download_file : Str → Controller → Bytes
  download_file key s = received key s

  unfoldable pub upload_file : Str → Bytes → ℕ → Controller → Controller
  upload_file key file size s = record s { bucket = cloud.put key size file s.bucket }
