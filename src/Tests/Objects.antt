-- ===== src/Tests/Objects.antt =====
-- An object in a cache of four bytes, over a bucket in memory.
use cloud_file_system.Base.{
  ℕ, ◌≡◌, ◌≢◌, ◌≤◌, ◌+◌, refl, List, [], ◌∷◌, Option, none, some, take, arith,
}
use cloud_file_system.Base.Dict.{lookup}
use cloud_file_system.Base.Int.{pos}
use cloud_file_system.Base.Outcome.{ok}
use cloud_file_system.Bytes.{Bytes, Str, str_dec, write_at, read_at}
use cloud_file_system.Replacer.{has}
use cloud_file_system.Cloud.{Cloud}
use cloud_file_system.CacheReplacer.{empty}
use cloud_file_system.CacheReplacer.Recency.{lru, empty-Shows}
use cloud_file_system.BufferFile.{
  Controller, download_chunk, upload_chunk, delete_object, evict_to_size,
}
use cloud_file_system.BufferFile.Valid.{Valid, contents, total}
use cloud_file_system.BufferFile.Room.{Keeps, evict_to_size-Valid}
use cloud_file_system.BufferFile.Calls.{upload_chunk-Valid, delete_object-Valid}
use cloud_file_system.BufferFile.Persist.{persist_cache_state, persist_cache_state-Valid}
use cloud_file_system.BufferFile.Download.{download_chunk-Valid}

abbrev pub put_in : Str → ℕ → Bytes → (Str → Option Bytes) → Str → Option Bytes
put_in k size bs s j = elim (str_dec j k) [ yes _ ↦ some (take size bs) | no _ ↦ s j ]

abbrev pub delete_in : Str → (Str → Option Bytes) → Str → Option Bytes
delete_in k s j = elim (str_dec j k) [ yes _ ↦ none | no _ ↦ s j ]

pub put_self :
    (k : Str) (size : ℕ) (bs : Bytes) (s : Str → Option Bytes)
    → put_in k size bs s k ≡ some (take size bs)
put_self k size bs s = ground arith

pub put_ne :
    (j k : Str) (size : ℕ) (bs : Bytes) (s : Str → Option Bytes)
    → j ≢ k
    → put_in k size bs s j ≡ s j
put_ne j k size bs s h = ground arith

pub delete_self : (k : Str) (s : Str → Option Bytes) → delete_in k s k ≡ none
delete_self k s = ground arith

pub delete_ne : (j k : Str) (s : Str → Option Bytes) → j ≢ k → delete_in k s j ≡ s j
delete_ne j k s h = ground arith

abbrev pub memory_cloud : Cloud
memory_cloud = record {
  State = Str → Option Bytes;
  get = λ k s. s k;
  put = put_in;
  delete = delete_in;
  get-put_self = λ k size bs s h. put_self k size bs s;
  get-put_ne = put_ne;
  get-delete_self = delete_self;
  get-delete_ne = delete_ne;
}

abbrev pub start : Controller lru memory_cloud
start = record {
  cached_objects = [];
  cache_size = pos 4;
  cache_used = pos 0;
  cache_root = [];
  cache_replacer = empty;
  bucket = λ j. none;
}

pub start-Valid : Valid lru memory_cloud start [] 4
unfolding has lookup
start-Valid = record {
  shown = empty-Shows;
  objects_nodup = tt;
  files_nodup = tt;
  agree = λ j. refl;
  used = refl;
  limit = refl;
  room = omega arith;
}

abbrev key_a : Str
key_a = 97 ∷ []

abbrev key_b : Str
key_b = 98 ∷ []

abbrev text : Bytes
text = 1 ∷ 2 ∷ 3 ∷ 4 ∷ []

abbrev R : Type 0
R = Controller lru memory_cloud

uploaded :
    (s' : R) × (ks' : List Str) × (upload_chunk lru memory_cloud key_a text 1 3 start ≡ ok s')
    × Valid lru memory_cloud s' ks' 4
    × (contents lru memory_cloud key_a s' ≡ some (read_at 3 1 text))
    × ((j : Str) → j ≢ key_a → contents lru memory_cloud j s' ≡ contents lru memory_cloud j start)
unfolding lookup
uploaded =
    upload_chunk-Valid lru memory_cloud key_a text 1 3 start [] 4 start-Valid refl (omega arith)
      (omega arith)

abbrev full : R
full = uploaded.0

abbrev known : List Str
known = uploaded.1

not_a : key_b ≢ key_a
not_a h = ground arith

-- The second object does not fit beside the first, which is written back.
upload_chunk-Valid_example :
    (s' : R) × (ks' : List Str) × (upload_chunk lru memory_cloud key_b text 0 2 full ≡ ok s')
    × Valid lru memory_cloud s' ks' 4
    × (contents lru memory_cloud key_b s' ≡ some (read_at 2 0 text))
    × ((j : Str) → j ≢ key_b → contents lru memory_cloud j s' ≡ contents lru memory_cloud j full)
unfolding lookup
upload_chunk-Valid_example =
    upload_chunk-Valid lru memory_cloud key_b text 0 2 full known 4 uploaded.3
      (uploaded.5 key_b not_a) (omega arith) (omega arith)

download_chunk-Valid_example :
    (s' : R) × (ks' : List Str) × (download_chunk lru memory_cloud key_a [] 2 3 full
      ≡ ok (write_at 2 (2 ∷ 3 ∷ 4 ∷ []) [], s'))
    × Valid lru memory_cloud s' ks' 4
    × ((j : Str) → contents lru memory_cloud j s' ≡ contents lru memory_cloud j full)
download_chunk-Valid_example =
    download_chunk-Valid lru memory_cloud key_a [] (2 ∷ 3 ∷ 4 ∷ []) 2 3 full known 4 uploaded.3
      uploaded.4 refl (omega arith)

delete_object-Valid_example :
    (s' : R) × (ks' : List Str) × (delete_object lru memory_cloud key_a full ≡ ok s')
    × Valid lru memory_cloud s' ks' 4
    × (contents lru memory_cloud key_a s' ≡ none)
    × ((j : Str) → j ≢ key_a → contents lru memory_cloud j s' ≡ contents lru memory_cloud j full)
delete_object-Valid_example = delete_object-Valid lru memory_cloud key_a full known 4 uploaded.3

evict_to_size-Valid_example :
    (s' : R) × (ks' : List Str) × (evict_to_size lru memory_cloud 2 full ≡ ok s')
    × Valid lru memory_cloud s' ks' 4
    × (total s'.cached_objects + 2 ≤ 4)
    × Keeps lru memory_cloud full s'
evict_to_size-Valid_example =
    evict_to_size-Valid lru memory_cloud 2 full known 4 uploaded.3 (omega arith)

persist_cache_state-Valid_example :
    (s' : R) × (persist_cache_state lru memory_cloud full ≡ ok s')
    × Valid lru memory_cloud s' known 4
    × ((j : Str) → contents lru memory_cloud j s' ≡ contents lru memory_cloud j full)
    × ((j : Str) → memory_cloud.get j s'.bucket ≡ contents lru memory_cloud j full)
persist_cache_state-Valid_example =
    persist_cache_state-Valid lru memory_cloud full known 4 uploaded.3
