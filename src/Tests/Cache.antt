-- ===== src/Tests/Cache.antt =====
-- The LRU list of two keys.
use cloud_file_system.Base.{◌≡◌, refl, [], ◌∷◌, some, arith}
use cloud_file_system.Base.Outcome.{ok, runtime_error}
use cloud_file_system.Bytes.{Bytes, Str, str_dec}
use cloud_file_system.Replacer.{has, drop_key}
use cloud_file_system.CacheReplacer.{
  LruCacheReplacer, empty, access, evict, remove, persist, load_file, walk,
}
use cloud_file_system.CacheReplacer.Recency.{
  Shows, empty-Shows, access-Shows, evict-Shows, remove-Shows,
}
use cloud_file_system.CacheReplacer.Persist.{load_file-persist, remove_after_load}

abbrev key_a : Str
key_a = 97 ∷ []

abbrev key_b : Str
key_b = 98 ∷ []

abbrev one : LruCacheReplacer
one = (access-Shows key_a empty [] empty-Shows).0

one-Shows : Shows one (key_a ∷ [])
unfolding drop_key
one-Shows = (access-Shows key_a empty [] empty-Shows).2

abbrev two : LruCacheReplacer
two = (access-Shows key_b one (key_a ∷ []) one-Shows).0

two-Shows : Shows two (key_b ∷ key_a ∷ [])
unfolding drop_key str_dec
two-Shows = (access-Shows key_b one (key_a ∷ []) one-Shows).2

access-Shows_example :
    (s' : LruCacheReplacer) × (access key_a two ≡ ok s')
    × Shows s' (key_a ∷ drop_key key_a (key_b ∷ key_a ∷ []))
access-Shows_example = access-Shows key_a two (key_b ∷ key_a ∷ []) two-Shows

evict-Shows_example : (s' : LruCacheReplacer) × (evict two ≡ ok (key_a, s')) × Shows s' (key_b ∷ [])
evict-Shows_example = evict-Shows key_a two (key_b ∷ []) two-Shows

remove-Shows_example :
    (s' : LruCacheReplacer) × (remove key_a two ≡ ok s')
    × Shows s' (drop_key key_a (key_b ∷ key_a ∷ []))
unfolding has str_dec
remove-Shows_example = remove-Shows key_a two (key_b ∷ key_a ∷ []) two-Shows refl

saved_two :
    (bs : Bytes) × (s' : LruCacheReplacer) × (persist two ≡ ok bs)
    × (load_file (some bs) ≡ ok s')
    × (walk s'.fresh s'.head s'.heap ≡ ok (key_b ∷ key_a ∷ []))
    × (s'.cache_entries ≡ [])
saved_two =
    load_file-persist two (key_b ∷ key_a ∷ []) two-Shows (omega arith, (omega arith, tt))
      (omega arith)

abbrev saved : Bytes
saved = saved_two.0

abbrev loaded : LruCacheReplacer
loaded = saved_two.1

remove_after_load_example : remove key_a loaded ≡ runtime_error
remove_after_load_example =
    remove_after_load two loaded (key_b ∷ key_a ∷ []) saved key_a two-Shows
      (omega arith, (omega arith, tt)) (omega arith) saved_two.2 saved_two.3
