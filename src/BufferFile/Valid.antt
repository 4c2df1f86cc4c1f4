-- ===== src/BufferFile/Valid.antt =====
-- The invariant of `BufferFileController`: the map of the cached objects, the files of the cache, the
-- replacer and the bucket agree on every key, and the cache is not fuller than it may be.
use cloud_file_system.Base.{
  ℕ, ◌+◌, ◌≤◌, ◌≡◌, ◌≢◌, refl, Bool, true, false, List, [], ◌∷◌, ◌++◌, Option, none, some, length,
  arith, if◌then◌else◌,
}
use cloud_file_system.Base.Dict.{Dict, lookup, insert, erase, NodupKeys}
use cloud_file_system.Base.Int.{pos}
use cloud_file_system.Bytes.{Bytes, Str, str_dec}
use cloud_file_system.Replacer.{Replacer, has, drop_key, DistinctKeys}
use cloud_file_system.Cloud.{Cloud}
use cloud_file_system.BufferFile.{CachedObject, CacheFile, Controller}

-- How full a cache of these objects is.
abbrev pub total : Dict Str CachedObject → ℕ
total [] = 0
total (e ∷ d) = e.1.size + total d

pub total-erase :
    (k : Str) (o : CachedObject) (d : Dict Str CachedObject)
    → lookup str_dec k d ≡ some o
    → total (erase str_dec k d) + o.size ≡ total d
unfolding lookup erase
total-erase k o [] h = cc
total-erase k o (e ∷ d) h = ground (arith, total-erase k o d)

pub total-insert :
    (k : Str) (o : CachedObject) (d : Dict Str CachedObject)
    → lookup str_dec k d ≡ none
    → total (insert str_dec k o d) ≡ total d + o.size
unfolding lookup insert
total-insert k o [] h = ground arith
total-insert k o (e ∷ d) h = ground (arith, total-insert k o d)

-- What the replacer, the map, the cache on the disk and the bucket have for one key: a cached object
-- has a file of its size, and the bucket has the same bytes, or nothing while it is dirty.
abbrev pub Agree : Bool → Option CachedObject → Option CacheFile → Option Bytes → Type 0
Agree known none none stored = known ≡ false
Agree known none (some f) stored = ⊥
Agree known (some o) none stored = ⊥
Agree known (some o) (some f) stored =
    (known ≡ true)
    × (length f.content ≡ o.size)
    × (stored ≡ (if o.dirty then none else some f.content))

-- What a download delivers.
abbrev pub visible : Option CacheFile → Option Bytes → Option Bytes
visible none stored = stored
visible (some f) stored = some f.content

module _ (replacer : Replacer) (cloud : Cloud) where
  abbrev pub contents : Str → Controller replacer cloud → Option Bytes
  contents j s = visible (lookup str_dec j s.cache_root) (cloud.get j s.bucket)

  pub record Valid (s : Controller replacer cloud) (ks : List Str) (capacity : ℕ) : Type 0 where
    pub shown : replacer.Shows s.cache_replacer ks
    pub objects_nodup : NodupKeys str_dec s.cached_objects
    pub files_nodup : NodupKeys str_dec s.cache_root
    pub agree :
        (j : Str)
        → Agree
            (has j ks)
            (lookup str_dec j s.cached_objects)
            (lookup str_dec j s.cache_root)
            (cloud.get j s.bucket)
    pub used : s.cache_used ≡ pos (total s.cached_objects)
    pub limit : s.cache_size ≡ pos capacity
    pub room : total s.cached_objects ≤ capacity

-- The list of keys that the replacer has.
pub has-snoc_self : (k : Str) (ks : List Str) → has k (ks ++ (k ∷ [])) ≡ true
unfolding has
has-snoc_self k [] = ground arith
has-snoc_self k (i ∷ ks) = ground (arith, has-snoc_self k ks)

pub has-snoc_ne : (j k : Str) (ks : List Str) → j ≢ k → has j (ks ++ (k ∷ [])) ≡ has j ks
unfolding has
has-snoc_ne j k [] h = ground arith
has-snoc_ne j k (i ∷ ks) h = ground (arith, has-snoc_ne j k ks h)

pub DistinctKeys-snoc : (k : Str) (ks : List Str) → DistinctKeys (ks ++ (k ∷ [])) → has k ks ≡ false
unfolding has
DistinctKeys-snoc k [] u = refl
DistinctKeys-snoc k (i ∷ ks) u = ground (arith, DistinctKeys-snoc k ks u.1, has-snoc_self k ks)

pub has-drop_key_ne : (j k : Str) (ks : List Str) → j ≢ k → has j (drop_key k ks) ≡ has j ks
unfolding has drop_key
has-drop_key_ne j k [] h = refl
has-drop_key_ne j k (i ∷ ks) h = ground (arith, has-drop_key_ne j k ks h)

pub has-drop_key_self : (k : Str) (ks : List Str) → DistinctKeys ks → has k (drop_key k ks) ≡ false
unfolding has drop_key
has-drop_key_self k [] u = refl
has-drop_key_self k (i ∷ ks) u = ground (arith, has-drop_key_self k ks u.1)

pub has-first : (j k : Str) (ks : List Str) → j ≢ k → has j (k ∷ drop_key k ks) ≡ has j ks
unfolding has
has-first j k ks h = ground (arith, has-drop_key_ne j k ks h)

pub has-first_self : (k : Str) (ks : List Str) → has k (k ∷ ks) ≡ true
unfolding has
has-first_self k ks = ground arith
