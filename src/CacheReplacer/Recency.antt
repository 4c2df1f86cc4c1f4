-- ===== src/CacheReplacer/Recency.antt =====
-- The nodes as an abstract replacer: the list of keys in the order of their use.
use cloud_file_system.Base.{
  ℕ, ◌≡◌, refl, ◌∙◌, inl, inr, true, false, List, [], ◌∷◌, ◌++◌, none, some, arith, Option-cases,
  ap,
}
use cloud_file_system.Base.Dict.{keys, lookup, erase, NodupKeys}
use cloud_file_system.Base.Outcome.{ok, runtime_error}
use cloud_file_system.Bytes.{Str, str_dec}
use cloud_file_system.Replacer.{has, drop_key, DistinctKeys, Replacer}
use cloud_file_system.CacheReplacer.{LruCacheReplacer, empty, access, evict, remove}
use cloud_file_system.CacheReplacer.Segment.{Cells}
use cloud_file_system.CacheReplacer.Repr.{Repr}
use cloud_file_system.CacheReplacer.Remove.{remove-Repr}
use cloud_file_system.CacheReplacer.Access.{access-Repr}
use cloud_file_system.CacheReplacer.Evict.{evict-Repr}

-- The nodes and the map stand for the keys `ks`, the most recently used first.
abbrev pub Shows : LruCacheReplacer → List Str → Type 0
Shows s ks = (xs : Cells) × Repr s xs × (keys xs ≡ ks)

keys-erase : (k : Str) (xs : Cells) → keys (erase str_dec k xs) ≡ drop_key k (keys xs)
unfolding erase drop_key
keys-erase k [] = refl
keys-erase k (x ∷ xs) = ground (arith, keys-erase k xs)

has-keys-none : (k : Str) (xs : Cells) → lookup str_dec k xs ≡ none → has k (keys xs) ≡ false
unfolding lookup has
has-keys-none k [] h = refl
has-keys-none k (x ∷ xs) h = ground (arith, has-keys-none k xs)

has-keys-some :
    (k : Str) (e : ℕ) (xs : Cells) → lookup str_dec k xs ≡ some e → has k (keys xs) ≡ true
unfolding lookup has
has-keys-some k e [] h = cc
has-keys-some k e (x ∷ xs) h = ground (arith, has-keys-some k e xs)

keys_distinct : (xs : Cells) → NodupKeys str_dec xs → DistinctKeys (keys xs)
keys_distinct [] u = tt
keys_distinct (x ∷ xs) u = (has-keys-none x.0 xs u.0, keys_distinct xs u.1)

keys_snoc :
    (k : Str) (ks : List Str) (xs : Cells)
    → keys xs ≡ ks ++ (k ∷ [])
    → (ys : Cells) × (e : ℕ) × (xs ≡ ys ++ ((k, e) ∷ [])) × (keys ys ≡ ks)
keys_snoc k [] [] h = cc
keys_snoc k [] (x ∷ []) h = ([], x.1, ground arith, refl)
keys_snoc k [] (x ∷ y ∷ xs) h = absurd (ground arith)
keys_snoc k (j ∷ ks) [] h = cc
keys_snoc k (j ∷ ks) (x ∷ xs) h =
    let (ys, e, there, same) = keys_snoc k ks xs (ground arith) in
    (x ∷ ys, e, ground arith, ground arith)

pub empty-Shows : Shows empty []
unfolding lookup
empty-Shows = (
  [],
  record {
    linked = tt;
    begins = refl;
    ends = refl;
    distinct = tt;
    unique = tt;
    mapped = λ k. refl;
    entries_unique = tt;
    counted = refl;
    old = tt;
    bounded = omega arith;
  },
  refl,
)

pub Shows-DistinctKeys : (s : LruCacheReplacer) (ks : List Str) → Shows s ks → DistinctKeys ks
Shows-DistinctKeys s ks (xs, r, same) = rw (← same) (keys_distinct xs r.unique)

-- Where nodes and map stand for a list of keys, an access puts the key in front of all others, and keeps their order.
pub access-Shows :
    (k : Str) (s : LruCacheReplacer) (ks : List Str)
    → Shows s ks
    → (s' : LruCacheReplacer) × (access k s ≡ ok s') × Shows s' (k ∷ drop_key k ks)
access-Shows k s ks (xs, r, same) =
    let (s', e, eq, r') = access-Repr s k xs r in
    (s', eq, ((k, e) ∷ erase str_dec k xs, r', ap (◌∷◌ k) (keys-erase k xs ∙ ap (drop_key k) same)))

-- Where nodes and map stand for a list of keys that is not empty, an eviction takes the key at the
-- end, the least recently used, and leaves the others in their order.
pub evict-Shows :
    (k : Str) (s : LruCacheReplacer) (ks : List Str)
    → Shows s (ks ++ (k ∷ []))
    → (s' : LruCacheReplacer) × (evict s ≡ ok (k, s')) × Shows s' ks
evict-Shows k s ks (xs, r, same) =
    let (ys, e, there, left) = keys_snoc k ks xs same in
    let (s', eq, r') = evict-Repr s k e ys (rw there at r) in (s', eq, (ys, r', left))

pub evict_empty : (s : LruCacheReplacer) → Shows s [] → evict s ≡ runtime_error
unfolding evict
evict_empty s ([], r, same) = ground (arith, r.ends)
evict_empty s (x ∷ xs, r, same) = absurd (ground arith)

-- Where nodes and map stand for a list of keys with the key, a removal takes it out, and leaves the
-- others in their order.
pub remove-Shows :
    (k : Str) (s : LruCacheReplacer) (ks : List Str)
    → Shows s ks
    → has k ks ≡ true
    → (s' : LruCacheReplacer) × (remove k s ≡ ok s') × Shows s' (drop_key k ks)
remove-Shows k s ks (xs, r, same) there = elim (Option-cases (lookup str_dec k xs)) [
  | inl missing ↦ absurd (ground (arith, has-keys-none k xs missing))
  | inr (e, found) ↦
      let (s', eq, r') = remove-Repr s k e xs r found in
      (s', eq, (erase str_dec k xs, r', keys-erase k xs ∙ ap (drop_key k) same))
]

pub remove_missing :
    (k : Str) (s : LruCacheReplacer) (ks : List Str)
    → Shows s ks
    → has k ks ≡ false
    → remove k s ≡ runtime_error
unfolding remove
remove_missing k s ks (xs, r, same) gone = elim (Option-cases (lookup str_dec k xs)) [
  | inl missing ↦ rw (r.mapped k ∙ missing, remove)
  | inr (e, found) ↦ absurd (ground (arith, has-keys-some k e xs found))
]

-- The LRU list is a replacer.
abbrev pub lru : Replacer
lru = record {
  State = LruCacheReplacer;
  access = access;
  evict = evict;
  remove = remove;
  Shows = Shows;
  Shows-DistinctKeys = Shows-DistinctKeys;
  access-Shows = access-Shows;
  evict-Shows = evict-Shows;
  evict_empty = evict_empty;
  remove-Shows = remove-Shows;
  remove_missing = remove_missing;
}
