-- ===== src/CacheReplacer.antt =====
-- cloudfs/cache_replacer.h and cloudfs/cache_replacer.cc: the LRU list as it lies in memory, nodes
-- with `prev_` and `next_` pointers on a heap, and beside it the map from keys to nodes.
pub mod Segment
pub mod Unlink
pub mod Repr
pub mod Remove
pub mod Access
pub mod Evict
pub mod Recency
pub mod Persist
use cloud_file_system.Base.{
  ℕ, zero, suc, ◌+◌, ◌==◌, Bool, true, false, List, [], ◌∷◌, ◌++◌, Option, none, some, length,
  if◌then◌else◌,
}
use cloud_file_system.Base.Dict.{Dict, lookup, insert, erase}
use cloud_file_system.Base.Outcome.{Outcome, ok, runtime_error, undefined, stuck, ◌>>=◌}
use cloud_file_system.Bytes.{Bytes, Str, str_dec, put_size, put_str, get_size, get_str}

-- A pointer to a node; `none` is `nullptr`.
abbrev pub Ptr : Type 0
Ptr = Option ℕ

pub record CacheEntry : Type 0 where
  pub key : Str
  pub prev : Ptr
  pub next : Ptr

-- `none`: no node lies at the address.
abbrev pub Heap : Type 0
Heap = ℕ → Option CacheEntry

abbrev pub update : Heap → ℕ → Option CacheEntry → Heap
update h i c j = if i == j then c else h j

pub record LruCacheReplacer : Type 0 where
  pub head : Ptr
  pub tail : Ptr
  pub cache_entries : Dict Str ℕ
  pub heap : Heap
  -- the address of the next `new CacheEntry()`
  pub fresh : ℕ

-- The constructor with no file to load.
abbrev pub empty : LruCacheReplacer
empty = record { head = none; tail = none; cache_entries = []; heap = λ _. none; fresh = 0 }

abbrev pub ptr_eq : Ptr → ℕ → Bool
ptr_eq none i = false
ptr_eq (some j) i = j == i

-- `*i`
abbrev pub load : ℕ → Heap → Outcome CacheEntry
load i h = elim (h i) [ none ↦ undefined | some c ↦ ok c ]

-- `p->next_ = v`, under the test that `p` is not null.
unfoldable pub set_next : Ptr → Ptr → Heap → Outcome Heap
set_next none v h = ok h
set_next (some i) v h = do c ← load i h; ok (update h i (some (record c { next = v })))

-- `p->prev_ = v`, under the test that `p` is not null.
unfoldable pub set_prev : Ptr → Ptr → Heap → Outcome Heap
set_prev none v h = ok h
set_prev (some i) v h = do c ← load i h; ok (update h i (some (record c { prev = v })))

-- The neighbours of an entry are joined; shared by `access` and `remove`.
unfoldable pub unlink : ℕ → Heap → Outcome Heap
unlink entry h = do
  c ← load entry h
  h ← set_next c.prev c.next h
  c ← load entry h
  set_prev c.next c.prev h

-- `access` of a key that is in the cache, at the entry that the map gives.
unfoldable pub move_to_head : ℕ → LruCacheReplacer → Outcome LruCacheReplacer
move_to_head entry s = if ptr_eq s.head entry then ok s else do
  h ← unlink entry s.heap
  c ← load entry h
  let tail' = if ptr_eq s.tail entry then c.prev else s.tail
  let h' = update h entry (some (record c { prev = none; next = s.head }))
  elim s.head [
    | none ↦ undefined
    | some first ↦ do
      h ← set_prev (some first) (some entry) h'
      ok (record s { head = some entry; tail = tail'; heap = h })
  ]

-- `access` of a new key.
unfoldable pub add_to_head : Str → LruCacheReplacer → Outcome LruCacheReplacer
add_to_head key s = do
  let entry = s.fresh
  let h = update s.heap entry (some (record { key = key; prev = none; next = s.head }))
  h ← set_prev s.head (some entry) h
  ok (record {
    head = some entry;
    tail = elim s.tail [ none ↦ some entry | some t ↦ some t ];
    cache_entries = insert str_dec key entry s.cache_entries;
    heap = h;
    fresh = suc entry;
  })

unfoldable pub access : Str → LruCacheReplacer → Outcome LruCacheReplacer
access key s = elim (lookup str_dec key s.cache_entries) [
  | some entry ↦ move_to_head entry s
  | none ↦ add_to_head key s
]

-- `delete cache_entries_[key]`: the map makes a null pointer for a missing key, and to delete that
-- does nothing.
abbrev pub free_entry : Str → LruCacheReplacer → Heap
free_entry key s = elim (lookup str_dec key s.cache_entries) [
  | none ↦ s.heap
  | some entry ↦ update s.heap entry none
]

-- The key of the victim, and the new state.
unfoldable pub evict : LruCacheReplacer → Outcome (Str × LruCacheReplacer)
evict s = elim s.tail [
  | none ↦ runtime_error
  | some t ↦ do
    c ← load t s.heap
    h ← set_next c.prev none s.heap
    let head' : Ptr = elim c.prev [ none ↦ none | some _ ↦ s.head ]
    let s' = record s { heap = h; tail = c.prev; head = head' }
    ok (
      c.key,
      record s' {
        heap = free_entry c.key s';
        cache_entries = erase str_dec c.key s'.cache_entries;
      },
    )
]

unfoldable pub remove : Str → LruCacheReplacer → Outcome LruCacheReplacer
remove key s = elim (lookup str_dec key s.cache_entries) [
  | none ↦ runtime_error
  | some entry ↦ do
    h ← unlink entry s.heap
    c ← load entry h
    ok (record s {
      heap = update h entry none;
      head = if ptr_eq s.head entry then c.next else s.head;
      tail = if ptr_eq s.tail entry then c.prev else s.tail;
      cache_entries = erase str_dec key s.cache_entries;
    })
]

-- The walk from a node to the end of the list, as `persist` and `print_cache` make it.
unfoldable pub walk : ℕ → Ptr → Heap → Outcome (List Str)
walk fuel none h = ok []
walk zero (some i) h = stuck
walk (suc fuel) (some i) h = do c ← load i h; rest ← walk fuel c.next h; ok (c.key ∷ rest)

unfoldable pub put_strs : List Str → Bytes
put_strs [] = []
put_strs (k ∷ ks) = put_str k ++ put_strs ks

-- The text of the file. No list is longer than the nodes ever made, `fresh`.
unfoldable pub persist : LruCacheReplacer → Outcome Bytes
persist s = do
  ks ← walk s.fresh s.head s.heap
  ok (put_size (length s.cache_entries) ++ put_strs ks)

-- One round of the loop in the constructor: the node goes behind the tail, and not into the map.
unfoldable pub append_entry : Str → LruCacheReplacer → Outcome LruCacheReplacer
append_entry key s = elim s.tail [
  | none ↦ ok (record s {
    head = some s.fresh;
    tail = some s.fresh;
    heap = update s.heap s.fresh (some (record { key = key; prev = none; next = none }));
    fresh = suc s.fresh;
  })
  | some t ↦ do
    let h = update s.heap s.fresh (some (record { key = key; prev = none; next = none }))
    h ← set_next (some t) (some s.fresh) h
    c ← load s.fresh h
    ok (record s {
      tail = some s.fresh;
      heap = update h s.fresh (some (record c { prev = some t }));
      fresh = suc s.fresh;
    })
]

unfoldable pub load_entries : ℕ → Bytes → LruCacheReplacer → Outcome LruCacheReplacer
load_entries zero bs s = ok s
load_entries (suc n) bs s = elim (get_str bs) [
  | none ↦ undefined
  | some (key, rest) ↦ do s' ← append_entry key s; load_entries n rest s'
]

-- The constructor, with the text of the file if there is one.
unfoldable pub load_file : Option Bytes → Outcome LruCacheReplacer
load_file none = ok empty
load_file (some bs) = elim (get_size bs) [
  | none ↦ undefined
  | some (n, rest) ↦ load_entries n rest empty
]
