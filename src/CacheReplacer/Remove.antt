-- ===== src/CacheReplacer/Remove.antt =====
-- `remove` on the nodes takes a key out of the list of cells.
use cloud_file_system.Base.{
  ℕ, ◌+◌, ◌≡◌, ◌∙◌, ◌≢◌, [], ◌∷◌, ◌++◌, none, some, arith, false, length, if◌then◌else◌,
}
use cloud_file_system.Base.Dict.{
  lookup, erase, NodupKeys, lookup-erase_self, lookup-erase_ne, erase-NodupKeys, length-erase,
  lookup_split, lookup-erase_congr,
}
use cloud_file_system.Base.Outcome.{ok}
use cloud_file_system.Bytes.{Str, str_dec}
use cloud_file_system.CacheReplacer.{LruCacheReplacer, Ptr, update, ptr_eq, remove}
use cloud_file_system.CacheReplacer.Segment.{
  Cells, first, last, Out, Apart-symm, Distinct-append, last-append,
}
use cloud_file_system.CacheReplacer.Unlink.{unlink-Seg}
use cloud_file_system.CacheReplacer.Repr.{
  Repr, Below-append, append-Below, Distinct-middle, Seg-update,
}

-- The `head_` that a removal leaves.
head_after :
    (p : Ptr) (k : Str) (e : ℕ) (xs ys : Cells)
    → p ≡ first (xs ++ ((k, e) ∷ ys)) none
    → Out e xs
    → (if ptr_eq p e then first ys none else p) ≡ first (xs ++ ys) none
head_after p k e [] ys h o = ground arith
head_after p k e (x ∷ xs) ys h o = ground arith

last-Out : (j e : ℕ) (ys : Cells) → j ≢ e → Out e ys → ptr_eq (last (some j) ys) e ≡ false
last-Out j e [] h o = ground arith
last-Out j e (y ∷ ys) h o = last-Out y.1 e ys o.0 o.1

-- The `tail_` that a removal leaves.
pub tail_after :
    (p : Ptr) (k : Str) (e : ℕ) (xs ys : Cells)
    → p ≡ last none (xs ++ ((k, e) ∷ ys))
    → Out e ys
    → (if ptr_eq p e then last none xs else p) ≡ last none (xs ++ ys)
tail_after p k e xs [] h o = rw (h, last-append, last-append) (ground arith)
tail_after p k e xs (y ∷ ys) h o = rw (
  h,
  last-append none xs ((k, e) ∷ y ∷ ys),
  last-Out y.1 e ys o.0 o.1,
  last-append none xs (y ∷ ys),
)

-- The map finds the same when an entry moves to the front.
lookup_front :
    (j k : Str) (e : ℕ) (xs : Cells)
    → lookup str_dec k xs ≡ some e
    → lookup str_dec j xs ≡ lookup str_dec j ((k, e) ∷ erase str_dec k xs)
unfolding lookup
lookup_front j k e xs found = elim (str_dec j k) [
  | yes p ↦ ground arith
  | no p ↦ ground (arith, lookup-erase_ne str_dec j k xs p)
]

-- What is left of a map without one of its keys.
pub erased :
    (k : Str) (e : ℕ) (all rest : Cells)
    → NodupKeys str_dec all
    → lookup str_dec k all ≡ some e
    → erase str_dec k all ≡ rest
    → NodupKeys str_dec ((k, e) ∷ rest)
      × ((j : Str) → lookup str_dec j all ≡ lookup str_dec j ((k, e) ∷ rest))
      × (length rest + 1 ≡ length all)
erased k e all rest u found gone = rw (← gone) (
  (lookup-erase_self str_dec k all u, erase-NodupKeys str_dec k all u),
  λ j. lookup_front j k e all found,
  length-erase str_dec k e all found,
)

remove_at :
    (s : LruCacheReplacer) (k : Str) (e : ℕ) (xs ys : Cells)
    → Repr s (xs ++ ((k, e) ∷ ys))
    → lookup str_dec k (xs ++ ((k, e) ∷ ys)) ≡ some e
    → erase str_dec k (xs ++ ((k, e) ∷ ys)) ≡ xs ++ ys
    → (s' : LruCacheReplacer) × (remove k s ≡ ok s') × Repr s' (xs ++ ys)
unfolding remove
remove_at s k e xs ys r found gone =
    let all : Cells = xs ++ ((k, e) ∷ ys) in
    let (g, joined, linked, at, same) = unlink-Seg s.heap k e xs ys r.distinct r.linked in
    let (dx, dy, apart) = Distinct-append xs ((k, e) ∷ ys) r.distinct in
    let (d, out) = Distinct-middle xs ys k e r.distinct in
    let (u, front, size) = erased k e all (xs ++ ys) r.unique found gone in
    let b = Below-append s.fresh xs ((k, e) ∷ ys) r.old in
    let hit : lookup str_dec k s.cache_entries ≡ some e = r.mapped k ∙ found in
    (
      record s {
        heap = update g e none;
        head = if ptr_eq s.head e then first ys none else s.head;
        tail = if ptr_eq s.tail e then last none xs else s.tail;
        cache_entries = erase str_dec k s.cache_entries;
      },
      ground (arith, hit, joined, at),
      record {
        linked = Seg-update g none none (xs ++ ys) e none out linked;
        begins = head_after s.head k e xs ys r.begins (Apart-symm xs ((k, e) ∷ ys) apart).0;
        ends = tail_after s.tail k e xs ys r.ends dy.0;
        distinct = d;
        unique = u.1;
        mapped = λ j. rw (← gone) (
            lookup-erase_congr str_dec j k s.cache_entries all r.entries_unique r.unique
              (r.mapped j));
        entries_unique = erase-NodupKeys str_dec k s.cache_entries r.entries_unique;
        counted = omega (arith, r.counted, length-erase str_dec k e s.cache_entries hit, size);
        old = append-Below s.fresh xs ys b.0 b.1.1;
        bounded = omega (arith, r.bounded, size);
      },
    )

-- `remove` takes the key out, wherever it stands.
pub remove-Repr :
    (s : LruCacheReplacer) (k : Str) (e : ℕ) (xs : Cells)
    → Repr s xs
    → lookup str_dec k xs ≡ some e
    → (s' : LruCacheReplacer) × (remove k s ≡ ok s') × Repr s' (erase str_dec k xs)
remove-Repr s k e xs r found =
    let (ys, zs, there, gone) = lookup_split str_dec k e xs found in
    rw gone (remove_at s k e ys zs (rw there at r) (rw there at found) (rw there at gone))
