-- ===== src/CacheReplacer/Evict.antt =====
-- `evict` on the nodes takes the last of the cells.
use cloud_file_system.Base.{ℕ, ◌+◌, ◌≡◌, refl, ◌∙◌, [], ◌∷◌, ◌++◌, none, some, arith, length}
use cloud_file_system.Base.Dict.{
  lookup, erase, erase-NodupKeys, length-erase, lookup-erase_congr, lookup_snoc,
}
use cloud_file_system.Base.Outcome.{ok}
use cloud_file_system.Bytes.{Str, str_dec}
use cloud_file_system.CacheReplacer.{LruCacheReplacer, Ptr, Heap, update, set_next, evict}
use cloud_file_system.CacheReplacer.Segment.{
  Cells, first, last, Apart-symm, Distinct-append, last-append, Seg-append, set_next-Seg,
}
use cloud_file_system.CacheReplacer.Repr.{Repr, Below-append, Seg-update}

pub last_is_some : (j : ℕ) (ys : Cells) → (i : ℕ) × (last (some j) ys ≡ some i)
last_is_some j [] = (j, refl)
last_is_some j (y ∷ ys) = last_is_some y.1 ys

-- The `head_` that an eviction leaves.
head_left :
    (p : Ptr) (k : Str) (e : ℕ) (ys : Cells)
    → p ≡ first (ys ++ ((k, e) ∷ [])) none
    → (elim (last none ys) as (λ _. Ptr) [ none ↦ none | some _ ↦ p ]) ≡ first ys none
head_left p k e [] h = refl
head_left p k e (y ∷ ys) h = let (i, there) = last_is_some y.1 ys in rw there h

evict_step :
    (s : LruCacheReplacer) (k : Str) (e : ℕ) (p : Ptr) (g : Heap)
    → s.tail ≡ some e
    → s.heap e ≡ some (record { key = k; prev = p; next = none })
    → set_next p none s.heap ≡ ok g
    → lookup str_dec k s.cache_entries ≡ some e
    → evict s
      ≡ ok (
        k,
        record s {
          head = elim p [ none ↦ none | some _ ↦ s.head ];
          tail = p;
          heap = update g e none;
          cache_entries = erase str_dec k s.cache_entries;
        },
      )
unfolding evict
evict_step s k e p g tail at eg hit = ground arith

-- `evict` takes the last key, and frees its node.
pub evict-Repr :
    (s : LruCacheReplacer) (k : Str) (e : ℕ) (ys : Cells)
    → Repr s (ys ++ ((k, e) ∷ []))
    → (s' : LruCacheReplacer) × (evict s ≡ ok (k, s')) × Repr s' ys
unfolding evict
evict-Repr s k e ys r =
    let all : Cells = ys ++ ((k, e) ∷ []) in
    let (dy, de, apart) = Distinct-append ys ((k, e) ∷ []) r.distinct in
    let (sy, se) = Seg-append s.heap none none ys ((k, e) ∷ []) r.linked in
    let (g, eg, linked, same) = set_next-Seg s.heap (some e) none ys dy sy in
    let (found, gone, u) = lookup_snoc str_dec k e ys r.unique in
    let rest : length ys + 1 ≡ length all = rw gone at (length-erase str_dec k e all found) in
    let hit : lookup str_dec k s.cache_entries ≡ some e = r.mapped k ∙ found in
    let tail : s.tail ≡ some e = r.ends ∙ last-append none ys ((k, e) ∷ []) in
    let b = Below-append s.fresh ys ((k, e) ∷ []) r.old in
    (
      record s {
        head = elim (last none ys) [ none ↦ none | some _ ↦ s.head ];
        tail = last none ys;
        heap = update g e none;
        cache_entries = erase str_dec k s.cache_entries;
      },
      evict_step s k e (last none ys) g tail se.0 eg hit,
      record {
        linked = Seg-update g none none ys e none (Apart-symm ys ((k, e) ∷ []) apart).0 linked;
        begins = head_left s.head k e ys r.begins;
        ends = refl;
        distinct = dy;
        unique = u;
        mapped = λ j. rw (← gone) (
            lookup-erase_congr str_dec j k s.cache_entries all r.entries_unique r.unique
              (r.mapped j));
        entries_unique = erase-NodupKeys str_dec k s.cache_entries r.entries_unique;
        counted = omega (arith, r.counted, length-erase str_dec k e s.cache_entries hit, rest);
        old = b.0;
        bounded = omega (arith, r.bounded, rest);
      },
    )
