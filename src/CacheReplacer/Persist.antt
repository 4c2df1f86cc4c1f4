-- ===== src/CacheReplacer/Persist.antt =====
-- The file that `persist` writes, and what the constructor makes of it.
use cloud_file_system.Base.{
  ℕ, zero, suc, ◌^◌, ◌≤◌, ◌<◌, ◌≡◌, refl, sym, ◌∙◌, List, [], ◌∷◌, ◌++◌, none, some, arith, ap,
  length, length-append,
}
use cloud_file_system.Base.Dict.{keys, lookup}
use cloud_file_system.Base.Outcome.{ok, runtime_error, >>=-eq_of_ok}
use cloud_file_system.Bytes.{Bytes, Str, put_size}
use cloud_file_system.Bytes.RoundTrip.{get_size-put_size, get_str-put_str}
use mathlib.Core.List.{append_assoc, append-nil}
use cloud_file_system.CacheReplacer.{
  LruCacheReplacer, Ptr, Heap, empty, update, set_next, remove, walk, put_strs, persist,
  append_entry, load_entries, load_file,
}
use cloud_file_system.CacheReplacer.Segment.{
  Cells, first, last, Seg, Distinct, Apart, last-append, append-Distinct, append-Seg, set_next-Seg,
}
use cloud_file_system.CacheReplacer.Repr.{Below, Below-Out, Below-suc, append-Below, Seg-update}
use cloud_file_system.CacheReplacer.Recency.{Shows}
use cloud_file_system.CacheReplacer.Evict.{last_is_some}

-- Every key is short enough for its length to fit a `size_t`.
abbrev pub Short : List Str → Type 0
Short [] = Unit
Short (k ∷ ks) = (length k < 2 ^ 64) × Short ks

walk-Seg :
    (fuel : ℕ) (h : Heap) (p : Ptr) (xs : Cells)
    → length xs ≤ fuel
    → Seg h p xs none
    → walk fuel (first xs none) h ≡ ok (keys xs)
unfolding walk
walk-Seg zero h p [] n s = refl
walk-Seg (suc fuel) h p [] n s = refl
walk-Seg zero h p (x ∷ xs) n s = absurd (omega arith)
walk-Seg (suc fuel) h p (x ∷ xs) n s =
    ground (arith, walk-Seg fuel h (some x.1) xs (omega arith) s.1)

-- The walk from the head of a well-formed list ends, and finds the keys in their order.
pub walk-Shows :
    (s : LruCacheReplacer) (ks : List Str) → Shows s ks → walk s.fresh s.head s.heap ≡ ok ks
walk-Shows s ks (xs, r, same) =
    rw r.begins (walk-Seg s.fresh s.heap none xs r.bounded r.linked ∙ ap ok same)

length-keys : (xs : Cells) → length (keys xs) ≡ length xs
length-keys [] = refl
length-keys (x ∷ xs) = ap suc (length-keys xs)

pub persist-Shows :
    (s : LruCacheReplacer) (ks : List Str)
    → Shows s ks
    → persist s ≡ ok (put_size (length ks) ++ put_strs ks)
unfolding persist
persist-Shows s ks (xs, r, same) =
    >>=-eq_of_ok (walk s.fresh s.head s.heap) _ (walk-Shows s ks (xs, r, same))
    ∙ rw (r.counted, ← length-keys xs, same)

-- The nodes alone, with no word of the map.
pub record Linked (s : LruCacheReplacer) (xs : Cells) : Type 0 where
  pub linked : Seg s.heap none xs none
  pub begins : s.head ≡ first xs none
  pub ends : s.tail ≡ last none xs
  pub distinct : Distinct xs
  pub old : Below s.fresh xs
  pub bounded : length xs ≤ s.fresh
  pub unmapped : s.cache_entries ≡ []

Apart-from : (e : ℕ) (k : Str) (xs : Cells) → Below e xs → Apart xs ((k, e) ∷ [])
Apart-from e k [] b = tt
Apart-from e k (x ∷ xs) b = (((λ i. absurd (omega arith)), tt), Apart-from e k xs b.1)

append_first :
    (s : LruCacheReplacer) (k : Str)
    → s.tail ≡ none
    → append_entry k s
      ≡ ok (record s {
        head = some s.fresh;
        tail = some s.fresh;
        heap = update s.heap s.fresh (some (record { key = k; prev = none; next = none }));
        fresh = suc s.fresh;
      })
unfolding append_entry
append_first s k tail = ground arith

append_step :
    (s : LruCacheReplacer) (k : Str) (t : ℕ) (g : Heap)
    → s.tail ≡ some t
    → set_next
        (some t)
        (some s.fresh)
        (update s.heap s.fresh (some (record { key = k; prev = none; next = none })))
      ≡ ok g
    → g s.fresh ≡ some (record { key = k; prev = none; next = none })
    → append_entry k s
      ≡ ok (record s {
        tail = some s.fresh;
        heap = update g s.fresh (some (record { key = k; prev = some t; next = none }));
        fresh = suc s.fresh;
      })
unfolding append_entry
append_step s k t g tail eg at = ground arith

-- A round of the constructor's loop puts its key behind all others.
append_entry-Linked :
    (s : LruCacheReplacer) (k : Str) (xs : Cells)
    → Linked s xs
    → (s' : LruCacheReplacer) × (append_entry k s ≡ ok s') × Linked s' (xs ++ ((k, s.fresh) ∷ []))
append_entry-Linked s k [] r = (
  record s {
    head = some s.fresh;
    tail = some s.fresh;
    heap = update s.heap s.fresh (some (record { key = k; prev = none; next = none }));
    fresh = suc s.fresh;
  },
  append_first s k r.ends,
  record {
    linked = (ground arith, tt);
    begins = refl;
    ends = refl;
    distinct = (tt, tt);
    old = (omega arith, tt);
    bounded = omega arith;
    unmapped = r.unmapped;
  },
)
append_entry-Linked s k (x ∷ xs) r =
    let e = s.fresh in
    let all : Cells = x ∷ xs in
    let new : Cells = (k, e) ∷ [] in
    let out = Below-Out e all r.old in
    let h' : Heap = update s.heap e (some (record { key = k; prev = none; next = none })) in
    let (t, there) = last_is_some x.1 xs in
    let (g, eg, linked, same) =
      set_next-Seg h' none (some e) all r.distinct
        (Seg-update s.heap none none all e _ out r.linked) in
    let at : g e ≡ some (record { key = k; prev = none; next = none }) =
      same e out ∙ ground arith in
    let h'' : Heap = update g e (some (record { key = k; prev = some t; next = none })) in
    (
      record s { tail = some e; heap = h''; fresh = suc e },
      append_step s k t g (r.ends ∙ there) (rw there at eg) at,
      record {
        linked =
            append-Seg h'' none none all new (Seg-update g none (some e) all e _ out linked)
              (rw there (ground arith), tt);
        begins = r.begins;
        ends = sym (last-append none all new);
        distinct = append-Distinct all new r.distinct (tt, tt) (Apart-from e k all r.old);
        old = append-Below (suc e) all new (Below-suc e all r.old) (omega arith, tt);
        bounded = omega (arith, length-append all new, r.bounded);
        unmapped = r.unmapped;
      },
    )

keys-append : (xs ys : Cells) → keys (xs ++ ys) ≡ keys xs ++ keys ys
keys-append [] ys = refl
keys-append (x ∷ xs) ys = ap (◌∷◌ x.0) (keys-append xs ys)

load_entries-Linked :
    (ks : List Str) (s : LruCacheReplacer) (xs : Cells)
    → Short ks
    → Linked s xs
    → (s' : LruCacheReplacer) × (ys : Cells) × (load_entries (length ks) (put_strs ks) s ≡ ok s')
      × Linked s' ys
      × (keys ys ≡ keys xs ++ ks)
unfolding load_entries put_strs
load_entries-Linked [] s xs short r = (s, xs, refl, r, sym (append-nil (keys xs)))
load_entries-Linked (k ∷ ks) s xs short r =
    let (s', eq, r') = append_entry-Linked s k xs r in
    let all : Cells = xs ++ ((k, s.fresh) ∷ []) in
    let (s'', ys, eq', r'', same) = load_entries-Linked ks s' all short.1 r' in
    (
      s'',
      ys,
      rw (get_str-put_str k (put_strs ks) short.0, load_entries)
          (>>=-eq_of_ok (append_entry k s) _ eq ∙ eq'),
      r'',
      same ∙ rw (keys-append xs ((k, s.fresh) ∷ [])) (append_assoc (keys xs) (k ∷ []) ks),
    )

pub load_file-persist :
    (s : LruCacheReplacer) (ks : List Str)
    → Shows s ks
    → Short ks
    → length ks < 2 ^ 64
    → (bs : Bytes) × (s' : LruCacheReplacer) × (persist s ≡ ok bs)
      × (load_file (some bs) ≡ ok s')
      × (walk s'.fresh s'.head s'.heap ≡ ok ks)
      × (s'.cache_entries ≡ [])
unfolding load_file
load_file-persist s ks shown short fits =
    let (s', ys, eq, r, same) = load_entries-Linked ks empty [] short (record {
      linked = tt;
      begins = refl;
      ends = refl;
      distinct = tt;
      old = tt;
      bounded = omega arith;
      unmapped = refl;
    }) in
    (
      put_size (length ks) ++ put_strs ks,
      s',
      persist-Shows s ks shown,
      rw (get_size-put_size (length ks) (put_strs ks) fits, load_file) eq,
      rw r.begins (walk-Seg s'.fresh s'.heap none ys r.bounded r.linked ∙ ap ok same),
      r.unmapped,
    )

-- After the constructor has loaded what `persist` wrote, no key can be removed, also none of those in
-- the list. The lengths fit their types.
pub remove_after_load :
    (s s' : LruCacheReplacer) (ks : List Str) (bs : Bytes) (k : Str)
    → Shows s ks
    → Short ks
    → length ks < 2 ^ 64
    → persist s ≡ ok bs
    → load_file (some bs) ≡ ok s'
    → remove k s' ≡ runtime_error
unfolding remove lookup
remove_after_load s s' ks bs k shown short fits saved loaded =
    let (bs', t, saved', loaded', _, unmapped) = load_file-persist s ks shown short fits in
    let same : bs ≡ bs' = cc in let same' : s' ≡ t = cc in rw (same', unmapped, remove)
