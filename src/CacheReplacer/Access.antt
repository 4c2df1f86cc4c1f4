-- ===== src/CacheReplacer/Access.antt =====
-- `access` on the nodes moves or adds a key to the front of the list of cells.
use cloud_file_system.Base.{
  ℕ, suc, ◌≡◌, refl, sym, ◌∙◌, ◌≢◌, [], ◌∷◌, ◌++◌, none, some, arith, Option-cases, inl, inr,
  if◌then◌else◌,
}
use cloud_file_system.Base.Dict.{
  lookup, insert, erase, lookup-insert_self, lookup-insert_ne, insert-NodupKeys, length-insert_new,
  lookup_split, erase_absent,
}
use cloud_file_system.Base.Outcome.{ok}
use cloud_file_system.Bytes.{Str, str_dec}
use cloud_file_system.CacheReplacer.{
  LruCacheReplacer, Ptr, Heap, update, ptr_eq, unlink, set_prev, move_to_head, add_to_head, access,
}
use cloud_file_system.CacheReplacer.Segment.{Cells, first, last, Distinct-append, set_prev-Seg}
use cloud_file_system.CacheReplacer.Unlink.{unlink-Seg}
use cloud_file_system.CacheReplacer.Repr.{
  Repr, Below-Out, Below-append, append-Below, Below-suc, Distinct-middle, Seg-update,
}
use cloud_file_system.CacheReplacer.Remove.{tail_after, erased}

move_step :
    (s : LruCacheReplacer) (k : Str) (e i : ℕ) (p n : Ptr) (g g' : Heap)
    → s.head ≡ some i
    → i ≢ e
    → unlink e s.heap ≡ ok g
    → g e ≡ some (record { key = k; prev = p; next = n })
    → set_prev
        (some i)
        (some e)
        (update g e (some (record { key = k; prev = none; next = some i })))
      ≡ ok g'
    → move_to_head e s
      ≡ ok (record s { head = some e; tail = if ptr_eq s.tail e then p else s.tail; heap = g' })
unfolding move_to_head
move_step s k e i p n g g' head ne joined at eg' = ground arith

move_at :
    (s : LruCacheReplacer) (k : Str) (e : ℕ) (xs ys : Cells)
    → Repr s (xs ++ ((k, e) ∷ ys))
    → lookup str_dec k (xs ++ ((k, e) ∷ ys)) ≡ some e
    → erase str_dec k (xs ++ ((k, e) ∷ ys)) ≡ xs ++ ys
    → (s' : LruCacheReplacer) × (move_to_head e s ≡ ok s') × Repr s' ((k, e) ∷ (xs ++ ys))
unfolding move_to_head
move_at s k e [] ys r found gone = (s, ground (arith, r.begins), r)
move_at s k e (x ∷ xs) ys r found gone =
    let all : Cells = x ∷ (xs ++ ((k, e) ∷ ys)) in
    let (g, joined, linked, at, same) = unlink-Seg s.heap k e (x ∷ xs) ys r.distinct r.linked in
    let (dx, dy, apart) = Distinct-append (x ∷ xs) ((k, e) ∷ ys) r.distinct in
    let (d, out) = Distinct-middle (x ∷ xs) ys k e r.distinct in
    let h' : Heap = update g e (some (record { key = k; prev = none; next = some x.1 })) in
    let (g', eg', linked', same') =
      set_prev-Seg h' none none (some e) (x ∷ (xs ++ ys)) d
        (Seg-update g none none (x ∷ (xs ++ ys)) e _ out linked) in
    let at' : g' e ≡ h' e = same' e out in
    let b = Below-append s.fresh (x ∷ xs) ((k, e) ∷ ys) r.old in
    let (u, front, size) = erased k e all (x ∷ (xs ++ ys)) r.unique found gone in
    (
      record s {
        head = some e;
        tail = if ptr_eq s.tail e then last none (x ∷ xs) else s.tail;
        heap = g';
      },
      move_step s k e x.1 (last (some x.1) xs) (first ys none) g g' r.begins
          (λ i. apart.0.0 (sym i)) joined at eg',
      record {
        linked = (at' ∙ ground arith, linked');
        begins = refl;
        ends = tail_after s.tail k e (x ∷ xs) ys r.ends dy.0;
        distinct = (out, d);
        unique = u;
        mapped = λ j. r.mapped j ∙ front j;
        entries_unique = r.entries_unique;
        counted = omega (arith, r.counted, size);
        old = (b.1.0, append-Below s.fresh (x ∷ xs) ys b.0 b.1.1);
        bounded = omega (arith, r.bounded, size);
      },
    )

last-some :
    (j : ℕ) (d : Ptr) (xs : Cells)
    → (elim (last (some j) xs) as (λ _. Ptr) [ none ↦ d | some t ↦ some t ]) ≡ last (some j) xs
last-some j d [] = refl
last-some j d (x ∷ xs) = last-some x.1 d xs

tail_added :
    (p : Ptr) (e : ℕ) (xs : Cells)
    → p ≡ last none xs
    → (elim p as (λ _. Ptr) [ none ↦ some e | some t ↦ some t ]) ≡ last (some e) xs
tail_added p e [] h = ground arith
tail_added p e (x ∷ xs) h = rw h (last-some x.1 (some e) xs)

lookup_added :
    (j k : Str) (e : ℕ) (m xs : Cells)
    → lookup str_dec j m ≡ lookup str_dec j xs
    → lookup str_dec j (insert str_dec k e m) ≡ lookup str_dec j ((k, e) ∷ xs)
unfolding lookup
lookup_added j k e m xs h = elim (str_dec j k) [
  | yes p ↦ ground (arith, lookup-insert_self str_dec k e m)
  | no p ↦ ground (arith, lookup-insert_ne str_dec j k e m p)
]

add_at :
    (s : LruCacheReplacer) (k : Str) (xs : Cells)
    → Repr s xs
    → lookup str_dec k xs ≡ none
    → (s' : LruCacheReplacer) × (add_to_head k s ≡ ok s') × Repr s' ((k, s.fresh) ∷ xs)
unfolding add_to_head
add_at s k xs r missing =
    let e = s.fresh in
    let out = Below-Out e xs r.old in
    let h' : Heap = update s.heap e (some (record { key = k; prev = none; next = s.head })) in
    let (g, eg, linked, same) =
      set_prev-Seg h' none none (some e) xs r.distinct
        (Seg-update s.heap none none xs e _ out r.linked) in
    let absent = r.mapped k ∙ missing in
    (
      record {
        head = some e;
        tail = elim s.tail [ none ↦ some e | some t ↦ some t ];
        cache_entries = insert str_dec k e s.cache_entries;
        heap = g;
        fresh = suc e;
      },
      ground (arith, r.begins, eg),
      record {
        linked = (same e out ∙ ground (arith, r.begins), linked);
        begins = refl;
        ends = tail_added s.tail e xs r.ends;
        distinct = (out, r.distinct);
        unique = (missing, r.unique);
        mapped = λ j. lookup_added j k e s.cache_entries xs (r.mapped j);
        entries_unique = insert-NodupKeys str_dec k e s.cache_entries r.entries_unique;
        counted = omega (arith, r.counted, length-insert_new str_dec k e s.cache_entries absent);
        old = (omega arith, Below-suc e xs r.old);
        bounded = omega (arith, r.bounded);
      },
    )

pub access-Repr :
    (s : LruCacheReplacer) (k : Str) (xs : Cells)
    → Repr s xs
    → (s' : LruCacheReplacer) × (e : ℕ) × (access k s ≡ ok s')
      × Repr s' ((k, e) ∷ erase str_dec k xs)
unfolding access
access-Repr s k xs r = elim (Option-cases (lookup str_dec k xs)) [
  | inl missing ↦
      let (s', eq, r') = add_at s k xs r missing in
      (s', s.fresh, rw (r.mapped k ∙ missing, access) eq, rw (erase_absent str_dec k xs missing) r')
  | inr (e, found) ↦
      let (ys, zs, there, gone) = lookup_split str_dec k e xs found in
      let (s', eq, r') =
        move_at s k e ys zs (rw there at r) (rw there at found) (rw there at gone) in
      (s', e, rw (r.mapped k ∙ found, access) eq, rw gone r')
]
