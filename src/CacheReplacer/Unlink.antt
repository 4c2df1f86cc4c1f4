-- ===== src/CacheReplacer/Unlink.antt =====
-- What joining an entry's neighbours does to the list.
use cloud_file_system.Base.{◌≡◌, ◌∙◌, ◌∷◌, ◌++◌, ℕ, none, some, arith}
use cloud_file_system.Base.Outcome.{ok}
use cloud_file_system.Bytes.{Str}
use cloud_file_system.CacheReplacer.{Heap, unlink}
use cloud_file_system.CacheReplacer.Segment.{
  Cells, first, last, Seg, Distinct, SameOutside, Out-append, Apart-symm, Distinct-append,
  Seg-append, append-Seg, Seg-frame, set_next-Seg, set_prev-Seg,
}

-- The entry comes out of the list, and keeps the pointers to its old neighbours.
pub unlink-Seg :
    (h : Heap) (k : Str) (e : ℕ) (xs ys : Cells)
    → Distinct (xs ++ ((k, e) ∷ ys))
    → Seg h none (xs ++ ((k, e) ∷ ys)) none
    → (g : Heap) × (unlink e h ≡ ok g)
      × Seg g none (xs ++ ys) none
      × (g e ≡ some (record { key = k; prev = last none xs; next = first ys none }))
      × SameOutside (xs ++ ys) h g
unfolding unlink
unlink-Seg h k e xs ys d s =
    let (dx, dy, apart) = Distinct-append xs ((k, e) ∷ ys) d in
    let (sx, sy) = Seg-append h none none xs ((k, e) ∷ ys) s in
    let (g, eg, tx, same) = set_next-Seg h (some e) (first ys none) xs dx sx in
    let out = Apart-symm xs ((k, e) ∷ ys) apart in
    let (g', eg', ty, same') =
      set_prev-Seg g (some e) none (last none xs) ys dy.1
        (Seg-frame h g (some e) none ys xs same out.1 sy.1) in
    let at : g e ≡ some (record { key = k; prev = last none xs; next = first ys none }) =
      same e out.0 ∙ sy.0 in
    (
      g',
      ground (arith, sy.0, eg, at, eg'),
      append-Seg g' none none xs ys
          (Seg-frame g g' none (first ys none) xs ys same' (Apart-symm ys xs out.1) tx) ty,
      same' e dy.0 ∙ at,
      λ i o. let (ox, oy) = Out-append i xs ys o in same' i oy ∙ same i ox,
    )
