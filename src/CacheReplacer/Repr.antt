-- ===== src/CacheReplacer/Repr.antt =====
-- When the nodes and the map of a `LruCacheReplacer` stand for a list of cells.
use cloud_file_system.Base.{ℕ, suc, ◌≤◌, ◌<◌, ◌≡◌, [], ◌∷◌, ◌++◌, none, some, Option, arith, length}
use cloud_file_system.Base.Dict.{lookup, NodupKeys}
use cloud_file_system.Bytes.{Str, str_dec}
use cloud_file_system.CacheReplacer.{Ptr, CacheEntry, LruCacheReplacer, Heap, update}
use cloud_file_system.CacheReplacer.Segment.{
  Cells, first, last, Seg, Out, Distinct, append-Out, Apart-symm, Distinct-append, append-Distinct,
}

abbrev pub Below : ℕ → Cells → Type 0
Below n [] = Unit
Below n (x ∷ xs) = (x.1 < n) × Below n xs

pub record Repr (s : LruCacheReplacer) (xs : Cells) : Type 0 where
  pub linked : Seg s.heap none xs none
  pub begins : s.head ≡ first xs none
  pub ends : s.tail ≡ last none xs
  pub distinct : Distinct xs
  pub unique : NodupKeys str_dec xs
  pub mapped : (k : Str) → lookup str_dec k s.cache_entries ≡ lookup str_dec k xs
  pub entries_unique : NodupKeys str_dec s.cache_entries
  pub counted : length s.cache_entries ≡ length xs
  pub old : Below s.fresh xs
  pub bounded : length xs ≤ s.fresh

pub Below-Out : (n : ℕ) (xs : Cells) → Below n xs → Out n xs
Below-Out n [] h = tt
Below-Out n (x ∷ xs) h = ((λ e. absurd (omega arith)), Below-Out n xs h.1)

pub Below-append : (n : ℕ) (xs ys : Cells) → Below n (xs ++ ys) → Below n xs × Below n ys
Below-append n [] ys h = (tt, h)
Below-append n (x ∷ xs) ys h = let r = Below-append n xs ys h.1 in ((h.0, r.0), r.1)

pub append-Below : (n : ℕ) (xs ys : Cells) → Below n xs → Below n ys → Below n (xs ++ ys)
append-Below n [] ys h k = k
append-Below n (x ∷ xs) ys h k = (h.0, append-Below n xs ys h.1 k)

pub Below-suc : (n : ℕ) (xs : Cells) → Below n xs → Below (suc n) xs
Below-suc n [] h = tt
Below-suc n (x ∷ xs) h = (omega arith, Below-suc n xs h.1)

-- A cell in the middle comes out.
pub Distinct-middle :
    (xs ys : Cells) (k : Str) (e : ℕ)
    → Distinct (xs ++ ((k, e) ∷ ys))
    → Distinct (xs ++ ys) × Out e (xs ++ ys)
Distinct-middle xs ys k e d =
    let (dx, dy, apart) = Distinct-append xs ((k, e) ∷ ys) d in
    let out = Apart-symm xs ((k, e) ∷ ys) apart in
    (append-Distinct xs ys dx dy.1 (Apart-symm ys xs out.1), append-Out e xs ys out.0 dy.0)

-- A write to an address outside of a run.
pub Seg-update :
    (h : Heap) (p q : Ptr) (xs : Cells) (i : ℕ) (c : Option CacheEntry)
    → Out i xs
    → Seg h p xs q
    → Seg (update h i c) p xs q
Seg-update h p q [] i c o s = tt
Seg-update h p q (x ∷ xs) i c o s = (ground arith, Seg-update h (some x.1) q xs i c o.1 s.1)
