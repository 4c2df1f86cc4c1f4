-- ===== src/Dedup/Splice.antt =====
-- A write in the middle of a file, and the chunk list after it.
use cloud_file_system.Base.{
  ℕ, ◌+◌, ◌-◌, ◌^◌, ◌≤◌, ◌<◌, ◌≡◌, refl, sym, ap, ◌∙◌, ◌⊎◌, inl, inr, List, [], ◌∷◌, ◌++◌, length,
  take, drop, arith, some, length-append, take-append-drop, drop-drop,
}
use mathlib.Core.List.{append_assoc, append-nil}
use cloud_file_system.Bytes.{Bytes, Str, write_at}
use cloud_file_system.ChunkStore.{ChunkStore}
use cloud_file_system.ChunkSplitter.{Rabin, key_of}
use cloud_file_system.ChunkSplitter.Pieces.{chunks_of, join}
use cloud_file_system.Snapshot.Format.{Chunk}
use cloud_file_system.FileController.ChunkInfo.{total_len}
use cloud_file_system.Dedup.Prepare.{range}
use cloud_file_system.Dedup.Counting.{count, keys_of}
use cloud_file_system.Dedup.Contents.{Describes, Describes-split, Describes-total}

write_at_front : (n m : Bytes) → length m ≤ length n → write_at 0 n m ≡ n
unfolding write_at
write_at_front [] [] h = refl
write_at_front [] (c ∷ m) h = ground (arith, h)
write_at_front (x ∷ n) [] h = refl
write_at_front (x ∷ n) (c ∷ m) h = ap (λ r. x ∷ r) (write_at_front n m (omega (arith, h)))

write_at_whole : (n m b : Bytes) → length m ≡ length n → write_at 0 n (m ++ b) ≡ n ++ b
unfolding write_at
write_at_whole [] [] b h = refl
write_at_whole [] (c ∷ m) b h = ground (arith, h)
write_at_whole (x ∷ n) [] b h = ground (arith, h)
write_at_whole (x ∷ n) (c ∷ m) b h = ap (λ r. x ∷ r) (write_at_whole n m b (omega (arith, h)))

write_at_behind : (n a r : Bytes) → write_at (length a) n (a ++ r) ≡ a ++ write_at 0 n r
unfolding write_at
write_at_behind n [] r = refl
write_at_behind [] (c ∷ a) r = ap (λ x. c ∷ x) (write_at_behind [] a r)
write_at_behind (x ∷ n) (c ∷ a) r = ap (λ y. c ∷ y) (write_at_behind (x ∷ n) a r)

-- New bytes take the place of some bytes of a file: of as many, or of all up to the end.
abbrev pub InPlace : Bytes → Bytes → Bytes → Type 0
InPlace n m b = (length m ≡ length n) ⊎ ((b ≡ []) × (length m ≤ length n))

pub write_at_middle :
    (n a m b : Bytes) → InPlace n m b → write_at (length a) n (a ++ (m ++ b)) ≡ a ++ (n ++ b)
write_at_middle n a m b (inl same) =
    write_at_behind n a (m ++ b) ∙ ap (λ x. a ++ x) (write_at_whole n m b same)
write_at_middle n a m b (inr (empty, over)) =
    write_at_behind n a (m ++ b)
    ∙ ap (λ x. a ++ x) (rw (empty, append-nil m, append-nil n) (write_at_front n m over))

-- The chunks of a list that are before, in and behind a range.
spliced_parts :
    (start stop : ℕ) (cs : List Chunk)
    → start ≤ stop
    → cs ≡ take start cs ++ (range start stop cs ++ drop stop cs)
spliced_parts start stop cs ordered =
    let behind : drop (stop - start) (drop start cs) ≡ drop stop cs =
      drop-drop (stop - start) start cs ∙ ap (λ i. drop i cs) (omega (arith, ordered)) in
    sym (take-append-drop start cs)
    ∙ ap (λ ds. take start cs ++ ds)
        (sym (take-append-drop (stop - start) (drop start cs))
          ∙ ap (λ ds. range start stop cs ++ ds) behind)

module _ (store : ChunkStore) where
  Describes-append :
      (s : store.State) (start : ℕ) (cs ds : List Chunk) (a b : Bytes)
      → Describes store s start cs a
      → Describes store s (start + length a) ds b
      → Describes store s start (cs ++ ds) (a ++ b)
  Describes-append s start [] ds a b empty d =
      let same : start + length a ≡ start = rw empty (omega arith) in rw empty (rw same at d)
  Describes-append s start (c ∷ cs) ds a b (p, later, whole, first, len, small, stored, rest) d =
      let sum : start + length a ≡ start + c.len + length later =
        omega (arith, ap length whole, length-append p later, len) in
      (
        p,
        later ++ b,
        ap (λ x. x ++ b) whole ∙ append_assoc p later b,
        first,
        len,
        small,
        stored,
        Describes-append s (start + c.len) cs ds later b rest (rw sum at d),
      )

  pub Describes-append_at :
      (s : store.State) (start next : ℕ) (cs ds : List Chunk) (a b : Bytes)
      → next ≡ start + length a
      → Describes store s start cs a
      → Describes store s next ds b
      → Describes store s start (cs ++ ds) (a ++ b)
  Describes-append_at s start next cs ds a b same front d =
      Describes-append s start cs ds a b front (rw same at d)

  -- A store that still has the chunks of a list.
  pub Describes-kept :
      (s s' : store.State) (start : ℕ) (cs : List Chunk) (bs : Bytes)
      → ((j : Str) (p : Bytes)
          → 0 < count j (keys_of cs)
          → store.contents j s ≡ some p
          → store.contents j s' ≡ some p)
      → Describes store s start cs bs
      → Describes store s' start cs bs
  unfolding count
  Describes-kept s s' start [] bs kept d = d
  Describes-kept s s' start (c ∷ cs) bs kept (p, later, whole, first, len, small, stored, rest) = (
    p,
    later,
    whole,
    first,
    len,
    small,
    kept c.key p (ground arith) stored,
    Describes-kept s s' (start + c.len) cs later
        (λ j q used here. kept j q (ground (arith, used)) here) rest,
  )

  -- The bytes before, in and behind a range of the chunks.
  pub Describes-range :
      (s : store.State) (from start stop : ℕ) (cs : List Chunk) (bs : Bytes)
      → start ≤ stop
      → Describes store s from cs bs
      → (a : Bytes) × (m : Bytes) × (b : Bytes) × (bs ≡ a ++ (m ++ b))
        × Describes store s from (take start cs) a
        × (total_len (range start stop cs) ≡ length m)
        × Describes store s (from + length a) (range start stop cs) m
        × Describes store s (from + length a + length m) (drop stop cs) b
  Describes-range s from start stop cs bs ordered d =
      let middle = range start stop cs ++ drop stop cs in
      let d0 : Describes store s from (take start cs ++ middle) bs =
        rw (spliced_parts start stop cs ordered) at d in
      let (a, rest, whole, d1, d2) = Describes-split store s from (take start cs) middle bs d0 in
      let (m, b, parts, d3, d4) =
        Describes-split store s (from + length a) (range start stop cs) (drop stop cs) rest d2 in
      (
        a,
        m,
        b,
        whole ∙ ap (λ x. a ++ x) parts,
        d1,
        Describes-total store s (from + length a) (range start stop cs) m d3,
        d3,
        d4,
      )

  -- What stands behind the new bytes.
  pub Describes-behind :
      (s : store.State) (start : ℕ) (n m b : Bytes) (ds : List Chunk)
      → (length m ≡ length n) ⊎ (ds ≡ [])
      → Describes store s (start + length m) ds b
      → Describes store s (start + length n) ds b
  Describes-behind s start n m b ds (inl same) d = rw same at d
  Describes-behind s start n m b ds (inr none_behind) d = rw none_behind (rw none_behind at d)

  -- The bytes of a range and those that replace them.
  pub fits-InPlace :
      (n m b : Bytes) (s : store.State) (from : ℕ) (cs ds : List Chunk)
      → total_len cs ≡ length m
      → Describes store s from ds b
      → (total_len cs ≡ length n) ⊎ ((ds ≡ []) × (total_len cs ≤ length n))
      → InPlace n m b × ((length m ≡ length n) ⊎ (ds ≡ []))
  fits-InPlace n m b s from cs ds len_m d (inl same) =
      let eq : length m ≡ length n = sym len_m ∙ same in (inl eq, inl eq)
  fits-InPlace n m b s from cs ds len_m d (inr (none_behind, over)) =
      let empty : b ≡ [] = rw none_behind at d in
      (inr (empty, omega (arith, len_m, over)), inr none_behind)

module _ (store : ChunkStore) (md5 : Bytes → Bytes) (rabin : Rabin) where
  -- The chunks of pieces that are stored.
  pub pieces-Describes :
      (s : store.State) (start : ℕ) (ps : List Bytes)
      → length (join ps) < 2 ^ 31
      → ((a p b : Bytes)
          → join ps ≡ a ++ (p ++ b)
          → 0 < count (key_of rabin md5 p) (keys_of (chunks_of rabin md5 start ps))
          → store.contents (key_of rabin md5 p) s ≡ some p)
      → Describes store s start (chunks_of rabin md5 start ps) (join ps)
  unfolding join chunks_of count
  pieces-Describes s start [] small stored = refl
  pieces-Describes s start (p ∷ ps) small stored = (
    p,
    join ps,
    refl,
    refl,
    refl,
    omega (arith, length-append p (join ps), small),
    stored [] p (join ps) refl (ground arith),
    pieces-Describes s (start + length p) ps (omega (arith, length-append p (join ps), small))
        (λ a q b parts used.
          stored (p ++ a) q b (ap (λ x. p ++ x) parts ∙ sym (append_assoc p a (q ++ b)))
            (ground (arith, used))),
  )
