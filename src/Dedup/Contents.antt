-- ===== src/Dedup/Contents.antt =====
-- The bytes that a chunk list stands for, and how `load_chunks` puts them into a buffer file.
use cloud_file_system.Base.{
  ℕ, ◌+◌, ◌-◌, ◌^◌, ◌≤◌, ◌<◌, ◌≡◌, refl, sym, ap, ◌∙◌, ◌⊎◌, inl, inr, List, [], ◌∷◌, ◌++◌, some,
  length, take, drop, arith, length-append, take-append_le, drop-append_le, drop-append_ge,
  length-drop,
}
use mathlib.Core.List.{append_assoc, append-nil}
use cloud_file_system.Base.Outcome.{ok, >>=-eq_of_ok}
use cloud_file_system.Bytes.{Bytes, Str, write_at, read_at}
use cloud_file_system.ChunkStore.{ChunkStore}
use cloud_file_system.Snapshot.Format.{Chunk}
use cloud_file_system.FileController.ChunkInfo.{total_len}
use cloud_file_system.Dedup.Prepare.{as_int, load_chunks, back}

write_at_end : (bs file : Bytes) → write_at (length file) bs file ≡ file ++ bs
unfolding write_at
write_at_end [] [] = refl
write_at_end [] (c ∷ file) = sym (append-nil (c ∷ file))
write_at_end (b ∷ bs) [] = refl
write_at_end (b ∷ bs) (c ∷ file) = ap (λ x. c ∷ x) (write_at_end (b ∷ bs) file)

-- Some bytes between others, read at an offset among all.
pub read_at_middle :
    (size offset : ℕ) (a m b : Bytes)
    → length a ≤ offset
    → (b ≡ []) ⊎ ((offset + size ≤ length a + length m) × (offset ≤ length a + length m))
    → read_at size (offset - length a) m ≡ read_at size offset (a ++ (m ++ b))
read_at_middle size offset a m b from (inl empty) =
    rw (empty, append-nil m) (ap (take size) (sym (drop-append_ge offset a m from)))
read_at_middle size offset a m b from (inr (to, in_m)) =
    let at_m : offset - length a ≤ length m = omega (arith, from, in_m) in
    let left = drop (offset - length a) m in
    let enough : size ≤ length left = omega (arith, length-drop (offset - length a) m, from, to) in
    sym (
      ap (take size)
        (drop-append_ge offset a (m ++ b) from ∙ drop-append_le (offset - length a) m b at_m)
      ∙ take-append_le size left b enough)

module _ (store : ChunkStore) where
  -- A chunk list from `start` on stands for these bytes: its chunks follow each other, and the store
  -- has the bytes of each under its key.
  abbrev pub Describes : store.State → ℕ → List Chunk → Bytes → Type 0
  Describes s start [] bs = bs ≡ []
  Describes s start (c ∷ cs) bs =
      (p : Bytes) × (later : Bytes) × (bs ≡ p ++ later)
      × (c.start ≡ start)
      × (c.len ≡ length p)
      × (c.len < 2 ^ 31)
      × (store.contents c.key s ≡ some p)
      × Describes s (start + c.len) cs later

  pub Describes-congr :
      (s s' : store.State) (start : ℕ) (cs : List Chunk) (bs : Bytes)
      → ((j : Str) → store.contents j s' ≡ store.contents j s)
      → Describes s start cs bs
      → Describes s' start cs bs
  Describes-congr s s' start [] bs same d = d
  Describes-congr s s' start (c ∷ cs) bs same (p, later, whole, first, len, small, stored, rest) = (
    p,
    later,
    whole,
    first,
    len,
    small,
    same c.key ∙ stored,
    Describes-congr s s' (start + c.len) cs later same rest,
  )

  pub Describes-total :
      (s : store.State) (start : ℕ) (cs : List Chunk) (bs : Bytes)
      → Describes s start cs bs
      → total_len cs ≡ length bs
  Describes-total s start [] bs d = ap length (sym d)
  Describes-total s start (c ∷ cs) bs (p, later, whole, first, len, small, stored, rest) = omega (
    arith,
    ap length whole,
    length-append p later,
    len,
    Describes-total s (start + c.len) cs later rest,
  )

  pub Describes-split :
      (s : store.State) (start : ℕ) (cs ds : List Chunk) (bs : Bytes)
      → Describes s start (cs ++ ds) bs
      → (a : Bytes) × (b : Bytes) × (bs ≡ a ++ b)
        × Describes s start cs a
        × Describes s (start + length a) ds b
  Describes-split s start [] ds bs d =
      let same : start + 0 ≡ start = omega arith in ([], bs, refl, refl, rw same d)
  Describes-split s start (c ∷ cs) ds bs (p, later, whole, first, len, small, stored, rest) =
      let (a, b, parts, front, behind) = Describes-split s (start + c.len) cs ds later rest in
      let sum : start + length (p ++ a) ≡ start + c.len + length a =
        omega (arith, length-append p a, len) in
      (
        p ++ a,
        b,
        whole ∙ ap (λ x. p ++ x) parts ∙ sym (append_assoc p a b),
        (p, a, refl, first, len, small, stored, front),
        rw sum behind,
      )

  -- The chunks are put behind what is in the buffer file.
  pub load_chunks_lem :
      (cs : List Chunk) (start n : ℕ) (bs content : Bytes) (s : store.State)
      → store.Valid s
      → Describes s start cs bs
      → n ≡ length content
      → n + length bs < 2 ^ 31
      → (s' : store.State) × (load_chunks store cs n content s
          ≡ ok ((n + length bs, content ++ bs), s'))
        × store.Valid s'
        × ((j : Str) → store.contents j s' ≡ store.contents j s)
  unfolding load_chunks
  load_chunks_lem [] start n bs content s v d at_end in_int =
      let same : n ≡ n + length bs = rw d (omega arith) in
      let empty : content ≡ content ++ bs = rw d (sym (append-nil content)) in
      (s, rw (sym same, sym empty) refl, v, λ j. refl)
  load_chunks_lem (c ∷ cs) start n bs content s v (p, later, whole, first, len, small, stored, rest)
        at_end in_int =
      let (s1, eq, v1, same) =
        store.download_chunk_stored c.key content p n c.len s v stored (sym len) small in
      let sums : n + c.len + length later ≡ n + length bs =
        omega (arith, ap length whole, length-append p later, len) in
      let sum_fits : as_int (n + c.len) ≡ ok (n + c.len) = ground (arith, sums, in_int) in
      let put : write_at n p content ≡ content ++ p = rw at_end (write_at_end p content) in
      let (s2, eq2, v2, same2) =
        load_chunks_lem cs (start + c.len) (n + c.len) later (content ++ p) s1 v1
          (Describes-congr s s1 (start + c.len) cs later same rest)
          (omega (arith, at_end, len, length-append content p)) (omega (arith, sums, in_int)) in
      let all : (content ++ p) ++ later ≡ content ++ bs =
        append_assoc content p later ∙ ap (λ x. content ++ x) (sym whole) in
      (
        s2,
        >>=-eq_of_ok (store.download_chunk c.key content n c.len s) _ eq
            ∙ >>=-eq_of_ok (as_int (n + c.len)) _ sum_fits
            ∙ rw put (eq2 ∙ rw (sums, all) refl),
        v2,
        λ j. same2 j ∙ same j,
      )

  pub back_lem :
      (s : store.State) (start : ℕ) (c : Chunk) (cs : List Chunk) (bs : Bytes)
      → Describes s start (c ∷ cs) bs
      → (last : Chunk) × (back (c ∷ cs) ≡ ok last) × (last.start + last.len ≡ start + length bs)
  unfolding back
  back_lem s start c [] bs (p, later, whole, first, len, small, stored, rest) =
      (c, refl, omega (arith, first, len, ap length whole, length-append p later, ap length rest))
  back_lem s start c (d ∷ cs) bs (p, later, whole, first, len, small, stored, rest) =
      let (last, eq, end) = back_lem s (start + c.len) d cs later rest in
      (last, eq, omega (arith, end, len, ap length whole, length-append p later))
