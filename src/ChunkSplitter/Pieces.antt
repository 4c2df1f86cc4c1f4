-- ===== src/ChunkSplitter/Pieces.antt =====
-- The chunks of a splitter as the pieces of the bytes it has read.
use cloud_file_system.Base.{
  ℕ, zero, suc, ◌+◌, ◌-◌, ◌<◌, ◌≡◌, refl, sym, ap, ◌∙◌, ◌⊎◌, inl, inr, Bool, true, false, List, [],
  ◌∷◌, ◌++◌, none, length, take, drop, ◌==◌, if◌then◌else◌, arith, length-append, length-take,
  length-drop, take-append-drop, Option-cases, Bool-cases,
}
use mathlib.Core.List.{append_assoc, append-nil}
use cloud_file_system.Base.Outcome.{Outcome, ok, runtime_error, ◌>>=◌}
use cloud_file_system.Bytes.{Bytes}
use cloud_file_system.Snapshot.Format.{Chunk}
use cloud_file_system.ChunkSplitter.{
  Rabin, Splitting, updating, finished, key_of, end_segment, split_rounds, get_chunks_next,
  get_chunk_last,
}

unfoldable pub join : List Bytes → Bytes
join [] = []
join (p ∷ ps) = p ++ join ps

-- No piece is empty.
abbrev pub Full : List Bytes → Type 0
Full [] = Unit
Full (p ∷ ps) = (0 < length p) × Full ps

-- The segmentation fails on some bytes.
abbrev pub Fails : Rabin → Type 0
Fails rabin = (bs : Bytes) × (s : rabin.State) × (rabin.segment_next bs s ≡ none)

module _ (rabin : Rabin) (md5 : Bytes → Bytes) where
  abbrev pub chunk_of : ℕ → Bytes → Chunk
  chunk_of start p = record { start = start; len = length p; key = key_of rabin md5 p }

  -- The chunks of pieces that follow each other in a file.
  unfoldable pub chunks_of : ℕ → List Bytes → List Chunk
  chunks_of start [] = []
  chunks_of start (p ∷ ps) = chunk_of start p ∷ chunks_of (start + length p) ps

  -- A splitter that has read `rest` of the current chunk.
  abbrev pub reading : ℕ → Bytes → rabin.State → Splitting rabin md5
  reading start rest rp = record {
    chunk_start = start;
    chunk_len = length rest;
    rp = rp;
    mdctx = updating rest;
  }

  -- How a loop ends that cuts these bytes: by an exception, or with the chunks of full pieces and a
  -- rest that make up the bytes.
  abbrev pub Cut : Outcome (List Chunk × Splitting rabin md5) → ℕ → Bytes → Type 0
  Cut m start whole =
      ((m ≡ runtime_error) × Fails rabin)
      ⊎ ((pieces : List Bytes) × (rest : Bytes) × (rp : rabin.State) × (m
            ≡ ok (chunks_of start pieces, reading (start + length (join pieces)) rest rp))
          × (join pieces ++ rest ≡ whole)
          × Full pieces)

  nothing_left :
      (start : ℕ) (rest : Bytes) (rp : rabin.State) (whole : Bytes)
      → rest ≡ whole
      → Cut (ok ([], reading start rest rp)) start whole
  unfolding join chunks_of
  nothing_left start rest rp whole h =
      let same : start ≡ start + 0 = omega arith in
      inr ([], rest, rp, ap (λ i. ok ([], reading i rest rp)) same, h, tt)

  -- What the loop does with the rest of the buffer.
  with_rest :
      (m : Outcome (List Chunk × Splitting rabin md5)) (start : ℕ) (rest later : Bytes)
      (rp : rabin.State) (b : Bool)
      → Cut m start (rest ++ later)
      → (b ≡ true → later ≡ [])
      → Cut (if b then ok ([], reading start rest rp) else m) start (rest ++ later)
  with_rest m start rest later rp true h empty =
      nothing_left start rest rp (rest ++ later) (rw (empty refl) (sym (append-nil rest)))
  with_rest m start rest later rp false h empty = h

  abbrev with_chunks :
      List Chunk → List Chunk × Splitting rabin md5 → Outcome (List Chunk × Splitting rabin md5)
  with_chunks here r = ok (here ++ r.0, r.1)

  after_piece :
      (m : Outcome (List Chunk × Splitting rabin md5)) (start : ℕ) (p later : Bytes)
      → 0 < length p
      → Cut m (start + length p) later
      → Cut (m >>= with_chunks (chunk_of start p ∷ [])) start (p ++ later)
  unfolding join chunks_of
  after_piece m start p later full (inl (h, fails)) = inl (rw (h, ◌>>=◌) refl, fails)
  after_piece m start p later full (inr (ps, rest, rp, eq, whole, all)) =
      let sum : start + length p + length (join ps) ≡ start + length (p ++ join ps) =
        omega (arith, length-append p (join ps)) in
      inr (
        p ∷ ps,
        rest,
        rp,
        rw (eq, ◌>>=◌, sum) refl,
        append_assoc p (join ps) rest ∙ ap (λ bs. p ++ bs) whole,
        (full, all),
      )

  same_piece :
      (m : Outcome (List Chunk × Splitting rabin md5)) (start : ℕ) (whole : Bytes)
      → Cut m start whole
      → Cut (m >>= with_chunks []) start whole
  same_piece m start whole (inl (h, fails)) = inl (rw (h, ◌>>=◌) refl, fails)
  same_piece m start whole (inr (ps, rest, rp, eq, same, all)) =
      inr (ps, rest, rp, rw (eq, ◌>>=◌) refl, same, all)

  after_segment :
      (new : Bool) (start n : ℕ) (bs more later : Bytes) (rp : rabin.State) (b : Bool)
      (loop : Splitting rabin md5 → Outcome (List Chunk × Splitting rabin md5))
      → length more ≡ n
      → 0 < n
      → ((from : ℕ) (rest : Bytes) → Cut (loop (reading from rest rp)) from (rest ++ later))
      → (b ≡ true → later ≡ [])
      → Cut
          (do
            (here, s1) ← end_segment rabin md5 new (record {
              chunk_start = start;
              chunk_len = length bs + n;
              rp = rp;
              mdctx = updating (bs ++ more);
            })
            (rest, s2) ← (if b then ok ([], s1) else loop s1)
            ok (here ++ rest, s2))
          start
          ((bs ++ more) ++ later)
  unfolding end_segment
  after_segment new start n bs more later rp b loop len some_read ih empty =
      let sum : length bs + n ≡ length (bs ++ more) = omega (arith, length-append bs more, len) in
      let full : 0 < length (bs ++ more) = omega (arith, sum) in
      elim (Bool-cases new) [
        | inl new_one ↦
            rw (new_one, sum)
              (after_piece _ start (bs ++ more) later full (
                with_rest (loop _) (start + length (bs ++ more)) [] later rp b
                  (ih (start + length (bs ++ more)) []) empty))
        | inr same ↦
            rw (same, sum)
              (same_piece _ start ((bs ++ more) ++ later)
                (with_rest (loop _) start (bs ++ more) later rp b (ih start (bs ++ more)) empty))
      ]

  drop_end : (n : ℕ) (bs : Bytes) → (length bs - n == 0) ≡ true → drop n bs ≡ []
  drop_end zero [] h = refl
  drop_end zero (b ∷ bs) h = ground arith
  drop_end (suc n) [] h = refl
  drop_end (suc n) (b ∷ bs) h = drop_end n bs (ground arith)

  pub length_zero : (bs : Bytes) → length bs ≡ 0 → bs ≡ []
  length_zero [] h = refl
  length_zero (b ∷ bs) h = ground (arith, h)

  split_rounds-Cut :
      (fuel : ℕ) (buf : Bytes) (start : ℕ) (bs : Bytes) (rp : rabin.State)
      → length buf < fuel
      → Cut (split_rounds rabin md5 fuel buf (reading start bs rp)) start (bs ++ buf)
  unfolding split_rounds
  split_rounds-Cut zero buf start bs rp enough = ground (arith, enough)
  split_rounds-Cut (suc fuel) buf start bs rp enough =
      elim (Option-cases (rabin.segment_next buf rp)) [
        | inl failed ↦ inl (rw (failed, split_rounds) refl, (buf, rp, failed))
        | inr ((n, new, rp'), read) ↦
            let bound = rabin.segment_next_le buf rp rp' n new read in
            elim (Bool-cases (n == 0)) [
              | inl stop ↦
                  let nothing : buf ≡ [] =
                    length_zero buf
                      (ground (arith, stop, rabin.segment_next_some buf rp rp' n new read)) in
                  rw (read, stop, split_rounds)
                    (nothing_left start bs rp' (bs ++ buf) (rw nothing (sym (append-nil bs))))
              | inr go ↦
                  let len : length (take n buf) ≡ n = omega (arith, length-take n buf, bound) in
                  let some_read : 0 < n = ground (arith, go) in
                  let less : length (drop n buf) < fuel =
                    omega (arith, length-drop n buf, enough, bound, some_read) in
                  let parts : (bs ++ take n buf) ++ drop n buf ≡ bs ++ buf =
                    append_assoc bs (take n buf) (drop n buf)
                    ∙ ap (λ x. bs ++ x) (take-append-drop n buf) in
                  rw (read, go, split_rounds, sym parts)
                    (after_segment new start n bs (take n buf) (drop n buf) rp'
                      (length buf - n == 0) (split_rounds rabin md5 fuel (drop n buf)) len some_read
                      (λ from rest. split_rounds-Cut fuel (drop n buf) from rest rp' less)
                      (drop_end n buf))
            ]
      ]

  -- A splitter that has read `bs` of the chunk that starts at `start` either throws, and the
  -- segmentation fails on some bytes, or gives the chunks of pieces that are not empty and follow
  -- each other from `start` on, with their lengths and the keys of their bytes, and has then read
  -- the rest of the next chunk: the pieces and the rest are `bs` and the buffer, byte for byte.
  pub get_chunks_next_lem :
      (buf : Bytes) (start : ℕ) (bs : Bytes) (rp : rabin.State)
      → Cut (get_chunks_next rabin md5 buf (reading start bs rp)) start (bs ++ buf)
  unfolding get_chunks_next
  get_chunks_next_lem buf start bs rp =
      split_rounds-Cut (suc (length buf)) buf start bs rp (omega arith)

  pub get_chunk_last_some :
      (start : ℕ) (bs : Bytes) (rp : rabin.State)
      → 0 < length bs
      → get_chunk_last rabin md5 (reading start bs rp)
        ≡ ok (chunk_of start bs, record (reading start bs rp) { mdctx = finished })
  unfolding get_chunk_last
  get_chunk_last_some start bs rp full = ground (arith, full)

  pub get_chunk_last_none :
      (start : ℕ) (rp : rabin.State)
      → get_chunk_last rabin md5 (reading start [] rp)
        ≡ ok (record { start = 0; len = 0; key = [] }, reading start [] rp)
  unfolding get_chunk_last
  get_chunk_last_none start rp = refl

  pub chunks_of-append :
      (start : ℕ) (ps qs : List Bytes)
      → chunks_of start (ps ++ qs) ≡ chunks_of start ps ++ chunks_of (start + length (join ps)) qs
  unfolding chunks_of join
  chunks_of-append start [] qs = ap (λ i. chunks_of i qs) (omega arith)
  chunks_of-append start (p ∷ ps) qs =
      let sum : start + length p + length (join ps) ≡ start + length (p ++ join ps) =
        omega (arith, length-append p (join ps)) in
      ap (λ cs. chunk_of start p ∷ cs)
        (chunks_of-append (start + length p) ps qs
          ∙ ap (λ i. chunks_of (start + length p) ps ++ chunks_of i qs) sum)

pub join-append : (ps qs : List Bytes) → join (ps ++ qs) ≡ join ps ++ join qs
unfolding join
join-append [] qs = refl
join-append (p ∷ ps) qs =
    ap (λ bs. p ++ bs) (join-append ps qs) ∙ sym (append_assoc p (join ps) (join qs))

pub Full-append : (ps qs : List Bytes) → Full ps → Full qs → Full (ps ++ qs)
Full-append [] qs h h' = h'
Full-append (p ∷ ps) qs h h' = (h.0, Full-append ps qs h.1 h')
