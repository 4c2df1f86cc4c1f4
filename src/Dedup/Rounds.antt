-- ===== src/Dedup/Rounds.antt =====
-- The loop that cuts the buffer file into chunks.
use cloud_file_system.Base.{
  ℕ, zero, suc, ◌+◌, ◌^◌, ◌≤◌, ◌<◌, ◌≡◌, refl, sym, ap, ◌∙◌, ◌⊎◌, inl, inr, true, false, List, [],
  ◌∷◌, ◌++◌, length, take, drop, arith, Bool-cases, ltb, ltb→lt, length-append, length-drop,
  drop-append_left, take-append-drop,
}
use mathlib.Core.List.{append_assoc, append-nil}
use cloud_file_system.Base.Outcome.{Outcome, ok, runtime_error, ◌>>=◌}
use cloud_file_system.Bytes.{Bytes, Str, read_at}
use cloud_file_system.ChunkStore.{ChunkStore}
use cloud_file_system.ChunkSplitter.{Rabin, Splitter, get_chunks_next}
use cloud_file_system.ChunkSplitter.Pieces.{
  Fails, chunks_of, join, Full, reading, get_chunks_next_lem, length_zero, chunks_of-append,
  join-append, Full-append,
}
use cloud_file_system.Snapshot.Format.{Chunk}
use cloud_file_system.Dedup.Chunks.{World, add_chunks, rechunk_rounds, rechunk_buf_size}
use cloud_file_system.Dedup.Counting.{
  PartsKnown, Consistent, Consistent-congr, Grows, count, count-append, keys_of,
}
use cloud_file_system.Dedup.Use.{add_chunks-Consistent}

pub keys_of-append : (cs ds : List Chunk) → keys_of (cs ++ ds) ≡ keys_of cs ++ keys_of ds
keys_of-append [] ds = refl
keys_of-append (c ∷ cs) ds = ap (λ ks. c.key ∷ ks) (keys_of-append cs ds)

pub count_swap :
    (j : Str) (cs ds : List Chunk) (live : List Str)
    → count j (keys_of ds ++ (keys_of cs ++ live)) ≡ count j (keys_of (cs ++ ds) ++ live)
count_swap j cs ds live = rw (keys_of-append cs ds) (
    omega (
      arith,
      count-append j (keys_of ds) (keys_of cs ++ live),
      count-append j (keys_of cs) live,
      count-append j (keys_of cs ++ keys_of ds) live,
      count-append j (keys_of cs) (keys_of ds),
    ))

module _ (store : ChunkStore) (md5 : Bytes → Bytes) (rabin : Rabin) (Known : Bytes → Type 0) where
  abbrev Result : Type 0
  Result = Outcome (List Chunk × (Splitter rabin.State × World store))

  -- How the loop ends: by an exception, or with the chunks of full pieces and a rest that make up the
  -- bytes, each counted as used and stored.
  abbrev pub Rechunked : Result → ℕ → Bytes → List Str → World store → Type 0
  Rechunked m start whole live w =
      ((m ≡ runtime_error) × Fails rabin)
      ⊎ ((pieces : List Bytes) × (rest : Bytes) × (rp : rabin.State) × (w' : World store) × (m
            ≡ ok (
              chunks_of rabin md5 start pieces,
              (reading rabin md5 (start + length (join pieces)) rest rp, w'),
            ))
          × (join pieces ++ rest ≡ whole)
          × Full pieces
          × Consistent store md5 rabin Known (keys_of (chunks_of rabin md5 start pieces) ++ live) w'
          × Grows store md5 rabin Known w w')

  abbrev with_chunks : List Chunk → List Chunk × (Splitter rabin.State × World store) → Result
  with_chunks here r = ok (here ++ r.0, r.1)

  more_rounds :
      (m : Result) (start : ℕ) (ps : List Bytes) (rest later whole : Bytes) (live : List Str)
      (w w1 : World store)
      → Full ps
      → (join ps ++ rest) ++ later ≡ whole
      → Grows store md5 rabin Known w w1
      → Rechunked m
          (start + length (join ps))
          (rest ++ later)
          (keys_of (chunks_of rabin md5 start ps) ++ live)
          w1
      → Rechunked (m >>= with_chunks (chunks_of rabin md5 start ps)) start whole live w
  more_rounds m start ps rest later whole live w w1 full same grows (inl (h, fails)) =
      inl (rw (h, ◌>>=◌) refl, fails)
  more_rounds m start ps rest later whole live w w1 full same grows
        (inr (qs, rest', rp, w', eq, cut, full', c, grows')) =
      let end : start + length (join ps) + length (join qs) ≡ start + length (join (ps ++ qs)) =
        omega (arith, ap length (join-append ps qs), length-append (join ps) (join qs)) in
      let chunks = chunks_of-append rabin md5 start ps qs in
      inr (
        ps ++ qs,
        rest',
        rp,
        w',
        rw (eq, ◌>>=◌, chunks, end) refl,
        ap (λ bs. bs ++ rest') (join-append ps qs)
            ∙ append_assoc (join ps) (join qs) rest'
            ∙ ap (λ bs. join ps ++ bs) cut
            ∙ sym (append_assoc (join ps) rest later)
            ∙ same,
        Full-append ps qs full full',
        rw chunks (
            Consistent-congr store md5 rabin Known _ _ w'
              (λ j.
                count_swap j (chunks_of rabin md5 start ps)
                  (chunks_of rabin md5 (start + length (join ps)) qs) live)
              c),
        λ j bs stored. grows' j bs (grows j bs stored),
      )

  rounds_end :
      (start : ℕ) (bs todo : Bytes) (rp : rabin.State) (live : List Str) (w : World store)
      → Consistent store md5 rabin Known live w
      → length todo ≡ 0
      → Rechunked (ok ([], (reading rabin md5 start bs rp, w))) start (bs ++ todo) live w
  unfolding join chunks_of
  rounds_end start bs todo rp live w c none_left =
      let same : start ≡ start + 0 = omega arith in
      inr (
        [],
        bs,
        rp,
        w,
        ap (λ i. ok ([], (reading rabin md5 i bs rp, w))) same,
        rw (length_zero rabin md5 todo none_left) (sym (append-nil bs)),
        tt,
        c,
        λ j bs h. h,
      )

  rounds_go :
      (fuel : ℕ) (file : Bytes) (base len read_p : ℕ) (sp sp1 : Splitter rabin.State)
      (here : List Chunk) (w w1 : World store)
      → ltb read_p len ≡ true
      → get_chunks_next rabin md5 (read_at rechunk_buf_size read_p file) sp ≡ ok (here, sp1)
      → add_chunks store file base here w ≡ ok w1
      → rechunk_rounds store rabin md5 (suc fuel) file base len read_p (sp, w) ≡ (
          rechunk_rounds store rabin md5 fuel file base len
            (read_p + length (read_at rechunk_buf_size read_p file))
            (sp1, w1)
          >>= with_chunks here)
  unfolding rechunk_rounds
  rounds_go fuel file base len read_p sp sp1 here w w1 more eq eq1 = rw (more, eq, ◌>>=◌, eq1) refl

  rounds_throw :
      (fuel : ℕ) (file : Bytes) (base len read_p : ℕ) (sp : Splitter rabin.State) (w : World store)
      → ltb read_p len ≡ true
      → get_chunks_next rabin md5 (read_at rechunk_buf_size read_p file) sp ≡ runtime_error
      → rechunk_rounds store rabin md5 (suc fuel) file base len read_p (sp, w) ≡ runtime_error
  unfolding rechunk_rounds
  rounds_throw fuel file base len read_p sp w more eq = rw (more, eq, ◌>>=◌) refl

  -- What a round reads of a file.
  read_todo :
      (n : ℕ) (before bs todo : Bytes) (read_p : ℕ)
      → read_p ≡ length before + length bs
      → read_at n read_p (before ++ (bs ++ todo)) ≡ take n todo
  read_todo n before bs todo read_p at_todo =
      let here : read_p ≡ length (before ++ bs) = omega (arith, at_todo, length-append before bs) in
      rw (here, sym (append_assoc before bs todo))
        (ap (take n) (drop-append_left (before ++ bs) todo))

  -- The loop over the bytes that are left, whatever stands before them.
  abbrev Continues : ℕ → Bytes → ℕ → Bytes → Type 0
  Continues fuel file base todo =
      (before bs : Bytes) (start read_p : ℕ) (rp : rabin.State) (live : List Str) (w : World store)
      → Consistent store md5 rabin Known live w
      → file ≡ before ++ (bs ++ todo)
      → start ≡ base + length before
      → read_p ≡ length before + length bs
      → Rechunked
          (rechunk_rounds store rabin md5 fuel file base (length file) read_p
            (reading rabin md5 start bs rp, w))
          start (bs ++ todo) live w

  bytes_left :
      (file before bs todo : Bytes) (read_p : ℕ)
      → file ≡ before ++ (bs ++ todo)
      → read_p ≡ length before + length bs
      → length file ≡ read_p + length todo
  bytes_left file before bs todo read_p there at_todo =
      rw there (omega (arith, at_todo, length-append before (bs ++ todo), length-append bs todo))

  -- A round that reads bytes, with the rounds behind it.
  round-Rechunked :
      (fuel : ℕ) (file : Bytes) (base : ℕ) (todo before bs : Bytes) (start read_p : ℕ)
      (rp : rabin.State) (live : List Str) (w : World store)
      → length file < 2 ^ 31
      → PartsKnown store md5 rabin Known file
      → Continues fuel file base (drop rechunk_buf_size todo)
      → Consistent store md5 rabin Known live w
      → file ≡ before ++ (bs ++ todo)
      → start ≡ base + length before
      → read_p ≡ length before + length bs
      → ltb read_p (length file) ≡ true
      → Rechunked
          (rechunk_rounds store rabin md5
            (suc fuel)
            file
            base
            (length file)
            read_p
            (reading rabin md5 start bs rp, w))
          start
          (bs ++ todo)
          live
          w
  round-Rechunked fuel file base todo before bs start read_p rp live w small known go_on c there
        at_piece at_todo more =
      let buf = read_at rechunk_buf_size read_p file in
      let todo' = drop rechunk_buf_size todo in
      let read : buf ≡ take rechunk_buf_size todo =
        rw there (read_todo rechunk_buf_size before bs todo read_p at_todo) in
      let parts : (bs ++ buf) ++ todo' ≡ bs ++ todo =
        append_assoc bs buf todo'
        ∙ ap (λ x. bs ++ x) (ap (λ x. x ++ todo') read ∙ take-append-drop rechunk_buf_size todo) in
      elim (get_chunks_next_lem rabin md5 buf start bs rp) [
        | inl (failed, fails) ↦ inl (
          rounds_throw fuel file base (length file) read_p (reading rabin md5 start bs rp) w more
              failed,
          fails,
        )
        | inr (ps, rest, rp1, eq, cut, full) ↦
            let whole : file ≡ before ++ (join ps ++ (rest ++ todo')) =
              there
              ∙ ap (λ x. before ++ x)
                  (sym parts
                    ∙ ap (λ x. x ++ todo') (sym cut)
                    ∙ append_assoc (join ps) rest todo') in
            let (w1, eq1, c1, grows) =
              add_chunks-Consistent store md5 rabin Known file before ps (rest ++ todo') start base
                live w c whole at_piece small known in
            let cut_len : length (join ps) + length rest ≡ length bs + length buf =
              omega (arith, ap length cut, length-append (join ps) rest, length-append bs buf) in
            rw
              (rounds_go fuel file base (length file) read_p (reading rabin md5 start bs rp) _ _ w
                w1 more eq eq1)
              (more_rounds _ start ps rest todo' (bs ++ todo) live w w1 full
                (ap (λ x. x ++ todo') cut ∙ parts) grows
                (go_on (before ++ join ps) rest (start + length (join ps)) (read_p + length buf) rp1
                  (keys_of (chunks_of rabin md5 start ps) ++ live) w1 c1
                  (whole ∙ sym (append_assoc before (join ps) (rest ++ todo')))
                  (omega (arith, at_piece, length-append before (join ps)))
                  (omega (arith, at_todo, cut_len, length-append before (join ps)))))
      ]

  pub rechunk_rounds-Rechunked :
      (fuel : ℕ) (file : Bytes) (base : ℕ) (todo : Bytes)
      → length todo ≤ fuel
      → length file < 2 ^ 31
      → PartsKnown store md5 rabin Known file
      → Continues fuel file base todo
  unfolding rechunk_rounds
  rechunk_rounds-Rechunked zero file base todo enough small known before bs start read_p rp live w c
        there at_piece at_todo =
      let left = bytes_left file before bs todo read_p there at_todo in
      let stop : ltb read_p (length file) ≡ false = ground (arith, left, enough) in
      rw (stop, rechunk_rounds) (rounds_end start bs todo rp live w c (omega (arith, enough)))
  rechunk_rounds-Rechunked (suc fuel) file base todo enough small known before bs start read_p rp
        live w c there at_piece at_todo =
      let left = bytes_left file before bs todo read_p there at_todo in
      elim (Bool-cases (ltb read_p (length file))) [
        | inr stop ↦
            rw (stop, rechunk_rounds)
              (rounds_end start bs todo rp live w c (ground (arith, stop, left)))
        | inl more ↦
            let less : length (drop rechunk_buf_size todo) ≤ fuel = omega (
              arith,
              length-drop rechunk_buf_size todo,
              enough,
              left,
              ltb→lt read_p (length file) more,
            ) in
            round-Rechunked fuel file base todo before bs start read_p rp live w small known
              (rechunk_rounds-Rechunked fuel file base (drop rechunk_buf_size todo) less small
                known)
              c there at_piece at_todo more
      ]
