-- ===== src/Dedup/Rechunk.antt =====
-- The whole buffer file cut into chunks, its last chunk included.
use cloud_file_system.Base.{
  ℕ, ◌+◌, ◌^◌, ◌≤◌, ◌<◌, ◌≡◌, refl, sym, ap, ◌∙◌, ◌⊎◌, inl, inr, true, List, [], ◌∷◌, ◌++◌, length,
  arith, ltb, if◌then◌else◌, length-append,
}
use mathlib.Core.List.{append-nil}
use cloud_file_system.Base.Outcome.{ok, runtime_error, ◌>>=◌}
use cloud_file_system.Bytes.{Bytes, Str}
use cloud_file_system.ChunkStore.{ChunkStore}
use cloud_file_system.ChunkSplitter.{Rabin, Splitter, finished, init, get_chunk_last}
use cloud_file_system.ChunkSplitter.Pieces.{
  Fails, chunk_of, chunks_of, join, Full, reading, get_chunk_last_some, get_chunk_last_none,
  chunks_of-append, join-append, Full-append,
}
use cloud_file_system.Snapshot.Format.{Chunk}
use cloud_file_system.Dedup.Chunks.{World, add_chunk, rechunk_rounds, rechunk}
use cloud_file_system.Dedup.Counting.{PartsKnown, Consistent, Consistent-congr, Grows, keys_of}
use cloud_file_system.Dedup.Use.{add_chunk-Consistent, piece_inside}
use cloud_file_system.Dedup.Rounds.{count_swap, rechunk_rounds-Rechunked}

module _ (store : ChunkStore) (md5 : Bytes → Bytes) (rabin : Rabin) (Known : Bytes → Type 0) where
  -- The chunks of a whole buffer file.
  abbrev pub Rechunking :
      Bytes → ℕ → List Str → World store → Splitter rabin.State × World store → Type 0
  Rechunking file base live w sw =
      ((rechunk store rabin md5 file base (length file) sw ≡ runtime_error) × Fails rabin)
      ⊎ ((pieces : List Bytes) × (sp' : Splitter rabin.State) × (w' : World store) × (rechunk store
              rabin md5 file base (length file) sw
            ≡ ok (chunks_of rabin md5 base pieces, (sp', w')))
          × (join pieces ≡ file)
          × Full pieces
          × Consistent store md5 rabin Known (keys_of (chunks_of rabin md5 base pieces) ++ live) w'
          × Grows store md5 rabin Known w w')

  rechunk_throw :
      (file : Bytes) (base len : ℕ) (sw : Splitter rabin.State × World store)
      → rechunk_rounds store rabin md5 len file base len 0 sw ≡ runtime_error
      → rechunk store rabin md5 file base len sw ≡ runtime_error
  unfolding rechunk
  rechunk_throw file base len sw eq = rw (eq, ◌>>=◌) refl

  rechunk_eq :
      (file : Bytes) (base len : ℕ) (sw : Splitter rabin.State × World store)
      (sp1 : Splitter rabin.State) (cs : List Chunk) (w1 : World store)
      → rechunk_rounds store rabin md5 len file base len 0 sw ≡ ok (cs, (sp1, w1))
      → rechunk store rabin md5 file base len sw ≡ (
          get_chunk_last rabin md5 sp1 >>= λ r.
          if ltb 0 r.0.len
          then (add_chunk store file base r.0 w1 >>= λ w2. ok (cs ++ (r.0 ∷ []), (r.1, w2)))
          else ok (cs, (r.1, w1)))
  unfolding rechunk
  rechunk_eq file base len sw sp1 cs w1 eq = rw (eq, ◌>>=◌) refl

  with_last :
      (file : Bytes) (base : ℕ) (ps : List Bytes) (p : Bytes) (rp : rabin.State) (live : List Str)
      (w w1 : World store) (sw : Splitter rabin.State × World store)
      → rechunk_rounds store rabin md5 (length file) file base (length file) 0 sw
        ≡ ok (chunks_of rabin md5 base ps, (reading rabin md5 (base + length (join ps)) p rp, w1))
      → 0 < length p
      → join ps ++ p ≡ file
      → Full ps
      → Consistent store md5 rabin Known (keys_of (chunks_of rabin md5 base ps) ++ live) w1
      → Grows store md5 rabin Known w w1
      → length file < 2 ^ 31
      → PartsKnown store md5 rabin Known file
      → Rechunking file base live w sw
  unfolding join chunks_of
  with_last file base ps p rp live w w1 sw eq full cut fulls c grows small known =
      let start = base + length (join ps) in
      let whole : file ≡ join ps ++ (p ++ []) =
        sym cut ∙ ap (λ x. join ps ++ x) (sym (append-nil p)) in
      let (inside, content) = piece_inside store md5 rabin Known (join ps) p [] start base refl in
      let len : length p ≤ length file = rw (sym cut) (omega (arith, length-append (join ps) p)) in
      let (w2, eq2, c2, grows2) =
        add_chunk-Consistent store md5 rabin Known file base start p
          (keys_of (chunks_of rabin md5 base ps) ++ live) w1 c (rw whole inside) (rw whole content)
          (omega (arith, len, small)) (known (join ps) p [] whole) in
      let more : ltb 0 (length p) ≡ true = ground (arith, full) in
      let chunks = chunks_of-append rabin md5 base ps (p ∷ []) in
      inr (
        ps ++ (p ∷ []),
        record (reading rabin md5 start p rp) { mdctx = finished },
        w2,
        rechunk_eq file base (length file) sw _ _ w1 eq
            ∙ rw (get_chunk_last_some rabin md5 start p rp full, ◌>>=◌, more, eq2, chunks) refl,
        join-append ps (p ∷ []) ∙ ap (λ x. join ps ++ x) (append-nil p) ∙ cut,
        Full-append ps (p ∷ []) fulls (full, tt),
        rw chunks (
            Consistent-congr store md5 rabin Known _ _ w2
              (λ j.
                count_swap j (chunks_of rabin md5 base ps) (chunk_of rabin md5 start p ∷ []) live)
              c2),
        λ j bs stored. grows2 j bs (grows j bs stored),
      )

  without_last :
      (file : Bytes) (base : ℕ) (ps : List Bytes) (rp : rabin.State) (live : List Str)
      (w w1 : World store) (sw : Splitter rabin.State × World store)
      → rechunk_rounds store rabin md5 (length file) file base (length file) 0 sw
        ≡ ok (chunks_of rabin md5 base ps, (reading rabin md5 (base + length (join ps)) [] rp, w1))
      → join ps ++ [] ≡ file
      → Full ps
      → Consistent store md5 rabin Known (keys_of (chunks_of rabin md5 base ps) ++ live) w1
      → Grows store md5 rabin Known w w1
      → Rechunking file base live w sw
  without_last file base ps rp live w w1 sw eq cut full c grows =
      let start = base + length (join ps) in
      inr (
        ps,
        reading rabin md5 start [] rp,
        w1,
        rechunk_eq file base (length file) sw _ _ w1 eq
            ∙ rw (get_chunk_last_none rabin md5 start rp, ◌>>=◌) refl,
        sym (append-nil (join ps)) ∙ cut,
        full,
        c,
        grows,
      )

  -- To cut a whole buffer file into chunks, which starts at `base` in its file, either throws, and
  -- the segmentation fails on some bytes, or gives the chunks of pieces that are not empty and make
  -- up the buffer file byte for byte; each new chunk is counted as used once more for each time it
  -- occurs, the counts and the stored chunks stay consistent, and no chunk that is stored changes.
  -- The loop ends, where the buffer file has less than 2^31 bytes and the parts of it are known
  -- bytes.
  pub rechunk-Consistent :
      (file : Bytes) (base : ℕ) (sp : Splitter rabin.State) (live : List Str) (w : World store)
      → Consistent store md5 rabin Known live w
      → length file < 2 ^ 31
      → PartsKnown store md5 rabin Known file
      → Rechunking file base live w (init rabin md5 base sp, w)
  unfolding init
  rechunk-Consistent file base sp live w c small known =
      elim (rechunk_rounds-Rechunked store md5 rabin Known (length file) file base file
        (omega arith) small known [] [] base 0 (rabin.reset sp.rp) live w c refl (omega arith)
        (omega arith)) [
          | inl (failed, fails) ↦ inl (rechunk_throw file base (length file) _ failed, fails)
          | inr (ps, [], rp1, w1, eq, cut, full, c1, grows) ↦
              without_last file base ps rp1 live w w1 _ eq cut full c1 grows
          | inr (ps, b ∷ rest, rp1, w1, eq, cut, full, c1, grows) ↦
              with_last file base ps (b ∷ rest) rp1 live w w1 _ eq (omega arith) cut full c1 grows
                small known
        ]
