-- ===== src/Dedup/Use.antt =====
-- The loops that use chunks keep the counts and the stored chunks consistent.
use cloud_file_system.Base.{
  ℕ, ◌+◌, ◌-◌, ◌^◌, ◌≤◌, ◌<◌, ◌≡◌, ◌≢◌, refl, sym, ap, ◌∙◌, inl, inr, List, [], ◌∷◌, ◌++◌, some,
  length, arith, Bool-cases, length-append, drop-append_left, take-append_left,
}
use mathlib.Core.List.{append_assoc}
use cloud_file_system.Base.Outcome.{ok, ◌>>=◌, >>=-eq_of_ok}
use cloud_file_system.Bytes.{Bytes, Str, str_dec, read_at}
use cloud_file_system.ChunkTable.{entry, is_dead, use_chunk}
use cloud_file_system.ChunkTable.Counts.{use_chunk_new, use_chunk-NodupKeys}
use cloud_file_system.ChunkStore.{ChunkStore}
use cloud_file_system.ChunkSplitter.{Rabin, key_of}
use cloud_file_system.ChunkSplitter.Pieces.{chunk_of, chunks_of, join}
use cloud_file_system.Dedup.Chunks.{World, add_chunk, add_chunks}
use cloud_file_system.Dedup.Counting.{
  Consistent, Grows, count, count-append, keys_of, Consistent-congr, PartsKnown, used_counted,
  used_alive, used_dead,
}

module _ (store : ChunkStore) (md5 : Bytes → Bytes) (rabin : Rabin) (Known : Bytes → Type 0) where
  -- The table counts the use, and the store has the chunk afterwards.
  added :
      (k : Str) (bs : Bytes) (live : List Str) (w : World store) (s : store.State)
      → Consistent store md5 rabin Known live w
      → store.Valid s
      → store.contents k s ≡ some bs
      → key_of rabin md5 bs ≡ k
      → Known bs
      → ((j : Str) → j ≢ k → store.contents j s ≡ store.contents j w.store)
      → Consistent store md5 rabin Known
          (k ∷ live)
          (record { table = (use_chunk k w.table).0; store = s })
  added k bs live w s c valid here hash known others = record {
    nodup = use_chunk-NodupKeys k w.table c.nodup;
    valid = valid;
    counted = used_counted store md5 rabin Known k live w c;
    kept = λ j. elim (str_dec j k) [
      | yes p ↦ rw p (
        λ dead. ground (arith, dead, used_alive store md5 rabin Known k live w c),
        λ alive. (bs, here, hash, known),
      )
      | no p ↦ rw (used_dead store md5 rabin Known j k w p, others j p) (c.kept j)
    ];
  }

  -- Where a chunk is of bytes that stand in the buffer file, `add_chunk` succeeds, counts one more use
  -- of it, keeps the counts and the stored chunks consistent, and changes no chunk that is stored.
  pub add_chunk-Consistent :
      (file : Bytes) (base start : ℕ) (p : Bytes) (live : List Str) (w : World store)
      → Consistent store md5 rabin Known live w
      → (start - base) + length p ≤ length file
      → read_at (length p) (start - base) file ≡ p
      → length p < 2 ^ 31
      → Known p
      → (w' : World store) × (add_chunk store file base (chunk_of rabin md5 start p) w ≡ ok w')
        × Consistent store md5 rabin Known (key_of rabin md5 p ∷ live) w'
        × Grows store md5 rabin Known w w'
  unfolding add_chunk
  add_chunk-Consistent file base start p live w c inside content small known =
      let k = key_of rabin md5 p in
      let fresh = use_chunk_new k w.table in
      elim (Bool-cases (is_dead (entry k w.table))) [
        | inl dead ↦
            let absent = (c.kept k).0 dead in
            let (s, eq, valid, here, others) =
              store.upload_chunk_new k file (start - base) (length p) w.store c.valid absent inside
                small in
            (
              record { table = (use_chunk k w.table).0; store = s },
              rw (fresh, dead, eq, ◌>>=◌) refl,
              added k p live w s c valid (here ∙ ap some content) refl known others,
              λ j bs stored. elim (str_dec j k) [
                | yes q ↦ ground (arith, absent, stored, q)
                | no q ↦ others j q ∙ stored
              ],
            )
        | inr alive ↦
            let (bs, stored, hash, known') = (c.kept k).1 alive in
            (
              record { table = (use_chunk k w.table).0; store = w.store },
              rw (fresh, alive) refl,
              added k bs live w w.store c c.valid stored hash known' (λ j q. refl),
              λ j bs' h. h,
            )
      ]

  count_move :
      (j k : Str) (ks live : List Str) → count j (ks ++ (k ∷ live)) ≡ count j (k ∷ (ks ++ live))
  unfolding count
  count_move j k ks live = ground (arith, count-append j ks (k ∷ live), count-append j ks live)

  pub piece_inside :
      (before p later : Bytes) (start base : ℕ)
      → start ≡ base + length before
      → (start - base + length p ≤ length (before ++ (p ++ later)))
        × (read_at (length p) (start - base) (before ++ (p ++ later)) ≡ p)
  piece_inside before p later start base at_piece =
      let offset : start - base ≡ length before = omega (arith, at_piece) in
      (
        omega (arith, offset, length-append before (p ++ later), length-append p later),
        rw (offset, drop-append_left before (p ++ later)) (take-append_left p later),
      )

  -- Where pieces follow each other in the buffer file, the loop over their chunks succeeds, counts one
  -- more use of each, keeps the counts and the stored chunks consistent, and changes no chunk that is
  -- stored.
  pub add_chunks-Consistent :
      (file before : Bytes) (ps : List Bytes) (after : Bytes) (start base : ℕ) (live : List Str)
      (w : World store)
      → Consistent store md5 rabin Known live w
      → file ≡ before ++ (join ps ++ after)
      → start ≡ base + length before
      → length file < 2 ^ 31
      → PartsKnown store md5 rabin Known file
      → (w' : World store) × (add_chunks store file base (chunks_of rabin md5 start ps) w ≡ ok w')
        × Consistent store md5 rabin Known (keys_of (chunks_of rabin md5 start ps) ++ live) w'
        × Grows store md5 rabin Known w w'
  unfolding add_chunks join chunks_of
  add_chunks-Consistent file before [] after start base live w c there at_piece small known =
      (w, refl, c, λ j bs h. h)
  add_chunks-Consistent file before (p ∷ ps) after start base live w c there at_piece small known =
      let later = join ps ++ after in
      let whole : file ≡ before ++ (p ++ later) =
        there ∙ ap (λ bs. before ++ bs) (append_assoc p (join ps) after) in
      let (inside, content) = piece_inside before p later start base at_piece in
      let len : length p ≤ length file =
        rw whole (omega (arith, length-append before (p ++ later), length-append p later)) in
      let (w1, eq, c1, grows) =
        add_chunk-Consistent file base start p live w c (rw whole inside) (rw whole content)
          (omega (arith, len, small)) (known before p later whole) in
      let (w2, eq2, c2, grows2) =
        add_chunks-Consistent file (before ++ p) ps after (start + length p) base
          (key_of rabin md5 p ∷ live) w1 c1 (whole ∙ sym (append_assoc before p later))
          (omega (arith, at_piece, length-append before p)) small known in
      (
        w2,
        >>=-eq_of_ok (add_chunk store file base (chunk_of rabin md5 start p) w) _ eq ∙ eq2,
        Consistent-congr store md5 rabin Known _ _ w2
            (λ j.
              count_move j (key_of rabin md5 p)
                (keys_of (chunks_of rabin md5 (start + length p) ps)) live)
            c2,
        λ j bs stored. grows2 j bs (grows j bs stored),
      )
