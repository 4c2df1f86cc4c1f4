-- ===== src/Dedup/Change.antt =====
-- What `write_file` makes of an open large file.
use cloud_file_system.Base.{
  ℕ, ◌+◌, ◌-◌, ◌^◌, ◌≤◌, ◌<◌, ◌≡◌, sym, ap, ◌∙◌, ◌⊎◌, inl, inr, List, [], ◌++◌, length, drop, take,
  arith, length-append,
}
use mathlib.Core.List.{append_assoc}
use cloud_file_system.Bytes.{Bytes, Str, write_at}
use cloud_file_system.ChunkStore.{ChunkStore}
use cloud_file_system.ChunkSplitter.{Rabin, Splitter}
use cloud_file_system.Snapshot.Format.{Chunk}
use cloud_file_system.FileController.ChunkInfo.{total_len}
use cloud_file_system.Dedup.Chunks.{World}
use cloud_file_system.Dedup.Prepare.{range}
use cloud_file_system.Dedup.Counting.{Consistent, PartsKnown, keys_of}
use cloud_file_system.Dedup.Contents.{Describes}
use cloud_file_system.Dedup.Written.{NoCollision, Replaced, replace_chunks_lem}
use cloud_file_system.Dedup.Overwrite.{length-write_at, write_at_through}

module _ (store : ChunkStore) (md5 : Bytes → Bytes) (rabin : Rabin) (Known : Bytes → Type 0) where
  -- A store with the same contents.
  pub Consistent-store :
      (live : List Str) (w : World store) (s : store.State)
      → Consistent store md5 rabin Known live w
      → store.Valid s
      → ((j : Str) → store.contents j s ≡ store.contents j w.store)
      → Consistent store md5 rabin Known live (record w { store = s })
  Consistent-store live w s c v same = record {
    nodup = c.nodup;
    valid = v;
    counted = c.counted;
    kept = λ j. (
      λ dead. same j ∙ (c.kept j).0 dead,
      λ alive.
          let (bs, stored, hash, known) = (c.kept j).1 alive in (bs, same j ∙ stored, hash, known),
    );
  }

  middle-Known :
      (a m b whole : Bytes)
      → whole ≡ a ++ (m ++ b)
      → PartsKnown store md5 rabin Known whole
      → PartsKnown store md5 rabin Known m
  middle-Known a m b whole cut known x p y parts = known (a ++ x) p (y ++ b) (
      cut
      ∙ ap (λ z. a ++ (z ++ b)) parts
      ∙ ap (λ z. a ++ z) (append_assoc x (p ++ y) b ∙ ap (λ z. x ++ z) (append_assoc p y b))
      ∙ sym (append_assoc a x (p ++ (y ++ b))))

  -- A write to the loaded bytes of a range of the chunks, which then replace the range.
  pub overwrite_lem :
      (chunks : List Chunk) (start stop offset : ℕ) (a m b buf bs : Bytes)
      (sp : Splitter rabin.State) (live : List Str) (w : World store)
      → Consistent store md5 rabin Known (keys_of chunks ++ live) w
      → Describes store w.store 0 chunks bs
      → NoCollision store md5 rabin Known
      → PartsKnown store md5 rabin Known (write_at offset buf bs)
      → length (write_at offset buf bs) < 2 ^ 31
      → 0 < length buf
      → bs ≡ a ++ (m ++ b)
      → length a ≤ offset
      → start ≤ stop
      → length a ≡ total_len (take start chunks)
      → total_len (range start stop chunks) ≡ length m
      → (drop stop chunks ≡ []) ⊎ (offset + length buf ≤ length a + length m)
      → (drop stop chunks ≡ [] → b ≡ [])
      → Replaced store md5 rabin Known chunks start stop
          (write_at (offset - length a) buf m)
          (length a)
          sp
          live
          w
          (write_at offset buf bs)
  overwrite_lem chunks start stop offset a m b buf bs sp live w c d distinct known small some_bytes
        whole low ordered at_a len_m reaches empty =
      let content = write_at (offset - length a) buf m in
      let reaches' : (b ≡ []) ⊎ (offset + length buf ≤ length a + length m) = elim reaches [
        | inl none_behind ↦ inl (empty none_behind)
        | inr to ↦ inr to
      ] in
      let (once, twice) = write_at_through a m b buf offset low some_bytes reaches' in
      let new : write_at offset buf bs ≡ a ++ (content ++ b) =
        ap (λ x. write_at offset buf x) whole ∙ once in
      let same : write_at (length a) content bs ≡ write_at offset buf bs =
        ap (λ x. write_at (length a) content x) whole ∙ twice ∙ sym new in
      let len = length-write_at (offset - length a) buf m some_bytes in
      let fits : (total_len (range start stop chunks) ≡ length content)
          ⊎ ((drop stop chunks ≡ []) × (total_len (range start stop chunks) ≤ length content)) =
        elim reaches [
          | inl none_behind ↦ inr (none_behind, omega (arith, len, len_m))
          | inr to ↦ inl (omega (arith, len, len_m, to, low))
        ] in
      rw (sym same) (
        replace_chunks_lem store md5 rabin Known chunks start stop content (length a) sp live w bs c
          d distinct (middle-Known a content b (write_at offset buf bs) new known)
          (omega
            (arith, small, ap length new, length-append a (content ++ b), length-append content b))
          ordered at_a fits)
