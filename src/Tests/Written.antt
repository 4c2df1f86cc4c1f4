-- ===== src/Tests/Written.antt =====
-- A byte is written behind a file of one chunk.
use cloud_file_system.Base.{
  ◌*◌, ◌-◌, ◌≡◌, refl, sym, ap, ◌∙◌, inr, [], ◌∷◌, ◌++◌, length, drop, arith, length-append,
}
use cloud_file_system.Base.Dict.{lookup}
use cloud_file_system.Bytes.{Bytes, write_at}
use cloud_file_system.ChunkSplitter.{hex}
use cloud_file_system.ChunkTable.{entry}
use cloud_file_system.Dedup.Chunks.{World}
use cloud_file_system.Dedup.Counting.{Consistent, PartsKnown, count, count_self}
use cloud_file_system.Dedup.Use.{add_chunk-Consistent}
use cloud_file_system.Dedup.Contents.{Describes}
use cloud_file_system.Dedup.Written.{NoCollision, Replaced, contents_known, replace_chunks_lem}
use cloud_file_system.Tests.Objects.{start-Valid}
use cloud_file_system.Tests.Dedup.{rabin, md5, store, text, nothing, idle, chunk}

-- The ends of the text are the known byte strings.
abbrev End : Bytes → Type 0
End bs = bs ≡ drop (2 - length bs) text

length-hex : (bs : Bytes) → length (hex bs) ≡ 2 * length bs
unfolding hex
length-hex [] = refl
length-hex (b ∷ bs) = omega (arith, length-hex bs)

ends_differ : NoCollision store md5 rabin End
ends_differ p q known known' same_key =
    let same : length p ≡ length q =
      omega (arith, length-hex p, length-hex q, ap length same_key) in
    known ∙ ap (λ n. drop (2 - n) text) same ∙ sym known'

byte-PartsKnown : PartsKnown store md5 rabin End (8 ∷ [])
byte-PartsKnown a [] b whole = refl
byte-PartsKnown [] (x ∷ []) b whole = ground (arith, whole)
byte-PartsKnown [] (x ∷ y ∷ p) b whole = ground (arith, whole)
byte-PartsKnown (z ∷ a) (x ∷ p) b whole =
    ground (arith, ap length whole, length-append a ((x ∷ p) ++ b))

empty-Consistent : Consistent store md5 rabin End [] nothing
unfolding lookup entry count
empty-Consistent = record {
  nodup = tt;
  valid = ([], 4, start-Valid);
  counted = λ j. refl;
  kept = λ j. (λ dead. refl, λ alive. ground (arith, alive));
}

text_stored : (w : World store) × Consistent store md5 rabin End (chunk.key ∷ []) w
text_stored =
    let (w, eq, c, grows) =
      add_chunk-Consistent store md5 rabin End text 0 0 text [] nothing empty-Consistent
        (omega arith) refl (omega arith) refl in
    (w, c)

text_described : Describes store text_stored.0.store 0 (chunk ∷ []) text
text_described =
    let used = count_self chunk.key [] in
    let stored =
      contents_known store md5 rabin End (chunk.key ∷ []) text_stored.0 text text_stored.1
        ends_differ refl (omega (arith, used)) in
    (text, [], refl, refl, refl, omega arith, stored, refl)

replace_chunks_lem_example :
    Replaced store md5 rabin End (chunk ∷ []) 1 1 (8 ∷ []) 2 idle [] text_stored.0 (7 ∷ 8 ∷ 8 ∷ [])
unfolding write_at
replace_chunks_lem_example =
    replace_chunks_lem store md5 rabin End (chunk ∷ []) 1 1 (8 ∷ []) 2 idle [] text_stored.0 text
      text_stored.1 text_described ends_differ byte-PartsKnown (omega arith) (omega arith) refl
      (inr (refl, omega arith))
