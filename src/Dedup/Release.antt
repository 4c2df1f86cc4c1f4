-- ===== src/Dedup/Release.antt =====
-- The loops that release chunks keep the counts and the stored chunks consistent.
use cloud_file_system.Base.{
  ℕ, suc, ◌<◌, ◌≡◌, ◌≢◌, refl, sym, ap, ◌∙◌, inl, inr, Bool, true, false, List, [], ◌∷◌, ◌++◌, none,
  some, arith, Bool-cases, Option-cases,
}
use cloud_file_system.Base.Dict.{lookup, NodupKeys}
use cloud_file_system.Base.Int.{pos, ◌-ℤ◌}
use cloud_file_system.Base.Outcome.{ok, ◌>>=◌, >>=-eq_of_ok}
use cloud_file_system.Bytes.{Bytes, Str, str_dec}
use cloud_file_system.ChunkTable.{Table, RefCounts, entry, is_dead, release}
use cloud_file_system.ChunkTable.Counts.{refs, snapshots, minus_at, release_counts}
use cloud_file_system.ChunkStore.{ChunkStore}
use cloud_file_system.ChunkSplitter.{Rabin}
use cloud_file_system.Snapshot.Format.{Chunk}
use cloud_file_system.Dedup.Chunks.{World, drop_chunk, drop_chunks}
use cloud_file_system.Dedup.Counting.{
  Consistent, count, count-append, keys_of, dead_congr, alive_lem, count_self,
}

-- A chunk in use has an entry.
used_entry :
    (k : Str) (t : Table) (n : ℕ)
    → refs k t ≡ pos (suc n)
    → (c : RefCounts) × (lookup str_dec k t ≡ some c) × (entry k t ≡ c)
unfolding entry
used_entry k t n h = elim (Option-cases (lookup str_dec k t)) [
  | inl new ↦ ground (arith, rw (new, refs, entry) at h)
  | inr (c, old) ↦ (c, old, rw (old, entry) refl)
]

count_minus :
    (j k : Str) (live : List Str)
    → minus_at j k (pos 1) (pos (count j (k ∷ live))) ≡ pos (count j live)
unfolding count ◌-ℤ◌
count_minus j k live = ground arith

minus_self :
    (k : Str) (t : Table) (c : RefCounts)
    → entry k t ≡ c
    → (minus_at k k (pos 1) (refs k t) ≡ c.ref_count -ℤ pos 1)
      × (snapshots k t ≡ c.snapshot_ref_count)
minus_self k t c h = ground (arith, ap (λ e. e.ref_count) h, ap (λ e. e.snapshot_ref_count) h)

pub alive_some : (c : RefCounts) (n : ℕ) → 0 < n → c.ref_count ≡ pos n → is_dead c ≡ false
alive_some c n some_use h = ground (arith, h, some_use)

module _ (store : ChunkStore) (md5 : Bytes → Bytes) (rabin : Rabin) (Known : Bytes → Type 0) where
  -- What is still in use stays as it is.
  abbrev pub Remains : List Str → World store → World store → Type 0
  Remains live w w' =
      (j : Str) → 0 < count j live → store.contents j w'.store ≡ store.contents j w.store

  -- What `release` makes of the table.
  abbrev Released : Str → List Str → World store → Table → Bool → Type 0
  Released k live w t is_last =
      (release k w.table ≡ ok (t, is_last))
      × NodupKeys str_dec t
      × (is_last ≡ is_dead (entry k t))
      × ((j : Str) → refs j t ≡ pos (count j live))
      × ((j : Str) → j ≢ k → is_dead (entry j t) ≡ is_dead (entry j w.table))

  released :
      (k : Str) (live : List Str) (w : World store)
      → Consistent store md5 rabin Known (k ∷ live) w
      → (t : Table) × (is_last : Bool) × Released k live w t is_last
  released k live w c =
      let (old, there, same) =
        used_entry k w.table (count k live) (c.counted k ∙ ap pos (count_self k live)) in
      let (t, is_last, eq, nodup, last, counts) = release_counts k w.table old c.nodup there in
      (
        t,
        is_last,
        (
          eq,
          nodup,
          last
              ∙ dead_congr (record old { ref_count = old.ref_count -ℤ pos 1 }) (entry k t)
                  (sym ((counts k).0 ∙ (minus_self k w.table old same).0))
                  (sym ((counts k).1 ∙ (minus_self k w.table old same).1)),
          λ j. (counts j).0 ∙ ap (minus_at j k (pos 1)) (c.counted j) ∙ count_minus j k live,
          λ j differ.
              dead_congr (entry j t) (entry j w.table) ((counts j).0 ∙ ground (arith, differ))
                (counts j).1,
        ),
      )

  dropped :
      (k : Str) (live : List Str) (w : World store) (t : Table) (is_last : Bool) (s : store.State)
      → Consistent store md5 rabin Known (k ∷ live) w
      → Released k live w t is_last
      → store.Valid s
      → ((j : Str) → j ≢ k → store.contents j s ≡ store.contents j w.store)
      → (is_last ≡ true → store.contents k s ≡ none)
      → (is_last ≡ false → store.contents k s ≡ store.contents k w.store)
      → Consistent store md5 rabin Known live (record { table = t; store = s })
  dropped k live w t is_last s c (eq, nodup, last, counts, dead_eq) valid others gone stays =
      record {
        nodup = nodup;
        valid = valid;
        counted = counts;
        kept = λ j. elim (str_dec j k) [
          | yes p ↦ rw p (
            λ dead. gone (last ∙ dead),
            λ alive. rw (stays (last ∙ alive)) (
                (c.kept k).1 (
                  alive_lem (entry k w.table) (count k live)
                    (c.counted k ∙ ap pos (count_self k live)))),
          )
          | no p ↦ rw (dead_eq j p, others j p) (c.kept j)
        ];
      }

  drop_eq :
      (k : Str) (w : World store) (t : Table) (is_last : Bool) (s : store.State)
      → release k w.table ≡ ok (t, is_last)
      → (is_last ≡ true → store.delete_object k w.store ≡ ok s)
      → (is_last ≡ false → s ≡ w.store)
      → drop_chunk store k w ≡ ok (record { table = t; store = s })
  unfolding drop_chunk
  drop_eq k w t true s eq gone stays = rw (eq, ◌>>=◌, gone refl) refl
  drop_eq k w t false s eq gone stays = rw (eq, ◌>>=◌, stays refl) refl

  -- Where a chunk is in use, `drop_chunk` succeeds, counts one use of it less, keeps the counts and
  -- the stored chunks consistent, so that a chunk that nothing uses any longer is not stored, and
  -- leaves the chunks that are still in use as they are.
  pub drop_chunk-Consistent :
      (k : Str) (live : List Str) (w : World store)
      → Consistent store md5 rabin Known (k ∷ live) w
      → (w' : World store) × (drop_chunk store k w ≡ ok w')
        × Consistent store md5 rabin Known live w'
        × Remains live w w'
  drop_chunk-Consistent k live w c =
      let (t, is_last, after) = released k live w c in
      elim (Bool-cases is_last) [
        | inl last ↦
            let (s, eq, valid, gone, others) = store.delete_object_lem k w.store c.valid in
            (
              record { table = t; store = s },
              drop_eq k w t is_last s after.0 (λ h. eq) (λ h. ground (arith, h, last)),
              dropped k live w t is_last s c after valid others (λ h. gone)
                  (λ h. ground (arith, h, last)),
              λ j used. elim (str_dec j k) [
                | yes p ↦ ground (
                  arith,
                  alive_some (entry k t) (count k live) (rw p at used) (after.3 k),
                  last,
                  after.2,
                )
                | no p ↦ others j p
              ],
            )
        | inr shared ↦ (
          record { table = t; store = w.store },
          drop_eq k w t is_last w.store after.0 (λ h. ground (arith, h, shared)) (λ h. refl),
          dropped k live w t is_last w.store c after c.valid (λ j p. refl)
              (λ h. ground (arith, h, shared)) (λ h. refl),
          λ j used. refl,
        )
      ]

  -- Where the chunks are in use, the loop over them succeeds, counts one use of each less, keeps the
  -- counts and the stored chunks consistent, and leaves the chunks that are still in use as they are.
  pub drop_chunks-Consistent :
      (cs : List Chunk) (live : List Str) (w : World store)
      → Consistent store md5 rabin Known (keys_of cs ++ live) w
      → (w' : World store) × (drop_chunks store cs w ≡ ok w')
        × Consistent store md5 rabin Known live w'
        × Remains live w w'
  unfolding drop_chunks
  drop_chunks-Consistent [] live w c = (w, refl, c, λ j used. refl)
  drop_chunks-Consistent (first ∷ cs) live w c =
      let (w1, eq, c1, remains) = drop_chunk-Consistent first.key (keys_of cs ++ live) w c in
      let (w2, eq2, c2, remains2) = drop_chunks-Consistent cs live w1 c1 in
      (
        w2,
        >>=-eq_of_ok (drop_chunk store first.key w) _ eq ∙ eq2,
        c2,
        λ j used.
            remains2 j used ∙ remains j (omega (arith, count-append j (keys_of cs) live, used)),
      )
