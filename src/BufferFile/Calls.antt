-- ===== src/BufferFile/Calls.antt =====
-- Uploads and deletes through the cache.
use cloud_file_system.Base.{
  ℕ, ◌+◌, ◌^◌, ◌≤◌, ◌<◌, ◌≡◌, ◌≢◌, refl, ◌∙◌, Bool, true, false, List, [], ◌∷◌, Option, none, some,
  length, drop, length-drop, arith, inl, inr, Bool-cases, Option-cases,
}
use cloud_file_system.Base.Dict.{lookup}
use cloud_file_system.Base.Int.{pos, ltb_ℤ}
use cloud_file_system.Base.Outcome.{ok, >>=-eq_of_ok}
use cloud_file_system.Bytes.{Bytes, Str, str_dec, read_at}
use cloud_file_system.Replacer.{Replacer, drop_key}
use cloud_file_system.Cloud.{Cloud}
use cloud_file_system.BufferFile.{
  CachedObject, CacheFile, Controller, copy_in, upload_chunk, delete_object, evict_to_size,
}
use cloud_file_system.BufferFile.Valid.{Agree, Valid, contents, visible}
use cloud_file_system.BufferFile.Room.{evict_to_size-Valid}
use cloud_file_system.BufferFile.Copy.{copy_in_all, length-read_at}
use cloud_file_system.BufferFile.Transfer.{admit-Valid, bucket-Valid, drop-Valid}

-- A key with no content, or with content too large for the cache, is not cached.
Agree-fresh :
    (known : Bool) (o? : Option CachedObject) (f? : Option CacheFile) (stored : Option Bytes)
    → Agree known o? f? stored
    → visible f? stored ≡ none
    → (o? ≡ none) × (stored ≡ none)
Agree-fresh known none none stored a h = (refl, h)
Agree-fresh known none (some f) stored a h = absurd a
Agree-fresh known (some o) none stored a h = absurd a
Agree-fresh known (some o) (some f) stored a h = ground arith

Agree-here :
    (o : CachedObject) (known : Bool) (f? : Option CacheFile) (stored : Option Bytes)
    → Agree known (some o) f? stored
    → (known ≡ true) × (o.dirty ≡ true → stored ≡ none)
Agree-here o known none stored a = absurd a
Agree-here o known (some f) stored a = ground arith

pub fits_test : (capacity size : ℕ) → ltb_ℤ (pos capacity) (pos size) ≡ false → size ≤ capacity
fits_test capacity size h = ground arith

module _ (replacer : Replacer) (cloud : Cloud) where
  -- On a valid state, to upload a piece of a file under a key without content succeeds, keeps the
  -- invariant, makes the piece the content of the key,
  -- and changes the content of no other key, if the piece is within the file and shorter than 2^31.
  pub upload_chunk-Valid :
      (k : Str) (file : Bytes) (offset size : ℕ) (s : Controller replacer cloud) (ks : List Str)
      (capacity : ℕ)
      → Valid replacer cloud s ks capacity
      → contents replacer cloud k s ≡ none
      → offset + size ≤ length file
      → size < 2 ^ 31
      → (s' : Controller replacer cloud) × (ks' : List Str) × (upload_chunk replacer cloud k file
            offset size s
          ≡ ok s')
        × Valid replacer cloud s' ks' capacity
        × (contents replacer cloud k s' ≡ some (read_at size offset file))
        × ((j : Str) → j ≢ k → contents replacer cloud j s' ≡ contents replacer cloud j s)
  unfolding upload_chunk
  upload_chunk-Valid k file offset size s ks capacity v fresh long small =
      let (new, unstored) = Agree-fresh _ _ _ _ (v.agree k) fresh in
      elim (Bool-cases (ltb_ℤ s.cache_size (pos size))) [
        | inl large ↦
            let bs = drop offset file in
            let (v', here, others) =
              bucket-Valid replacer cloud k (cloud.put k size bs s.bucket) s ks capacity v new
                (λ j p. cloud.get-put_ne j k size bs s.bucket p) in
            let stored =
              cloud.get-put_self k size bs s.bucket
                (omega (arith, long, length-drop offset file)) in
            (_, ks, rw large refl, v', here ∙ stored, others)
        | inr fits ↦
            let (s1, ks1, eq, v1, room, (same, absent)) =
              evict_to_size-Valid replacer cloud size s ks capacity v
                (fits_test capacity size (rw v.limit at fits)) in
            let piece = read_at size offset file in
            let (new1, unstored1) = Agree-fresh _ _ _ _ (v1.agree k) (same k ∙ fresh) in
            let (s2, eq2, v2, here, others) =
              admit-Valid replacer cloud k (record { size = size; dirty = true }) piece s1 ks1
                capacity v1 new1 (length-read_at size offset file long) room unstored1 in
            (
              s2,
              k ∷ drop_key k ks1,
              rw (fits, new, upload_chunk)
                  (>>=-eq_of_ok (evict_to_size replacer cloud size s) _ eq
                    ∙ >>=-eq_of_ok (copy_in size size 0 file offset []) _
                        (copy_in_all size file offset small long)
                    ∙ eq2),
              v2,
              here,
              λ j p. others j p ∙ same j,
            )
      ]

  -- On a valid state, to delete an object succeeds, keeps the invariant, leaves its key without content, and changes the content of no other key.
  pub delete_object-Valid :
      (k : Str) (s : Controller replacer cloud) (ks : List Str) (capacity : ℕ)
      → Valid replacer cloud s ks capacity
      → (s' : Controller replacer cloud) × (ks' : List Str) × (delete_object replacer cloud k s
          ≡ ok s')
        × Valid replacer cloud s' ks' capacity
        × (contents replacer cloud k s' ≡ none)
        × ((j : Str) → j ≢ k → contents replacer cloud j s' ≡ contents replacer cloud j s)
  unfolding delete_object
  delete_object-Valid k s ks capacity v = elim (Option-cases (lookup str_dec k s.cached_objects)) [
    | inl new ↦
        let (v', here, others) =
          bucket-Valid replacer cloud k (cloud.delete k s.bucket) s ks capacity v new
            (λ j p. cloud.get-delete_ne j k s.bucket p) in
        (_, ks, rw (new, delete_object) refl, v', here ∙ cloud.get-delete_self k s.bucket, others)
    | inr (o, cached) ↦
        let (known, unstored) = Agree-here o _ _ _ (rw cached at (v.agree k)) in
        let (r, eq, shown) = replacer.remove-Shows k s.cache_replacer ks v.shown known in
        elim (Bool-cases o.dirty) [
          | inl dirty ↦
              let (v', here, others) =
                drop-Valid replacer cloud k o r s.bucket s ks capacity v cached shown
                  (λ j p. refl) in
              (
                _,
                drop_key k ks,
                rw (cached, delete_object)
                    (>>=-eq_of_ok (replacer.remove k s.cache_replacer) _ eq ∙ rw dirty refl),
                v',
                here ∙ unstored dirty,
                others,
              )
          | inr clean ↦
              let (v', here, others) =
                drop-Valid replacer cloud k o r (cloud.delete k s.bucket) s ks capacity v cached
                  shown (λ j p. cloud.get-delete_ne j k s.bucket p) in
              (
                _,
                drop_key k ks,
                rw (cached, delete_object)
                    (>>=-eq_of_ok (replacer.remove k s.cache_replacer) _ eq ∙ rw clean refl),
                v',
                here ∙ cloud.get-delete_self k s.bucket,
                others,
              )
        ]
  ]
