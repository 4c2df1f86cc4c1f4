-- ===== src/BufferFile/Download.antt =====
-- Downloads: the cache cannot be seen in what they deliver.
use cloud_file_system.Base.{
  ℕ, ◌^◌, ◌≤◌, ◌<◌, ◌≡◌, refl, sym, ◌∙◌, ap, Bool, true, false, List, ◌∷◌, Option, none, some,
  length, arith, inl, inr, Bool-cases, Option-cases,
}
use cloud_file_system.Base.Dict.{lookup, lookup-insert_self}
use cloud_file_system.BufferFile.Calls.{fits_test}
use cloud_file_system.Base.Int.{pos, ltb_ℤ}
use cloud_file_system.Base.Outcome.{ok, >>=-eq_of_ok}
use cloud_file_system.Bytes.{Bytes, Str, str_dec, write_at}
use cloud_file_system.Bytes.RoundTrip.{write_at_new}
use cloud_file_system.Replacer.{Replacer, drop_key}
use cloud_file_system.Cloud.{Cloud}
use cloud_file_system.BufferFile.{
  CachedObject, CacheFile, Controller, object_of, file_with, received, set_cached, set_content,
  fetch, access, copy_out, download_chunk, evict_to_size,
}
use cloud_file_system.BufferFile.Valid.{Agree, Valid, contents, total-erase}
use cloud_file_system.BufferFile.Room.{evict_to_size-Valid}
use cloud_file_system.BufferFile.Copy.{copy_out_all}
use cloud_file_system.BufferFile.Transfer.{
  Agree-absent, content_file_with, access-Valid, admit-Valid,
}

Agree-file :
    (o : CachedObject) (known : Bool) (f? : Option CacheFile) (stored : Option Bytes)
    → Agree known (some o) f? stored
    → (f : CacheFile) × (f? ≡ some f) × (length f.content ≡ o.size)
Agree-file o known none stored a = absurd a
Agree-file o known (some f) stored a = (f, refl, a.1)

some_inj : {a b : Bytes} → some a ≡ some b → a ≡ b
some_inj h = cc

fits_lem : (capacity size : ℕ) → size ≤ capacity → ltb_ℤ (pos capacity) (pos size) ≡ false
fits_lem capacity size h = ground arith

module _ (replacer : Replacer) (cloud : Cloud) where
  -- The content of a key that is not cached is in the bucket.
  cloud_content :
      (k : Str) (bs : Bytes) (s : Controller replacer cloud) (ks : List Str) (capacity : ℕ)
      → Valid replacer cloud s ks capacity
      → lookup str_dec k s.cached_objects ≡ none
      → contents replacer cloud k s ≡ some bs
      → cloud.get k s.bucket ≡ some bs
  cloud_content k bs s ks capacity v new stored =
      let (unknown, no_file) = Agree-absent _ _ _ (rw new at (v.agree k)) in rw no_file at stored

  download_direct :
      (k : Str) (file bs : Bytes) (offset size : ℕ) (s : Controller replacer cloud)
      → ltb_ℤ s.cache_size (pos size) ≡ true
      → cloud.get k s.bucket ≡ some bs
      → download_chunk replacer cloud k file offset size s ≡ ok (write_at offset bs file, s)
  unfolding download_chunk
  download_direct k file bs offset size s large stored =
      let got : received replacer cloud k s ≡ bs = rw (stored, received) refl in
      rw (large, got, download_chunk) refl

  -- Once the object is in the cache, its file is copied, and the replacer is told.
  download_lem :
      (k : Str) (file bs : Bytes) (offset size : ℕ) (f : CacheFile) (o : CachedObject)
      (s s1 s2 : Controller replacer cloud)
      → ltb_ℤ s.cache_size (pos size) ≡ false
      → fetch replacer cloud k size s ≡ ok s1
      → lookup str_dec k s1.cache_root ≡ some f
      → lookup str_dec k s1.cached_objects ≡ some o
      → f.content ≡ bs
      → length bs ≡ o.size
      → o.size < 2 ^ 31
      → access replacer cloud k s1 ≡ ok s2
      → download_chunk replacer cloud k file offset size s ≡ ok (write_at offset bs file, s2)
  unfolding download_chunk
  download_lem k file bs offset size f o s s1 s2 fits eq there cached content len small eq2 =
      let copied = copy_out_all o.size f.content offset file small (ap length content ∙ len) in
      let found : object_of k s1 ≡ o = rw (cached, object_of) refl in
      rw (fits, download_chunk)
        (>>=-eq_of_ok (fetch replacer cloud k size s) _ eq
          ∙ rw (there, found)
              (>>=-eq_of_ok (copy_out o.size o.size 0 f.content offset file) _ copied
                ∙ >>=-eq_of_ok (access replacer cloud k s1) _ eq2
                ∙ rw content refl))

  fetch_cached :
      (k : Str) (size : ℕ) (o : CachedObject) (s : Controller replacer cloud)
      → lookup str_dec k s.cached_objects ≡ some o
      → fetch replacer cloud k size s ≡ ok s
  unfolding fetch
  fetch_cached k size o s cached = rw (cached, fetch) refl

  fetch_new :
      (k : Str) (bs : Bytes) (size : ℕ) (s s1 : Controller replacer cloud)
      → lookup str_dec k s.cached_objects ≡ none
      → evict_to_size replacer cloud size s ≡ ok s1
      → lookup str_dec k s1.cache_root ≡ none
      → cloud.get k s1.bucket ≡ some bs
      → fetch replacer cloud k size s
        ≡ ok (
            set_cached replacer cloud k
              (record { size = size; dirty = false })
              (set_content replacer cloud k bs s1))
  unfolding fetch
  fetch_new k bs size s s1 new eq no_file stored =
      let got : received replacer cloud k s1 ≡ bs = rw (stored, received) refl in
      rw (new, fetch)
        (>>=-eq_of_ok (evict_to_size replacer cloud size s) _ eq
          ∙ rw (no_file, got) (rw (write_at_new bs) refl))

  abbrev Delivers : Str → Bytes → Bytes → ℕ → ℕ → Controller replacer cloud → ℕ → Type 0
  Delivers k file bs offset size s capacity =
      (s' : Controller replacer cloud) × (ks' : List Str) × (download_chunk replacer cloud k file
          offset size s
        ≡ ok (write_at offset bs file, s'))
      × Valid replacer cloud s' ks' capacity
      × ((j : Str) → contents replacer cloud j s' ≡ contents replacer cloud j s)

  download_cached :
      (k : Str) (o : CachedObject) (file bs : Bytes) (offset size : ℕ)
      (s : Controller replacer cloud) (ks : List Str) (capacity : ℕ)
      → Valid replacer cloud s ks capacity
      → lookup str_dec k s.cached_objects ≡ some o
      → contents replacer cloud k s ≡ some bs
      → length bs ≡ size
      → size < 2 ^ 31
      → Delivers k file bs offset size s capacity
  download_cached k o file bs offset size s ks capacity v cached stored len small =
      let (f, there, flen) = Agree-file o _ _ _ (rw cached at (v.agree k)) in
      let content : f.content ≡ bs = some_inj (rw there at stored) in
      let same_size : size ≡ o.size = omega (arith, len, flen, ap length content) in
      let less = total-erase k o s.cached_objects cached in
      let fits : ltb_ℤ s.cache_size (pos size) ≡ false =
        rw v.limit (fits_lem capacity size (omega (arith, less, v.room, same_size))) in
      let (s2, eq2, v2, same) = access-Valid replacer cloud k o s ks capacity v cached in
      (
        s2,
        k ∷ drop_key k ks,
        download_lem k file bs offset size f o s s s2 fits (fetch_cached k size o s cached) there
            cached content (len ∙ same_size) (omega (arith, small, same_size)) eq2,
        v2,
        same,
      )

  download_new :
      (k : Str) (file bs : Bytes) (offset size : ℕ) (s : Controller replacer cloud) (ks : List Str)
      (capacity : ℕ)
      → Valid replacer cloud s ks capacity
      → lookup str_dec k s.cached_objects ≡ none
      → ltb_ℤ s.cache_size (pos size) ≡ false
      → contents replacer cloud k s ≡ some bs
      → length bs ≡ size
      → size < 2 ^ 31
      → Delivers k file bs offset size s capacity
  download_new k file bs offset size s ks capacity v new fits stored len small =
      let (s1, ks1, eq, v1, room, (same, absent)) =
        evict_to_size-Valid replacer cloud size s ks capacity v
          (fits_test capacity size (rw v.limit at fits)) in
      let new1 = absent k new in
      let (unknown, no_file) = Agree-absent _ _ _ (rw new1 at (v1.agree k)) in
      let stored1 = cloud_content k bs s1 ks1 capacity v1 new1 (same k ∙ stored) in
      let o : CachedObject = record { size = size; dirty = false } in
      let (s2, eq2, v2, here, others) =
        admit-Valid replacer cloud k o bs s1 ks1 capacity v1 new1 len room stored1 in
      let f = file_with bs (lookup str_dec k s1.cache_root) in
      (
        s2,
        k ∷ drop_key k ks1,
        download_lem k file bs offset size f o s _ s2 fits
            (fetch_new k bs size s s1 new eq no_file stored1)
            (lookup-insert_self str_dec k f s1.cache_root)
            (lookup-insert_self str_dec k o s1.cached_objects)
            (content_file_with bs (lookup str_dec k s1.cache_root)) len small eq2,
        v2,
        λ j. elim (str_dec j k) [ yes p ↦ rw p (here ∙ sym stored) | no p ↦ others j p ∙ same j ],
      )

  -- On a valid state, to download an object of known size, less than 2^31, succeeds, keeps the
  -- invariant, writes its content into the file, at the offset, and changes
  -- the content of no key.
  pub download_chunk-Valid :
      (k : Str) (file bs : Bytes) (offset size : ℕ) (s : Controller replacer cloud) (ks : List Str)
      (capacity : ℕ)
      → Valid replacer cloud s ks capacity
      → contents replacer cloud k s ≡ some bs
      → length bs ≡ size
      → size < 2 ^ 31
      → (s' : Controller replacer cloud) × (ks' : List Str) × (download_chunk replacer cloud k file
            offset size s
          ≡ ok (write_at offset bs file, s'))
        × Valid replacer cloud s' ks' capacity
        × ((j : Str) → contents replacer cloud j s' ≡ contents replacer cloud j s)
  download_chunk-Valid k file bs offset size s ks capacity v stored len small =
      elim (Option-cases (lookup str_dec k s.cached_objects)) [
        | inl new ↦ elim (Bool-cases (ltb_ℤ s.cache_size (pos size))) [
          | inl large ↦ (
            s,
            ks,
            download_direct k file bs offset size s large
                (cloud_content k bs s ks capacity v new stored),
            v,
            λ j. refl,
          )
          | inr fits ↦ download_new k file bs offset size s ks capacity v new fits stored len small
        ]
        | inr (o, cached) ↦
            download_cached k o file bs offset size s ks capacity v cached stored len small
      ]
