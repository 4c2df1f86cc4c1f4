-- ===== src/BufferFile/Room.antt =====
-- `evict_to_size` makes room, and no content is lost.
use cloud_file_system.Base.{
  ℕ, zero, suc, ◌+◌, ◌≤◌, ◌<◌, ◌≡◌, ◌≢◌, refl, sym, ◌∙◌, Bool, true, false, List, [], ◌∷◌, ◌++◌,
  Option, none, some, length, arith, take_all, List-cases_last, inl, inr, Bool-cases, if◌then◌else◌,
}
use cloud_file_system.Base.Dict.{
  Dict, lookup, erase, lookup-erase_self, lookup-erase_ne, erase-NodupKeys, length-erase,
  lookup-erase_absent,
}
use cloud_file_system.Base.Int.{pos, ◌-ℤ◌, -ℤ_parts, ltb_ℤ}
use cloud_file_system.Base.Outcome.{ok, >>=-eq_of_ok}
use cloud_file_system.Bytes.{Bytes, Str, str_dec}
use cloud_file_system.Replacer.{Replacer, has}
use cloud_file_system.Cloud.{Cloud}
use cloud_file_system.BufferFile.{
  CachedObject, CacheFile, Controller, object_of, write_back, evict_one, evict_rounds,
  evict_to_size,
}
use cloud_file_system.BufferFile.Valid.{
  Agree, Valid, contents, total, total-erase, has-snoc_self, has-snoc_ne, DistinctKeys-snoc,
}

pub Agree-cached :
    (known : Bool) (o? : Option CachedObject) (f? : Option CacheFile) (stored : Option Bytes)
    → known ≡ true
    → Agree known o? f? stored
    → (o : CachedObject) × (f : CacheFile) × (o? ≡ some o)
      × (f? ≡ some f)
      × (length f.content ≡ o.size)
      × (stored ≡ (if o.dirty then none else some f.content))
Agree-cached known none none stored h a = ground arith
Agree-cached known none (some f) stored h a = absurd a
Agree-cached known (some o) none stored h a = absurd a
Agree-cached known (some o) (some f) stored h a = (o, f, refl, refl, a.1, a.2)

pub minus_lem : (n a b : ℕ) → a + b ≡ n → pos n -ℤ pos b ≡ pos a
minus_lem n a b h = ground (arith, -ℤ_parts (pos n) (pos b))

room_lem :
    (capacity used size : ℕ)
    → ltb_ℤ (pos capacity -ℤ pos used) (pos size) ≡ false
    → used + size ≤ capacity
room_lem capacity used size h = ground (arith, -ℤ_parts (pos capacity) (pos used))

full_lem :
    (capacity used size : ℕ)
    → ltb_ℤ (pos capacity -ℤ pos used) (pos size) ≡ true
    → capacity < used + size
full_lem capacity used size h = ground (arith, -ℤ_parts (pos capacity) (pos used))

-- A cache that is not empty has a key that its replacer knows.
known_key :
    (d : Dict Str CachedObject) (ks : List Str)
    → 0 < total d
    → ((j : Str) → lookup str_dec j d ≢ none → has j ks ≡ true)
    → ks ≢ []
unfolding lookup has
known_key [] ks h known = ground arith
known_key (e ∷ d) ks h known = ground (arith, known e.0)

Agree-known :
    (known : Bool) (o? : Option CachedObject) (f? : Option CacheFile) (stored : Option Bytes)
    → Agree known o? f? stored
    → o? ≢ none
    → known ≡ true
Agree-known known none f? stored a h = ground arith
Agree-known known (some o) none stored a h = absurd a
Agree-known known (some o) (some f) stored a h = a.0

module _ (replacer : Replacer) (cloud : Cloud) where
  abbrev evicted :
      Str
      → CachedObject
      → replacer.State
      → cloud.State
      → Controller replacer cloud
      → Controller replacer cloud
  evicted k o r b s = record s {
    cached_objects = erase str_dec k s.cached_objects;
    cache_used = s.cache_used -ℤ pos o.size;
    cache_root = erase str_dec k s.cache_root;
    cache_replacer = r;
    bucket = b;
  }

  -- To take a key out keeps the invariant and every content, if the bucket has what its file had.
  evicted-Valid :
      (k : Str) (o : CachedObject) (f : CacheFile) (r : replacer.State) (b : cloud.State)
      (s : Controller replacer cloud) (ks : List Str) (capacity : ℕ)
      → Valid replacer cloud s (ks ++ (k ∷ [])) capacity
      → lookup str_dec k s.cached_objects ≡ some o
      → lookup str_dec k s.cache_root ≡ some f
      → replacer.Shows r ks
      → cloud.get k b ≡ some f.content
      → ((j : Str) → j ≢ k → cloud.get j b ≡ cloud.get j s.bucket)
      → Valid replacer cloud (evicted k o r b s) ks capacity
        × ((j : Str) → contents replacer cloud j (evicted k o r b s) ≡ contents replacer cloud j s)
  evicted-Valid k o f r b s ks capacity v cached there shown stored other =
      let gone = lookup-erase_self str_dec k s.cached_objects v.objects_nodup in
      let gone' = lookup-erase_self str_dec k s.cache_root v.files_nodup in
      let unknown =
        DistinctKeys-snoc k ks (replacer.Shows-DistinctKeys s.cache_replacer _ v.shown) in
      let less = total-erase k o s.cached_objects cached in
      (
        record {
          shown = shown;
          objects_nodup = erase-NodupKeys str_dec k s.cached_objects v.objects_nodup;
          files_nodup = erase-NodupKeys str_dec k s.cache_root v.files_nodup;
          agree = λ j. elim (str_dec j k) [
            | yes p ↦ rw (p, gone, gone') unknown
            | no p ↦
                rw
                  (
                    lookup-erase_ne str_dec j k s.cached_objects p,
                    lookup-erase_ne str_dec j k s.cache_root p,
                    other j p,
                    sym (has-snoc_ne j k ks p),
                  )
                  (v.agree j)
          ];
          used = rw v.used (minus_lem (total s.cached_objects) _ o.size less);
          limit = v.limit;
          room = omega (arith, v.room, less);
        },
        λ j. elim (str_dec j k) [
          | yes p ↦ rw (p, gone', there, stored) refl
          | no p ↦ rw (lookup-erase_ne str_dec j k s.cache_root p, other j p) refl
        ],
      )

  abbrev bucket_after : Str → CachedObject → CacheFile → Controller replacer cloud → cloud.State
  bucket_after k o f s = if o.dirty then cloud.put k o.size f.content s.bucket else s.bucket

  evict_one_eq :
      (k : Str) (o : CachedObject) (f : CacheFile) (r : replacer.State)
      (s : Controller replacer cloud)
      → replacer.evict s.cache_replacer ≡ ok (k, r)
      → lookup str_dec k s.cached_objects ≡ some o
      → lookup str_dec k s.cache_root ≡ some f
      → evict_one replacer cloud s ≡ ok (evicted k o r (bucket_after k o f s) s)
  unfolding evict_one
  evict_one_eq k o f r s eq cached there =
      let found : object_of k s ≡ o = rw (cached, object_of) refl in
      elim (Bool-cases o.dirty) [
        | inl dirty ↦
            >>=-eq_of_ok (replacer.evict s.cache_replacer) _ eq
            ∙ rw (found, dirty, there, write_back) (rw found refl)
        | inr clean ↦ >>=-eq_of_ok (replacer.evict s.cache_replacer) _ eq ∙ rw (found, clean) refl
      ]

  stored_after :
      (k : Str) (o : CachedObject) (f : CacheFile) (s : Controller replacer cloud)
      → length f.content ≡ o.size
      → cloud.get k s.bucket ≡ (if o.dirty then none else some f.content)
      → (cloud.get k (bucket_after k o f s) ≡ some f.content)
        × ((j : Str) → j ≢ k → cloud.get j (bucket_after k o f s) ≡ cloud.get j s.bucket)
  stored_after k o f s len clean = elim (Bool-cases o.dirty) [
    | inl dirty ↦
        let stored = cloud.get-put_self k o.size f.content s.bucket (omega (arith, len)) in
        rw dirty (
          rw (take_all o.size f.content len) at stored,
          λ j p. cloud.get-put_ne j k o.size f.content s.bucket p,
        )
    | inr not_dirty ↦ rw not_dirty (rw not_dirty at clean, λ j p. refl)
  ]

  -- What the steps of the loop keep.
  abbrev pub Keeps : Controller replacer cloud → Controller replacer cloud → Type 0
  Keeps s s' =
      ((j : Str) → contents replacer cloud j s' ≡ contents replacer cloud j s)
      × ((j : Str)
          → lookup str_dec j s.cached_objects ≡ none
          → lookup str_dec j s'.cached_objects ≡ none)

  -- One round of the loop: the least recently used key goes, and nothing else changes.
  pub evict_one-Valid :
      (k : Str) (s : Controller replacer cloud) (ks : List Str) (capacity : ℕ)
      → Valid replacer cloud s (ks ++ (k ∷ [])) capacity
      → (s' : Controller replacer cloud) × (evict_one replacer cloud s ≡ ok s')
        × Valid replacer cloud s' ks capacity
        × (length s'.cached_objects + 1 ≡ length s.cached_objects)
        × Keeps s s'
  evict_one-Valid k s ks capacity v =
      let (r, eq, shown) = replacer.evict-Shows k s.cache_replacer ks v.shown in
      let (o, f, cached, there, len, clean) =
        Agree-cached _ _ _ _ (has-snoc_self k ks) (v.agree k) in
      let (stored, other) = stored_after k o f s len clean in
      let (v', same) =
        evicted-Valid k o f r (bucket_after k o f s) s ks capacity v cached there shown stored
          other in
      (
        evicted k o r (bucket_after k o f s) s,
        evict_one_eq k o f r s eq cached there,
        v',
        length-erase str_dec k o s.cached_objects cached,
        (same, λ j. lookup-erase_absent str_dec j k s.cached_objects),
      )

  -- While there is not room enough, the replacer has a key.
  full-key :
      (size : ℕ) (s : Controller replacer cloud) (ks : List Str) (capacity : ℕ)
      → Valid replacer cloud s ks capacity
      → size ≤ capacity
      → ltb_ℤ (s.cache_size -ℤ s.cache_used) (pos size) ≡ true
      → (ks' : List Str) × (k : Str) × (ks ≡ ks' ++ (k ∷ []))
  full-key size s ks capacity v small more =
      let full = full_lem capacity (total s.cached_objects) size (rw (v.used, v.limit) at more) in
      elim (List-cases_last ks) [
        | inl no_keys ↦ absurd (
            known_key s.cached_objects ks (omega (arith, full, small))
              (λ j. Agree-known _ _ _ _ (v.agree j)) no_keys)
        | inr (ks', k, last) ↦ (ks', k, last)
      ]

  no_objects : (d : Dict Str CachedObject) → length d ≤ 0 → total d ≡ 0
  no_objects [] h = refl
  no_objects (e ∷ d) h = omega arith

  -- With as many rounds as there are objects the loop ends, and there is room for the object.
  pub evict_rounds-Valid :
      (n size : ℕ) (s : Controller replacer cloud) (ks : List Str) (capacity : ℕ)
      → Valid replacer cloud s ks capacity
      → size ≤ capacity
      → length s.cached_objects ≤ n
      → (s' : Controller replacer cloud) × (ks' : List Str) × (evict_rounds replacer cloud n size s
          ≡ ok s')
        × Valid replacer cloud s' ks' capacity
        × (total s'.cached_objects + size ≤ capacity)
        × Keeps s s'
  unfolding evict_rounds
  evict_rounds-Valid zero size s ks capacity v small fuel =
      let none_left = no_objects s.cached_objects fuel in
      elim (Bool-cases (ltb_ℤ (s.cache_size -ℤ s.cache_used) (pos size))) [
        | inl more ↦
            let full =
              full_lem capacity (total s.cached_objects) size (rw (v.used, v.limit) at more) in
            absurd (omega (arith, full, none_left, small))
        | inr enough ↦ (
          s,
          ks,
          rw enough refl,
          v,
          room_lem capacity (total s.cached_objects) size (rw (v.used, v.limit) at enough),
          (λ j. refl, λ j h. h),
        )
      ]
  evict_rounds-Valid (suc n) size s ks capacity v small fuel =
      elim (Bool-cases (ltb_ℤ (s.cache_size -ℤ s.cache_used) (pos size))) [
        | inl more ↦
            let (ks1, k, last) = full-key size s ks capacity v small more in
            let (s1, eq, v1, shorter, (same1, absent1)) =
              evict_one-Valid k s ks1 capacity (rw last at v) in
            let (s', ks', eq', v', room, (same, absent)) =
              evict_rounds-Valid n size s1 ks1 capacity v1 small (omega (arith, shorter, fuel)) in
            (
              s',
              ks',
              rw more (
                  >>=-eq_of_ok (evict_one replacer cloud s) (evict_rounds replacer cloud n size) eq
                  ∙ eq'),
              v',
              room,
              (λ j. same j ∙ same1 j, λ j h. absent j (absent1 j h)),
            )
        | inr enough ↦ (
          s,
          ks,
          rw enough refl,
          v,
          room_lem capacity (total s.cached_objects) size (rw (v.used, v.limit) at enough),
          (λ j. refl, λ j h. h),
        )
      ]

  -- On a valid state, `evict_to_size` ends and makes room for an object that fits the cache. It keeps
  -- the invariant and the content of every object, and puts no object into the cache.
  pub evict_to_size-Valid :
      (size : ℕ) (s : Controller replacer cloud) (ks : List Str) (capacity : ℕ)
      → Valid replacer cloud s ks capacity
      → size ≤ capacity
      → (s' : Controller replacer cloud) × (ks' : List Str) × (evict_to_size replacer cloud size s
          ≡ ok s')
        × Valid replacer cloud s' ks' capacity
        × (total s'.cached_objects + size ≤ capacity)
        × Keeps s s'
  evict_to_size-Valid size s ks capacity v small =
      evict_rounds-Valid (length s.cached_objects) size s ks capacity v small (omega arith)
