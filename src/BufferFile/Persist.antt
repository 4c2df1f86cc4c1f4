-- ===== src/BufferFile/Persist.antt =====
-- `persist_cache_state`, which writes the state of every cached object to its file and uploads the
-- dirty ones, and the loop of the constructor, which reads those states. The replacer writes a file
-- of its own.
use cloud_file_system.Base.{
  ℕ, ◌≡◌, ◌≢◌, refl, sym, ◌∙◌, ap, Bool, true, false, List, [], ◌∷◌, Option, none, some, length,
  arith, if◌then◌else◌, take_all, Bool-cases, inl, inr, ◌⊎◌,
}
use cloud_file_system.Base.Dict.{
  Dict, lookup, insert, NodupKeys, lookup-insert_self, lookup-insert_ne, insert-NodupKeys,
}
use cloud_file_system.Base.Int.{ℤ, pos, ◌+ℤ◌}
use cloud_file_system.Base.Outcome.{Outcome, ok, failure, ◌>>=◌, >>=-eq_of_ok}
use cloud_file_system.Bytes.{Bytes, Str, str_dec}
use cloud_file_system.Replacer.{Replacer}
use cloud_file_system.Cloud.{Cloud}
use cloud_file_system.BufferFile.{CachedObject, CacheFile, Controller}
use cloud_file_system.BufferFile.Valid.{Agree, Valid, contents, visible, total}

abbrev pub clean : CachedObject → CachedObject
clean o = record o { dirty = false }

-- The loop of the constructor over the files of the cache: the map, and how full the cache is.
unfoldable pub load_objects :
    Dict Str CacheFile → Dict Str CachedObject × ℤ → Dict Str CachedObject × ℤ
load_objects [] w = w
load_objects (e ∷ files) w = elim e.1.attributes [
  | none ↦ load_objects files w
  | some (k, o) ↦ load_objects files (insert str_dec k o w.0, w.1 +ℤ pos o.size)
]

module _ (replacer : Replacer) (cloud : Cloud) where
  -- The body of the loop of `persist_cache_state`.
  unfoldable pub persist_object :
      Str → CachedObject → Controller replacer cloud → Outcome (Controller replacer cloud)
  persist_object k o s = elim (lookup str_dec k s.cache_root) [
    | none ↦ failure
    | some f ↦ ok (record s {
      cached_objects = insert str_dec k (clean o) s.cached_objects;
      cache_root = insert str_dec k (record f { attributes = some (k, clean o) }) s.cache_root;
      bucket = if o.dirty then cloud.put k o.size f.content s.bucket else s.bucket;
    })
  ]

  unfoldable pub persist_objects :
      Dict Str CachedObject → Controller replacer cloud → Outcome (Controller replacer cloud)
  persist_objects [] s = ok s
  persist_objects (e ∷ d) s = do s1 ← persist_object e.0 e.1 s; persist_objects d s1

  -- The loop of `persist_cache_state`. The replacer, which it persists first, keeps its state, and writes a
  -- file of its own: CacheReplacer has that call.
  abbrev pub persist_cache_state : Controller replacer cloud → Outcome (Controller replacer cloud)
  persist_cache_state s = persist_objects s.cached_objects s

total-insert-clean :
    (k : Str) (o : CachedObject) (d : Dict Str CachedObject)
    → lookup str_dec k d ≡ some o
    → total (insert str_dec k (clean o) d) ≡ total d
unfolding lookup insert
total-insert-clean k o [] h = cc
total-insert-clean k o (e ∷ d) h = ground (arith, total-insert-clean k o d)

lookup_head :
    (k : Str) (o : CachedObject) (d : Dict Str CachedObject)
    → lookup str_dec k ((k, o) ∷ d) ≡ some o
unfolding lookup
lookup_head k o d = ground arith

first_clean : (o o' : CachedObject) → some (clean o) ≡ some o' → o'.dirty ≡ false
first_clean o o' h = ground arith

Agree-object :
    (o : CachedObject) (known : Bool) (f? : Option CacheFile) (stored : Option Bytes)
    → Agree known (some o) f? stored
    → (f : CacheFile) × (f? ≡ some f)
      × (known ≡ true)
      × (length f.content ≡ o.size)
      × (stored ≡ (if o.dirty then none else some f.content))
Agree-object o known none stored a = absurd a
Agree-object o known (some f) stored a = (f, refl, a.0, a.1, a.2)

module _ (replacer : Replacer) (cloud : Cloud) where
  stored_bucket :
      (k : Str) (o : CachedObject) (f : CacheFile) (s : Controller replacer cloud)
      → length f.content ≡ o.size
      → cloud.get k s.bucket ≡ (if o.dirty then none else some f.content)
      → (let b = if o.dirty then cloud.put k o.size f.content s.bucket else s.bucket in
          (cloud.get k b ≡ some f.content)
          × ((j : Str) → j ≢ k → cloud.get j b ≡ cloud.get j s.bucket))
  stored_bucket k o f s len stored = elim (Bool-cases o.dirty) [
    | inl dirty ↦
        let put = cloud.get-put_self k o.size f.content s.bucket (omega (arith, len)) in
        rw dirty (
          rw (take_all o.size f.content len) at put,
          λ j p. cloud.get-put_ne j k o.size f.content s.bucket p,
        )
    | inr c ↦ rw c (rw c at stored, λ j p. refl)
  ]

  persist_object-Valid :
      (k : Str) (o : CachedObject) (s : Controller replacer cloud) (ks : List Str) (capacity : ℕ)
      → Valid replacer cloud s ks capacity
      → lookup str_dec k s.cached_objects ≡ some o
      → (s' : Controller replacer cloud) × (persist_object replacer cloud k o s ≡ ok s')
        × Valid replacer cloud s' ks capacity
        × ((j : Str) → contents replacer cloud j s' ≡ contents replacer cloud j s)
        × (s'.cached_objects ≡ insert str_dec k (clean o) s.cached_objects)
  unfolding persist_object
  persist_object-Valid k o s ks capacity v cached =
      let (f, there, known, len, stored) = Agree-object o _ _ _ (rw cached at (v.agree k)) in
      let f' : CacheFile = record f { attributes = some (k, clean o) } in
      let (put, other) = stored_bucket k o f s len stored in
      let now = lookup-insert_self str_dec k f' s.cache_root in
      (
        record s {
          cached_objects = insert str_dec k (clean o) s.cached_objects;
          cache_root = insert str_dec k f' s.cache_root;
          bucket = if o.dirty then cloud.put k o.size f.content s.bucket else s.bucket;
        },
        rw (there, persist_object) refl,
        record {
          shown = v.shown;
          objects_nodup = insert-NodupKeys str_dec k (clean o) s.cached_objects v.objects_nodup;
          files_nodup = insert-NodupKeys str_dec k f' s.cache_root v.files_nodup;
          agree = λ j. elim (str_dec j k) [
            | yes p ↦
                rw (p, lookup-insert_self str_dec k (clean o) s.cached_objects, now)
                  (known, len, put)
            | no p ↦
                rw
                  (
                    lookup-insert_ne str_dec j k (clean o) s.cached_objects p,
                    lookup-insert_ne str_dec j k f' s.cache_root p,
                    other j p,
                  )
                  (v.agree j)
          ];
          used = v.used ∙ ap pos (sym (total-insert-clean k o s.cached_objects cached));
          limit = v.limit;
          room = omega (arith, v.room, total-insert-clean k o s.cached_objects cached);
        },
        λ j. elim (str_dec j k) [
          | yes p ↦ rw (p, now, there) refl
          | no p ↦ rw (lookup-insert_ne str_dec j k f' s.cache_root p, other j p) refl
        ],
        refl,
      )

  lookup-insert-clean :
      (j k : Str) (o : CachedObject) (d : Dict Str CachedObject)
      → (o' : CachedObject) → lookup str_dec j (insert str_dec k (clean o) d) ≡ some o'
      → (o'.dirty ≡ false) ⊎ ((lookup str_dec j d ≡ some o') × (j ≢ k))
  lookup-insert-clean j k o d o' h = elim (str_dec j k) [
    | yes p ↦ inl (first_clean o o' (sym (lookup-insert_self str_dec k (clean o) d) ∙ (rw p at h)))
    | no p ↦ inr (sym (lookup-insert_ne str_dec j k (clean o) d p) ∙ h, p)
  ]

  -- Of the keys in a state, only those still to be written are dirty.
  abbrev Pending : Dict Str CachedObject → Controller replacer cloud → Type 0
  Pending d s =
      ((j : Str) (o : CachedObject)
        → lookup str_dec j d ≡ some o
        → lookup str_dec j s.cached_objects ≡ some o)
      × ((j : Str) (o : CachedObject)
          → lookup str_dec j s.cached_objects ≡ some o
          → lookup str_dec j d ≡ none
          → o.dirty ≡ false)

  Pending-step :
      (k : Str) (o : CachedObject) (d : Dict Str CachedObject) (s s' : Controller replacer cloud)
      → lookup str_dec k d ≡ none
      → Pending ((k, o) ∷ d) s
      → s'.cached_objects ≡ insert str_dec k (clean o) s.cached_objects
      → Pending d s'
  unfolding lookup
  Pending-step k o d s s' new p now = (
    λ j o' h. elim (str_dec j k) [
      | yes q ↦ absurd (ground arith)
      | no q ↦
          rw now (lookup-insert_ne str_dec j k (clean o) s.cached_objects q)
          ∙ p.0 j o' (ground arith)
    ],
    λ j o' h gone. elim (lookup-insert-clean j k o s.cached_objects o' (rw now at h)) [
      | inl c ↦ c
      | inr (old, q) ↦ p.1 j o' old (ground arith)
    ],
  )

  persist_objects-Valid :
      (d : Dict Str CachedObject) (s : Controller replacer cloud) (ks : List Str) (capacity : ℕ)
      → Valid replacer cloud s ks capacity
      → NodupKeys str_dec d
      → Pending d s
      → (s' : Controller replacer cloud) × (persist_objects replacer cloud d s ≡ ok s')
        × Valid replacer cloud s' ks capacity
        × ((j : Str) → contents replacer cloud j s' ≡ contents replacer cloud j s)
        × Pending [] s'
  unfolding persist_objects
  persist_objects-Valid [] s ks capacity v u p = (s, refl, v, λ j. refl, p)
  persist_objects-Valid (e ∷ d) s ks capacity v u p =
      let (s1, eq, v1, same1, now) =
        persist_object-Valid e.0 e.1 s ks capacity v (p.0 e.0 e.1 (lookup_head e.0 e.1 d)) in
      let (s', eq', v', same, done) =
        persist_objects-Valid d s1 ks capacity v1 u.1 (Pending-step e.0 e.1 d s s1 u.0 p now) in
      (
        s',
        >>=-eq_of_ok (persist_object replacer cloud e.0 e.1 s) (persist_objects replacer cloud d) eq
            ∙ eq',
        v',
        λ j. same j ∙ same1 j,
        done,
      )

  Agree-clean :
      (known : Bool) (o? : Option CachedObject) (f? : Option CacheFile) (stored : Option Bytes)
      → Agree known o? f? stored
      → ((o : CachedObject) → o? ≡ some o → o.dirty ≡ false)
      → stored ≡ visible f? stored
  Agree-clean known none none stored a c = refl
  Agree-clean known none (some f) stored a c = absurd a
  Agree-clean known (some o) none stored a c = absurd a
  Agree-clean known (some o) (some f) stored a c = ground (arith, c o)

  -- On a valid state, `persist_cache_state` succeeds, keeps the invariant and the content of every
  -- object, and leaves every content in the cloud: a lost cache loses nothing.
  pub persist_cache_state-Valid :
      (s : Controller replacer cloud) (ks : List Str) (capacity : ℕ)
      → Valid replacer cloud s ks capacity
      → (s' : Controller replacer cloud) × (persist_cache_state replacer cloud s ≡ ok s')
        × Valid replacer cloud s' ks capacity
        × ((j : Str) → contents replacer cloud j s' ≡ contents replacer cloud j s)
        × ((j : Str) → cloud.get j s'.bucket ≡ contents replacer cloud j s)
  unfolding lookup
  persist_cache_state-Valid s ks capacity v =
      let (s', eq, v', same, done) =
        persist_objects-Valid s.cached_objects s ks capacity v v.objects_nodup
          ((λ j o h. h), λ j o h gone. absurd (ground arith)) in
      (s', eq, v', same, λ j. Agree-clean _ _ _ _ (v'.agree j) (λ o h. done.1 j o h refl) ∙ same j)
