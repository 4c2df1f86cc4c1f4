-- ===== src/BufferFile/Transfer.antt =====
-- What the use of a cached object and a new object make of the invariant.
use cloud_file_system.Base.{
  ℕ, ◌+◌, ◌≤◌, ◌≡◌, ◌≢◌, refl, sym, ◌∙◌, ap, Bool, true, false, List, ◌∷◌, Option, none, some,
  length, arith, if◌then◌else◌,
}
use cloud_file_system.Base.Dict.{
  lookup, insert, lookup-insert_self, lookup-insert_ne, insert-NodupKeys, lookup-erase_self,
  lookup-erase_ne, erase-NodupKeys, erase,
}
use cloud_file_system.Base.Int.{pos, ◌+ℤ◌, ◌-ℤ◌, +ℤ_parts}
use cloud_file_system.Base.Outcome.{ok, >>=-eq_of_ok}
use cloud_file_system.Bytes.{Bytes, Str, str_dec}
use cloud_file_system.Replacer.{Replacer, drop_key}
use cloud_file_system.Cloud.{Cloud}
use cloud_file_system.BufferFile.{
  CachedObject, CacheFile, Controller, file_with, set_cached, set_content, access,
}
use cloud_file_system.BufferFile.Room.{minus_lem}
use cloud_file_system.BufferFile.Valid.{
  total-erase, has-drop_key_self, has-drop_key_ne, Agree, Valid, contents, total, total-insert,
  has-first, has-first_self,
}

plus_lem : (n a b : ℕ) → n ≡ a + b → pos a +ℤ pos b ≡ pos n
plus_lem n a b h = ground (arith, +ℤ_parts (pos a) (pos b))

pub Agree-absent :
    (known : Bool) (f? : Option CacheFile) (stored : Option Bytes)
    → Agree known none f? stored
    → (known ≡ false) × (f? ≡ none)
Agree-absent known none stored a = (a, refl)
Agree-absent known (some f) stored a = absurd a

Agree-present :
    (known : Bool) (o : CachedObject) (f? : Option CacheFile) (stored : Option Bytes)
    → Agree known (some o) f? stored
    → known ≡ true
Agree-present known o none stored a = absurd a
Agree-present known o (some f) stored a = a.0

pub content_file_with : (bs : Bytes) (f? : Option CacheFile) → (file_with bs f?).content ≡ bs
content_file_with bs none = refl
content_file_with bs (some f) = refl

module _ (replacer : Replacer) (cloud : Cloud) where
  -- The use of a cached key changes the order of the replacer only.
  pub access-Valid :
      (k : Str) (o : CachedObject) (s : Controller replacer cloud) (ks : List Str) (capacity : ℕ)
      → Valid replacer cloud s ks capacity
      → lookup str_dec k s.cached_objects ≡ some o
      → (s' : Controller replacer cloud) × (access replacer cloud k s ≡ ok s')
        × Valid replacer cloud s' (k ∷ drop_key k ks) capacity
        × ((j : Str) → contents replacer cloud j s' ≡ contents replacer cloud j s)
  unfolding access
  access-Valid k o s ks capacity v cached =
      let (r, eq, shown) = replacer.access-Shows k s.cache_replacer ks v.shown in
      let here = rw cached at (v.agree k) in
      let known = Agree-present _ o _ _ here in
      (
        record s { cache_replacer = r },
        >>=-eq_of_ok (replacer.access k s.cache_replacer) _ eq,
        record {
          shown = shown;
          objects_nodup = v.objects_nodup;
          files_nodup = v.files_nodup;
          agree = λ j. elim (str_dec j k) [
            | yes p ↦ rw (p, has-first_self k (drop_key k ks), sym known) (v.agree k)
            | no p ↦ rw (has-first j k ks p) (v.agree j)
          ];
          used = v.used;
          limit = v.limit;
          room = v.room;
        },
        λ j. refl,
      )

  -- A new object in the cache, with its file.
  pub admit-Valid :
      (k : Str) (o : CachedObject) (bs : Bytes) (s : Controller replacer cloud) (ks : List Str)
      (capacity : ℕ)
      → Valid replacer cloud s ks capacity
      → lookup str_dec k s.cached_objects ≡ none
      → length bs ≡ o.size
      → total s.cached_objects + o.size ≤ capacity
      → cloud.get k s.bucket ≡ (if o.dirty then none else some bs)
      → (s' : Controller replacer cloud) × (access replacer cloud k
            (set_cached replacer cloud k o (set_content replacer cloud k bs s))
          ≡ ok s')
        × Valid replacer cloud s' (k ∷ drop_key k ks) capacity
        × (contents replacer cloud k s' ≡ some bs)
        × ((j : Str) → j ≢ k → contents replacer cloud j s' ≡ contents replacer cloud j s)
  unfolding access
  admit-Valid k o bs s ks capacity v new len room stored =
      let (r, eq, shown) = replacer.access-Shows k s.cache_replacer ks v.shown in
      let f = file_with bs (lookup str_dec k s.cache_root) in
      let content : f.content ≡ bs = content_file_with bs (lookup str_dec k s.cache_root) in
      let there = lookup-insert_self str_dec k f s.cache_root in
      let more = total-insert k o s.cached_objects new in
      (
        record s {
          cached_objects = insert str_dec k o s.cached_objects;
          cache_used = s.cache_used +ℤ pos o.size;
          cache_root = insert str_dec k f s.cache_root;
          cache_replacer = r;
        },
        >>=-eq_of_ok (replacer.access k s.cache_replacer) _ eq,
        record {
          shown = shown;
          objects_nodup = insert-NodupKeys str_dec k o s.cached_objects v.objects_nodup;
          files_nodup = insert-NodupKeys str_dec k f s.cache_root v.files_nodup;
          agree = λ j. elim (str_dec j k) [
            | yes p ↦
                rw (p, lookup-insert_self str_dec k o s.cached_objects, there)
                  (has-first_self k (drop_key k ks), ap length content ∙ len, rw content stored)
            | no p ↦
                rw
                  (
                    has-first j k ks p,
                    lookup-insert_ne str_dec j k o s.cached_objects p,
                    lookup-insert_ne str_dec j k f s.cache_root p,
                  )
                  (v.agree j)
          ];
          used = rw v.used (plus_lem _ (total s.cached_objects) o.size more);
          limit = v.limit;
          room = omega (arith, more, room);
        },
        rw there (ap some content),
        λ j p. rw (lookup-insert_ne str_dec j k f s.cache_root p) refl,
      )

  -- A change of the bucket at a key that is not cached.
  pub bucket-Valid :
      (k : Str) (b : cloud.State) (s : Controller replacer cloud) (ks : List Str) (capacity : ℕ)
      → Valid replacer cloud s ks capacity
      → lookup str_dec k s.cached_objects ≡ none
      → ((j : Str) → j ≢ k → cloud.get j b ≡ cloud.get j s.bucket)
      → (let s' = record s { bucket = b } in
          Valid replacer cloud s' ks capacity
          × (contents replacer cloud k s' ≡ cloud.get k b)
          × ((j : Str) → j ≢ k → contents replacer cloud j s' ≡ contents replacer cloud j s))
  bucket-Valid k b s ks capacity v new other =
      let (unknown, no_file) = Agree-absent _ _ _ (rw new at (v.agree k)) in
      (
        record {
          shown = v.shown;
          objects_nodup = v.objects_nodup;
          files_nodup = v.files_nodup;
          used = v.used;
          limit = v.limit;
          room = v.room;
          agree = λ j. elim (str_dec j k) [
            | yes p ↦ rw (p, new, no_file) unknown
            | no p ↦ rw (other j p) (v.agree j)
          ];
        },
        rw no_file refl,
        λ j p. rw (other j p) refl,
      )

  -- A cached object that is taken out, whatever becomes of it in the bucket.
  pub drop-Valid :
      (k : Str) (o : CachedObject) (r : replacer.State) (b : cloud.State)
      (s : Controller replacer cloud) (ks : List Str) (capacity : ℕ)
      → Valid replacer cloud s ks capacity
      → lookup str_dec k s.cached_objects ≡ some o
      → replacer.Shows r (drop_key k ks)
      → ((j : Str) → j ≢ k → cloud.get j b ≡ cloud.get j s.bucket)
      → (let s' : Controller replacer cloud = record s {
        cached_objects = erase str_dec k s.cached_objects;
        cache_used = s.cache_used -ℤ pos o.size;
        cache_root = erase str_dec k s.cache_root;
        cache_replacer = r;
        bucket = b;
      } in
          Valid replacer cloud s' (drop_key k ks) capacity
          × (contents replacer cloud k s' ≡ cloud.get k b)
          × ((j : Str) → j ≢ k → contents replacer cloud j s' ≡ contents replacer cloud j s))
  drop-Valid k o r b s ks capacity v cached shown other =
      let gone = lookup-erase_self str_dec k s.cached_objects v.objects_nodup in
      let gone' = lookup-erase_self str_dec k s.cache_root v.files_nodup in
      let unknown =
        has-drop_key_self k ks (replacer.Shows-DistinctKeys s.cache_replacer ks v.shown) in
      let less = total-erase k o s.cached_objects cached in
      (
        record {
          shown = shown;
          objects_nodup = erase-NodupKeys str_dec k s.cached_objects v.objects_nodup;
          files_nodup = erase-NodupKeys str_dec k s.cache_root v.files_nodup;
          agree = λ j. elim (str_dec j k) [
            | yes p ↦ rw (p, gone, gone') unknown
            | no p ↦
                rw
                  (
                    lookup-erase_ne str_dec j k s.cached_objects p,
                    lookup-erase_ne str_dec j k s.cache_root p,
                    other j p,
                    has-drop_key_ne j k ks p,
                  )
                  (v.agree j)
          ];
          used = rw v.used (minus_lem (total s.cached_objects) _ o.size less);
          limit = v.limit;
          room = omega (arith, v.room, less);
        },
        rw gone' refl,
        λ j p. rw (lookup-erase_ne str_dec j k s.cache_root p, other j p) refl,
      )
