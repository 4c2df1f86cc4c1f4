-- ===== src/Replacer.antt =====
-- The abstract class `CacheReplacer` of cloudfs/cache_replacer.h: what `BufferFileController` calls,
-- with the contract of a replacer as laws over the list of keys, the most recently used first.
use cloud_file_system.Base.{◌≡◌, Bool, true, false, List, [], ◌∷◌, ◌++◌}
use cloud_file_system.Base.Outcome.{Outcome, ok, runtime_error}
use cloud_file_system.Bytes.{Str, str_dec}

unfoldable pub has : Str → List Str → Bool
has k [] = false
has k (j ∷ ks) = elim (str_dec k j) [ yes _ ↦ true | no _ ↦ has k ks ]

-- The list without the first occurrence of a key.
unfoldable pub drop_key : Str → List Str → List Str
drop_key k [] = []
drop_key k (j ∷ ks) = elim (str_dec k j) [ yes _ ↦ ks | no _ ↦ j ∷ drop_key k ks ]

abbrev pub DistinctKeys : List Str → Type 0
DistinctKeys [] = Unit
DistinctKeys (k ∷ ks) = (has k ks ≡ false) × DistinctKeys ks

pub record Replacer : Type 1 where
  pub State : Type 0
  pub access : Str → State → Outcome State
  pub evict : State → Outcome (Str × State)
  pub remove : Str → State → Outcome State
  -- The state remembers exactly these keys, the most recently used first.
  pub Shows : State → List Str → Type 0
  pub Shows-DistinctKeys : (s : State) (ks : List Str) → Shows s ks → DistinctKeys ks
  pub access-Shows :
      (k : Str) (s : State) (ks : List Str)
      → Shows s ks
      → (s' : State) × (access k s ≡ ok s') × Shows s' (k ∷ drop_key k ks)
  pub evict-Shows :
      (k : Str) (s : State) (ks : List Str)
      → Shows s (ks ++ (k ∷ []))
      → (s' : State) × (evict s ≡ ok (k, s')) × Shows s' ks
  pub evict_empty : (s : State) → Shows s [] → evict s ≡ runtime_error
  pub remove-Shows :
      (k : Str) (s : State) (ks : List Str)
      → Shows s ks
      → has k ks ≡ true
      → (s' : State) × (remove k s ≡ ok s') × Shows s' (drop_key k ks)
  pub remove_missing :
      (k : Str) (s : State) (ks : List Str)
      → Shows s ks
      → has k ks ≡ false
      → remove k s ≡ runtime_error
