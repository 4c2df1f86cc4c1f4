-- ===== src/Base/Dict.antt =====
-- `std::unordered_map` as an association list. The order of the list stands for the order of an
-- iteration, which C++ leaves open.
use mathlib.Core.Path.{◌≡◌, refl}
use mathlib.Core.Logic.{◌≢◌}
use mathlib.Core.Option.{Option, none, some}
use Prim.Native.Nat.{◌+◌}
use mathlib.Core.List.{List, [], ◌∷◌, ◌++◌}
use cloud_file_system.Base.Lists.{length}
use native.Mathlib.Omega.{arith}

abbrev pub Dict {ℓ κ} : Type ℓ → Type κ → Type (ℓ ⊔ κ)
Dict K V = List (K × V)

abbrev pub keys {ℓ κ} : {K : Type ℓ} {V : Type κ} → Dict K V → List K
keys [] = []
keys (e ∷ d) = e.0 ∷ keys d

module _ {ℓ κ} {K : Type ℓ} {V : Type κ} (dec : Discrete K) where
  -- `m.find(k)`
  unfoldable pub lookup : K → Dict K V → Option V
  lookup k [] = none
  lookup k (e ∷ d) = elim (dec k e.0) [ yes _ ↦ some e.1 | no _ ↦ lookup k d ]

  -- `m[k] = v`
  unfoldable pub insert : K → V → Dict K V → Dict K V
  insert k v [] = (k, v) ∷ []
  insert k v (e ∷ d) = elim (dec k e.0) [ yes _ ↦ (k, v) ∷ d | no _ ↦ e ∷ insert k v d ]

  -- `m.erase(k)`
  unfoldable pub erase : K → Dict K V → Dict K V
  erase k [] = []
  erase k (e ∷ d) = elim (dec k e.0) [ yes _ ↦ d | no _ ↦ e ∷ erase k d ]

  -- A key is listed once.
  abbrev pub NodupKeys : Dict K V → Type κ
  NodupKeys [] = Unit
  NodupKeys (e ∷ d) = (lookup e.0 d ≡ none) × NodupKeys d

  pub lookup-insert_self : (k : K) (v : V) (d : Dict K V) → lookup k (insert k v d) ≡ some v
  unfolding lookup insert
  lookup-insert_self key new [] = ground arith
  lookup-insert_self key new (first ∷ rest) = ground (arith, lookup-insert_self key new rest)

  pub lookup-insert_ne :
      (other k : K) (v : V) (d : Dict K V)
      → other ≢ k
      → lookup other (insert k v d) ≡ lookup other d
  unfolding lookup insert
  lookup-insert_ne other key new [] differ = ground arith
  lookup-insert_ne other key new (first ∷ rest) differ =
      ground (arith, lookup-insert_ne other key new rest differ)

  pub lookup-erase_ne :
      (other k : K) (d : Dict K V) → other ≢ k → lookup other (erase k d) ≡ lookup other d
  unfolding lookup erase
  lookup-erase_ne other key [] differ = refl
  lookup-erase_ne other key (first ∷ rest) differ =
      ground (arith, lookup-erase_ne other key rest differ)

  pub lookup-erase_self : (k : K) (d : Dict K V) → NodupKeys d → lookup k (erase k d) ≡ none
  unfolding lookup erase
  lookup-erase_self k [] h = refl
  lookup-erase_self k (e ∷ d) h = ground (arith, lookup-erase_self k d h.1)

  pub insert-NodupKeys : (k : K) (v : V) (d : Dict K V) → NodupKeys d → NodupKeys (insert k v d)
  unfolding lookup insert
  insert-NodupKeys k v [] h = (refl, tt)
  insert-NodupKeys k v (e ∷ d) h =
      ground (arith, insert-NodupKeys k v d h.1, lookup-insert_ne e.0 k v d)

  pub erase-NodupKeys : (k : K) (d : Dict K V) → NodupKeys d → NodupKeys (erase k d)
  unfolding lookup erase
  erase-NodupKeys k [] h = tt
  erase-NodupKeys k (e ∷ d) h = ground (arith, erase-NodupKeys k d h.1, lookup-erase_ne e.0 k d)

  -- A second write to a key replaces the first.
  pub insert-insert : (k : K) (v w : V) (d : Dict K V) → insert k w (insert k v d) ≡ insert k w d
  unfolding insert
  insert-insert k v w [] = ground arith
  insert-insert k v w (e ∷ d) = ground (arith, insert-insert k v w d)

  pub insert_same : (k : K) (v : V) (d : Dict K V) → lookup k d ≡ some v → insert k v d ≡ d
  unfolding lookup insert
  insert_same k v [] h = cc
  insert_same k v (e ∷ d) h = ground (arith, insert_same k v d)

  pub erase-insert_new :
      (k : K) (v : V) (d : Dict K V) → lookup k d ≡ none → erase k (insert k v d) ≡ d
  unfolding lookup insert erase
  erase-insert_new k v [] h = ground arith
  erase-insert_new k v (e ∷ d) h = ground (arith, erase-insert_new k v d)

  pub length-erase :
      (k : K) (v : V) (d : Dict K V) → lookup k d ≡ some v → length (erase k d) + 1 ≡ length d
  unfolding lookup erase
  length-erase k v [] h = cc
  length-erase k v (e ∷ d) h = ground (arith, length-erase k v d)

  pub length-insert_new :
      (k : K) (v : V) (d : Dict K V) → lookup k d ≡ none → length (insert k v d) ≡ length d + 1
  unfolding lookup insert
  length-insert_new k v [] h = omega arith
  length-insert_new k v (e ∷ d) h = ground (arith, length-insert_new k v d)

  -- Where the entry of a key stands, and what `erase` leaves.
  pub lookup_split :
      (k : K) (v : V) (d : Dict K V)
      → lookup k d ≡ some v
      → (xs : Dict K V) × (ys : Dict K V) × (d ≡ xs ++ ((k, v) ∷ ys)) × (erase k d ≡ xs ++ ys)
  unfolding lookup erase
  lookup_split k v [] h = cc
  lookup_split k v (e ∷ d) h = elim (dec k e.0) [
    | yes p ↦ ([], d, ground arith, ground arith)
    | no p ↦
        let (xs, ys, there, gone) = lookup_split k v d (ground arith) in
        (e ∷ xs, ys, ground arith, ground arith)
  ]

  -- Maps that find the same still do when a key is erased from both.
  pub lookup-erase_congr :
      (j k : K) (d d' : Dict K V)
      → NodupKeys d
      → NodupKeys d'
      → lookup j d ≡ lookup j d'
      → lookup j (erase k d) ≡ lookup j (erase k d')
  lookup-erase_congr j k d d' u u' h = elim (dec j k) [
    | yes p ↦ rw (p, lookup-erase_self k d u, lookup-erase_self k d' u')
    | no p ↦ rw (lookup-erase_ne j k d p, lookup-erase_ne j k d' p) h
  ]

  lookup_left : (k : K) (d d' : Dict K V) → lookup k (d ++ d') ≡ none → lookup k d ≡ none
  unfolding lookup
  lookup_left k [] d' h = refl
  lookup_left k (e ∷ d) d' h = ground (arith, lookup_left k d d')

  pub lookup_snoc :
      (k : K) (v : V) (d : Dict K V)
      → NodupKeys (d ++ ((k, v) ∷ []))
      → (lookup k (d ++ ((k, v) ∷ [])) ≡ some v) × (erase k (d ++ ((k, v) ∷ [])) ≡ d) × NodupKeys d
  unfolding lookup erase
  lookup_snoc k v [] u = (ground arith, ground arith, tt)
  lookup_snoc k v (e ∷ d) u =
      let r = lookup_snoc k v d u.1 in
      (ground arith, ground arith, (lookup_left e.0 d ((k, v) ∷ []) u.0, r.2))

  pub erase_absent : (k : K) (d : Dict K V) → lookup k d ≡ none → erase k d ≡ d
  unfolding lookup erase
  erase_absent k [] h = refl
  erase_absent k (e ∷ d) h = ground (arith, erase_absent k d)

  -- The keys before an entry are other keys.
  lookup_hit : (k : K) (v : V) (xs ys : Dict K V) → lookup k (xs ++ ((k, v) ∷ ys)) ≢ none
  unfolding lookup
  lookup_hit k v [] ys h = ground arith
  lookup_hit k v (e ∷ xs) ys h = ground (arith, lookup_hit k v xs ys)

  pub lookup_before :
      (k : K) (v : V) (xs ys : Dict K V) → NodupKeys (xs ++ ((k, v) ∷ ys)) → lookup k xs ≡ none
  unfolding lookup
  lookup_before k v [] ys u = refl
  lookup_before k v (e ∷ xs) ys u =
      ground (arith, lookup_before k v xs ys u.1, lookup_hit k v xs ys)

  pub insert_new :
      (k : K) (v : V) (d : Dict K V) → lookup k d ≡ none → insert k v d ≡ d ++ ((k, v) ∷ [])
  unfolding lookup insert
  insert_new k v [] h = refl
  insert_new k v (e ∷ d) h = ground (arith, insert_new k v d)

  pub lookup_at :
      (k : K) (v : V) (xs ys : Dict K V)
      → lookup k xs ≡ none
      → lookup k (xs ++ ((k, v) ∷ ys)) ≡ some v
  unfolding lookup
  lookup_at k v [] ys h = ground arith
  lookup_at k v (e ∷ xs) ys h = ground (arith, lookup_at k v xs ys)

  pub insert_at :
      (k : K) (v w : V) (xs ys : Dict K V)
      → lookup k xs ≡ none
      → insert k w (xs ++ ((k, v) ∷ ys)) ≡ xs ++ ((k, w) ∷ ys)
  unfolding lookup insert
  insert_at k v w [] ys h = ground arith
  insert_at k v w (e ∷ xs) ys h = ground (arith, insert_at k v w xs ys)

  pub lookup-erase_absent :
      (j k : K) (d : Dict K V) → lookup j d ≡ none → lookup j (erase k d) ≡ none
  unfolding lookup erase
  lookup-erase_absent j k [] h = refl
  lookup-erase_absent j k (e ∷ d) h = ground (arith, lookup-erase_absent j k d)
