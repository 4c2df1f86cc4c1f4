-- ===== src/Snapshot/Registry.antt =====
-- The lists of snapshots in the extended attributes of `.snapshot`: a count, and an item for every
-- index. The names that end in an index are taken for different from each other and from the rest.
-- A count stays below 2^31.
use cloud_file_system.Base.{
  ℕ, zero, suc, ◌<◌, ◌≡◌, refl, ap, ◌∙◌, List, [], ◌∷◌, Option, none, some, length, ◌==◌,
  if◌then◌else◌, arith,
}
use cloud_file_system.Base.Outcome.{Outcome, ok, failure, ◌>>=◌}

-- The attributes `<prefix>count` and `<prefix><i>`.
pub record Attributes : Type 0 where
  pub count : Option ℕ
  pub items : ℕ → Option ℕ

-- `user.cloudfs.snapshot_*` and `user.cloudfs.snapshot_installed_*`.
pub record Registry : Type 0 where
  pub snapshots : Attributes
  pub installed : Attributes

abbrev pub get_count : Attributes → ℕ
get_count a = elim a.count [ none ↦ 0 | some n ↦ n ]

abbrev pub set_item : ℕ → ℕ → Attributes → Attributes
set_item i ts a = record a { items = λ j. if j == i then some ts else a.items j }

-- The loop from index `i` over `n` more items.
unfoldable pub get_items : ℕ → ℕ → Attributes → Outcome (List ℕ)
get_items zero i a = ok []
get_items (suc n) i a = elim (a.items i) [
  | none ↦ failure
  | some ts ↦ do rest ← get_items n (suc i) a; ok (ts ∷ rest)
]

unfoldable pub set_items : List ℕ → ℕ → Attributes → Attributes
set_items [] i a = a
set_items (ts ∷ rest) i a = set_items rest (suc i) (set_item i ts a)

unfoldable pub get_snapshot_count : Registry → ℕ
get_snapshot_count r = get_count r.snapshots

unfoldable pub set_snapshot_count : ℕ → Registry → Registry
set_snapshot_count n r = record r { snapshots = record (r.snapshots) { count = some n } }

unfoldable pub get_snapshot_list : Registry → Outcome (List ℕ)
get_snapshot_list r = get_items (get_snapshot_count r) 0 r.snapshots

unfoldable pub set_snapshot_list : List ℕ → Registry → Registry
set_snapshot_list list r = record r { snapshots = set_items list 0 r.snapshots }

unfoldable pub get_installed_snapshot_count : Registry → ℕ
get_installed_snapshot_count r = get_count r.installed

unfoldable pub set_installed_snapshot_count : ℕ → Registry → Registry
set_installed_snapshot_count n r = record r { installed = record (r.installed) { count = some n } }

unfoldable pub get_installed_snapshot_list : Registry → Outcome (List ℕ)
get_installed_snapshot_list r = get_items (get_installed_snapshot_count r) 0 r.installed

unfoldable pub set_installed_snapshot_list : List ℕ → Registry → Registry
set_installed_snapshot_list list r = record r { installed = set_items list 0 r.installed }

set_items-count : (list : List ℕ) (i : ℕ) (a : Attributes) → (set_items list i a).count ≡ a.count
unfolding set_items
set_items-count [] i a = refl
set_items-count (ts ∷ rest) i a = set_items-count rest (suc i) (set_item i ts a)

set_items_below :
    (list : List ℕ) (i j : ℕ) (a : Attributes) → j < i → (set_items list i a).items j ≡ a.items j
unfolding set_items
set_items_below [] i j a h = refl
set_items_below (ts ∷ rest) i j a h =
    set_items_below rest (suc i) j (set_item i ts a) (omega (arith, h)) ∙ ground arith

-- What `set_items` writes `get_items` reads.
get_items-set_items :
    (list : List ℕ) (i : ℕ) (a : Attributes)
    → get_items (length list) i (set_items list i a) ≡ ok list
unfolding get_items set_items
get_items-set_items [] i a = refl
get_items-set_items (ts ∷ rest) i a =
    let b = set_item i ts a in
    let here : (set_items rest (suc i) b).items i ≡ some ts =
      set_items_below rest (suc i) i b (omega arith) ∙ ground arith in
    rw (here, get_items-set_items rest (suc i) b, get_items) refl

stored :
    (list : List ℕ) (a : Attributes)
    → a.count ≡ some (length list)
    → (let b = set_items list 0 a in
        (get_count b ≡ length list) × (get_items (get_count b) 0 b ≡ ok list))
stored list a h =
    let b = set_items list 0 a in
    let same : get_count b ≡ length list = rw (set_items-count list 0 a, h, get_count) refl in
    (same, ap (λ n. get_items n 0 b) same ∙ get_items-set_items list 0 a)

-- The registry with these two lists.
abbrev pub Lists : Registry → List ℕ → List ℕ → Type 0
Lists r list installed =
    (get_snapshot_count r ≡ length list)
    × (get_snapshot_list r ≡ ok list)
    × (get_installed_snapshot_count r ≡ length installed)
    × (get_installed_snapshot_list r ≡ ok installed)

-- Where the attributes hold two lists, a new list of snapshots replaces the old one, however long that was, and leaves the list of the
-- installed ones.
pub set_snapshot_list-Lists :
    (r : Registry) (old list installed : List ℕ)
    → Lists r old installed
    → Lists (set_snapshot_list list (set_snapshot_count (length list) r)) list installed
unfolding get_snapshot_count set_snapshot_count get_snapshot_list set_snapshot_list
    get_installed_snapshot_count get_installed_snapshot_list
set_snapshot_list-Lists r old list installed h =
    let a : Attributes = record (r.snapshots) { count = some (length list) } in
    let s = stored list a refl in (s.0, s.1, h.2, h.3)

pub set_installed_snapshot_list-Lists :
    (r : Registry) (list old installed : List ℕ)
    → Lists r list old
    → Lists
        (set_installed_snapshot_list installed (set_installed_snapshot_count (length installed) r))
        list
        installed
unfolding get_snapshot_count get_snapshot_list set_installed_snapshot_count
    set_installed_snapshot_list get_installed_snapshot_count get_installed_snapshot_list
set_installed_snapshot_list-Lists r list old installed h =
    let a : Attributes = record (r.installed) { count = some (length installed) } in
    let s = stored installed a refl in (h.0, h.1, s.0, s.1)
