-- ===== src/Snapshot/Guards.antt =====
-- When the calls on snapshots are refused.
use cloud_file_system.Base.{
  ℕ, ◌≤◌, ◌≡◌, refl, ◌∙◌, false, not, ◌&&◌, ◌||◌, List, [], ◌∷◌, ◌++◌, length, leb, ltb,
  if◌then◌else◌, arith,
}
use cloud_file_system.Base.Outcome.{ok, failure}
use cloud_file_system.Snapshot.Registry.{Registry, Lists}
use cloud_file_system.Objects.{Objects}
use cloud_file_system.Snapshot.Calls.{
  Environment, contains, without, max_num_snapshots, check_create, check_delete, check_install,
  check_restore,
}

-- Every timestamp is listed once.
abbrev pub Distinct : List ℕ → Type 0
Distinct [] = Unit
Distinct (t ∷ list) = (contains t list ≡ false) × Distinct list

pub contains-append :
    (ts : ℕ) (xs ys : List ℕ) → contains ts (xs ++ ys) ≡ contains ts xs || contains ts ys
unfolding contains
contains-append ts [] ys = refl
contains-append ts (x ∷ xs) ys = ground (arith, contains-append ts xs ys)

pub Distinct-snoc :
    (ts : ℕ) (list : List ℕ)
    → contains ts list ≡ false
    → Distinct list
    → Distinct (list ++ (ts ∷ []))
unfolding contains
Distinct-snoc ts [] new d = (refl, tt)
Distinct-snoc ts (t ∷ list) new d = (
  contains-append t list (ts ∷ []) ∙ ground (arith, d.0),
  Distinct-snoc ts list (ground arith) d.1,
)

pub without_absent : (ts : ℕ) (list : List ℕ) → contains ts list ≡ false → without ts list ≡ list
unfolding contains without
without_absent ts [] h = refl
without_absent ts (t ∷ list) h = ground (arith, without_absent ts list)

pub without-snoc :
    (ts : ℕ) (list : List ℕ) → contains ts list ≡ false → without ts (list ++ (ts ∷ [])) ≡ list
unfolding contains without
without-snoc ts [] h = ground arith
without-snoc ts (t ∷ list) h = ground (arith, without-snoc ts list)

pub contains-without :
    (t ts : ℕ) (list : List ℕ) → contains t list ≡ false → contains t (without ts list) ≡ false
unfolding contains without
contains-without t ts [] h = refl
contains-without t ts (u ∷ list) h = ground (arith, contains-without t ts list)

pub without-Distinct :
    (ts : ℕ) (list : List ℕ)
    → Distinct list
    → Distinct (without ts list)
      × (contains ts (without ts list) ≡ false)
      × (length (without ts list) ≤ length list)
unfolding contains without
without-Distinct ts [] d = (tt, refl, omega arith)
without-Distinct ts (t ∷ list) d =
    ground (arith, without-Distinct ts list d.1, contains-without t ts list d.0)

module _ (env : Environment) (store : Objects) where
  -- With the lists in the attributes, the guards of `create_snapshot` refuse exactly if there are 8 snapshots or
  -- more, or one is installed, or the timestamp is taken.
  pub check_create_lem :
      (ts : ℕ) (r : Registry) (list installed : List ℕ)
      → Lists r list installed
      → check_create env store ts r ≡ (
          if leb max_num_snapshots (length list) || (ltb 0 (length installed) || contains ts list)
          then failure
          else ok list)
  unfolding check_create
  check_create_lem ts r list installed h = rw (h.0, h.1, h.2, check_create) (ground arith)

  -- With the lists in the attributes, the guards of `delete_snapshot` pass exactly for a snapshot that is
  -- listed and not installed.
  pub check_delete_lem :
      (ts : ℕ) (r : Registry) (list installed : List ℕ)
      → Lists r list installed
      → check_delete env store ts r
        ≡ (if contains ts list && not (contains ts installed) then ok list else failure)
  unfolding check_delete
  check_delete_lem ts r list installed h = rw (h.1, h.3, check_delete) (ground arith)

  -- With the lists in the attributes, the guards of `install_snapshot` pass exactly for a snapshot that is
  -- listed and not installed, and give the list of the installed ones.
  pub check_install_lem :
      (ts : ℕ) (r : Registry) (list installed : List ℕ)
      → Lists r list installed
      → check_install env store ts r
        ≡ (if contains ts list && not (contains ts installed) then ok installed else failure)
  unfolding check_install
  check_install_lem ts r list installed h = rw (h.1, h.3, check_install) (ground arith)

  pub check_restore_lem :
      (ts : ℕ) (r : Registry) (list installed : List ℕ)
      → Lists r list installed
      → check_restore env store ts r ≡ (if contains ts list then ok list else failure)
  unfolding check_restore
  check_restore_lem ts r list installed h = rw (h.1, check_restore) refl
