-- ===== src/Snapshot/Sorted.antt =====
-- `std::sort` on the list of the snapshots, and the front of it up to a timestamp.
use cloud_file_system.Base.{
  ℕ, ◌≤◌, ◌≡◌, refl, ap, ◌∙◌, inl, inr, true, false, not, ◌&&◌, List, [], ◌∷◌, length, leb, arith,
  Bool-cases,
}
use cloud_file_system.Snapshot.Calls.{contains, insert_sorted, sort, split_at}
use cloud_file_system.Snapshot.Guards.{Distinct}

-- No timestamp of a list is less than this one.
abbrev pub AtLeast : ℕ → List ℕ → Type 0
AtLeast t [] = Unit
AtLeast t (u ∷ list) = (t ≤ u) × AtLeast t list

abbrev pub Sorted : List ℕ → Type 0
Sorted [] = Unit
Sorted (t ∷ list) = AtLeast t list × Sorted list

AtLeast-trans : (s t : ℕ) (list : List ℕ) → s ≤ t → AtLeast t list → AtLeast s list
AtLeast-trans s t [] h all = tt
AtLeast-trans s t (u ∷ list) h all = (omega (arith, h, all.0), AtLeast-trans s t list h all.1)

AtLeast-contains : (s t : ℕ) (list : List ℕ) → AtLeast s list → contains t list ≡ true → s ≤ t
unfolding contains
AtLeast-contains s t [] all h = ground (arith, h)
AtLeast-contains s t (u ∷ list) all h = ground (arith, h, all.0, AtLeast-contains s t list all.1)

insert_sorted-AtLeast :
    (s t : ℕ) (list : List ℕ) → s ≤ t → AtLeast s list → AtLeast s (insert_sorted t list)
unfolding insert_sorted
insert_sorted-AtLeast s t [] h all = (h, tt)
insert_sorted-AtLeast s t (u ∷ list) h all = elim (Bool-cases (leb t u)) [
  | inl first ↦ rw first (h, all)
  | inr later ↦ rw later (all.0, insert_sorted-AtLeast s t list h all.1)
]

insert_sorted-Sorted : (t : ℕ) (list : List ℕ) → Sorted list → Sorted (insert_sorted t list)
unfolding insert_sorted
insert_sorted-Sorted t [] h = (tt, tt)
insert_sorted-Sorted t (u ∷ list) h = elim (Bool-cases (leb t u)) [
  | inl first ↦
      let low : t ≤ u = ground (arith, first) in rw first ((low, AtLeast-trans t u list low h.0), h)
  | inr later ↦
      rw later (
        insert_sorted-AtLeast u t list (ground (arith, later)) h.0,
        insert_sorted-Sorted t list h.1,
      )
]

pub sort-Sorted : (list : List ℕ) → Sorted (sort list)
unfolding sort
sort-Sorted [] = tt
sort-Sorted (t ∷ list) = insert_sorted-Sorted t (sort list) (sort-Sorted list)

contains-insert_sorted :
    (t u : ℕ) (list : List ℕ) → contains t (insert_sorted u list) ≡ contains t (u ∷ list)
unfolding contains insert_sorted
contains-insert_sorted t u [] = refl
contains-insert_sorted t u (v ∷ list) = ground (arith, contains-insert_sorted t u list)

pub contains-sort : (t : ℕ) (list : List ℕ) → contains t (sort list) ≡ contains t list
unfolding contains sort
contains-sort t [] = refl
contains-sort t (u ∷ list) =
    contains-insert_sorted t u (sort list) ∙ ground (arith, contains-sort t list)

length-insert_sorted : (t : ℕ) (list : List ℕ) → length (insert_sorted t list) ≡ length (t ∷ list)
unfolding insert_sorted
length-insert_sorted t [] = refl
length-insert_sorted t (u ∷ list) = ground (arith, length-insert_sorted t list)

pub length-sort : (list : List ℕ) → length (sort list) ≡ length list
unfolding sort
length-sort [] = refl
length-sort (t ∷ list) = omega (arith, length-insert_sorted t (sort list), length-sort list)

insert_sorted-Distinct :
    (t : ℕ) (list : List ℕ)
    → contains t list ≡ false
    → Distinct list
    → Distinct (insert_sorted t list)
unfolding contains insert_sorted
insert_sorted-Distinct t [] new d = (refl, tt)
insert_sorted-Distinct t (u ∷ list) new d = elim (Bool-cases (leb t u)) [
  | inl first ↦ rw first (new, d)
  | inr later ↦ rw later (
    contains-insert_sorted u t list ∙ ground (arith, new, d.0),
    insert_sorted-Distinct t list (ground (arith, new)) d.1,
  )
]

pub sort-Distinct : (list : List ℕ) → Distinct list → Distinct (sort list)
unfolding sort
sort-Distinct [] d = tt
sort-Distinct (t ∷ list) d =
    insert_sorted-Distinct t (sort list) (contains-sort t list ∙ d.0) (sort-Distinct list d.1)

-- The front of a sorted list has the timestamps up to the given one, and the rest the others.
pub split_at_lem :
    (ts t : ℕ) (list : List ℕ)
    → Sorted list
    → (contains t (split_at ts list).0 ≡ contains t list && leb t ts)
      × (contains t (split_at ts list).1 ≡ contains t list && not (leb t ts))
unfolding contains split_at
split_at_lem ts t [] h = (refl, refl)
split_at_lem ts t (u ∷ list) h = elim (Bool-cases (leb u ts)) [
  | inl front ↦
      let r = split_at_lem ts t list h.1 in
      (rw front (ground (arith, front, r.0)), rw front (ground (arith, front, r.1)))
  | inr behind ↦
      let low = AtLeast-contains u t list h.0 in
      (rw behind (ground (arith, behind, low)), rw behind (ground (arith, behind, low)))
]

pub length-split_at : (ts : ℕ) (list : List ℕ) → length (split_at ts list).0 ≤ length list
unfolding split_at
length-split_at ts [] = omega arith
length-split_at ts (u ∷ list) = ground (arith, length-split_at ts list)

pub split_at-Distinct :
    (ts : ℕ) (list : List ℕ)
    → Sorted list
    → Distinct list
    → Distinct (split_at ts list).0 × Distinct (split_at ts list).1
unfolding split_at
split_at-Distinct ts [] h d = (tt, tt)
split_at-Distinct ts (u ∷ list) h d = elim (Bool-cases (leb u ts)) [
  | inl front ↦
      let r = split_at-Distinct ts list h.1 d.1 in
      let absent = (split_at_lem ts u list h.1).0 in
      (rw front (ground (arith, absent, d.0), r.0), rw front r.1)
  | inr behind ↦ (rw behind tt, rw behind d)
]

-- A list of different timestamps that are all the same one.
pub contains_only_one :
    (v : ℕ) (list : List ℕ)
    → Distinct list
    → contains v list ≡ true
    → ((u : ℕ) → contains u list ≡ true → u ≡ v)
    → list ≡ v ∷ []
unfolding contains
contains_only_one v [] d there only = ground (arith, there)
contains_only_one v (x ∷ []) d there only = ap (λ y. y ∷ []) (only x (ground arith))
contains_only_one v (x ∷ y ∷ list) d there only =
    let first : x ≡ v = only x (ground arith) in
    let second : y ≡ v = only y (ground arith) in ground (arith, d.0, first, second)
