-- ===== src/CacheReplacer/Segment.antt =====
-- Runs of linked nodes, as lists of keys with their addresses, and how a write changes them.
use cloud_file_system.Base.{ℕ, ◌≡◌, refl, ◌∙◌, ◌≢◌, [], ◌∷◌, ◌++◌, none, some, arith}
use cloud_file_system.Base.Dict.{Dict}
use cloud_file_system.Base.Outcome.{ok}
use cloud_file_system.Bytes.{Str}
use cloud_file_system.CacheReplacer.{Ptr, Heap, update, set_next, set_prev}

-- The nodes in their order, each as its key and its address.
abbrev pub Cells : Type 0
Cells = Dict Str ℕ

-- The address at which a run begins, if `q` comes behind it.
abbrev pub first : Cells → Ptr → Ptr
first [] q = q
first (x ∷ xs) q = some x.1

-- The address at which a run ends, if `p` stands before it.
abbrev pub last : Ptr → Cells → Ptr
last p [] = p
last p (x ∷ xs) = last (some x.1) xs

abbrev pub Seg : Heap → Ptr → Cells → Ptr → Type 0
Seg h p [] q = Unit
Seg h p (x ∷ xs) q =
    (h x.1 ≡ some (record { key = x.0; prev = p; next = first xs q })) × Seg h (some x.1) xs q

abbrev pub Out : ℕ → Cells → Type 0
Out i [] = Unit
Out i (x ∷ xs) = (x.1 ≢ i) × Out i xs

abbrev pub Apart : Cells → Cells → Type 0
Apart [] ys = Unit
Apart (x ∷ xs) ys = Out x.1 ys × Apart xs ys

abbrev pub Distinct : Cells → Type 0
Distinct [] = Unit
Distinct (x ∷ xs) = Out x.1 xs × Distinct xs

pub Out-append : (i : ℕ) (xs ys : Cells) → Out i (xs ++ ys) → Out i xs × Out i ys
Out-append i [] ys h = (tt, h)
Out-append i (x ∷ xs) ys h = let r = Out-append i xs ys h.1 in ((h.0, r.0), r.1)

pub append-Out : (i : ℕ) (xs ys : Cells) → Out i xs → Out i ys → Out i (xs ++ ys)
append-Out i [] ys h k = k
append-Out i (x ∷ xs) ys h k = (h.0, append-Out i xs ys h.1 k)

Apart-nil : (xs : Cells) → Apart xs []
Apart-nil [] = tt
Apart-nil (x ∷ xs) = (tt, Apart-nil xs)

Apart-cons : (xs : Cells) (y : Str × ℕ) (ys : Cells) → Out y.1 xs → Apart xs ys → Apart xs (y ∷ ys)
Apart-cons [] y ys h k = tt
Apart-cons (x ∷ xs) y ys h k = (((λ e. h.0 (ground arith)), k.0), Apart-cons xs y ys h.1 k.1)

pub Apart-symm : (xs ys : Cells) → Apart xs ys → Apart ys xs
Apart-symm [] ys h = Apart-nil ys
Apart-symm (x ∷ xs) ys h = Apart-cons ys x xs h.0 (Apart-symm xs ys h.1)

pub Distinct-append :
    (xs ys : Cells) → Distinct (xs ++ ys) → Distinct xs × Distinct ys × Apart xs ys
Distinct-append [] ys h = (tt, h, tt)
Distinct-append (x ∷ xs) ys h =
    let r = Distinct-append xs ys h.1 in
    let o = Out-append x.1 xs ys h.0 in ((o.0, r.0), r.1, (o.1, r.2))

pub append-Distinct :
    (xs ys : Cells) → Distinct xs → Distinct ys → Apart xs ys → Distinct (xs ++ ys)
append-Distinct [] ys h k a = k
append-Distinct (x ∷ xs) ys h k a = (append-Out x.1 xs ys h.0 a.0, append-Distinct xs ys h.1 k a.1)

pub first-append : (xs ys : Cells) (q : Ptr) → first (xs ++ ys) q ≡ first xs (first ys q)
first-append [] ys q = refl
first-append (x ∷ xs) ys q = refl

pub last-append : (p : Ptr) (xs ys : Cells) → last p (xs ++ ys) ≡ last (last p xs) ys
last-append p [] ys = refl
last-append p (x ∷ xs) ys = last-append (some x.1) xs ys

-- A run of two parts is a run up to the second part, and the second part.
pub Seg-append :
    (h : Heap) (p q : Ptr) (xs ys : Cells)
    → Seg h p (xs ++ ys) q
    → Seg h p xs (first ys q) × Seg h (last p xs) ys q
Seg-append h p q [] ys s = (tt, s)
Seg-append h p q (x ∷ xs) ys s =
    let r = Seg-append h (some x.1) q xs ys s.1 in ((rw (← first-append xs ys q) s.0, r.0), r.1)

pub append-Seg :
    (h : Heap) (p q : Ptr) (xs ys : Cells)
    → Seg h p xs (first ys q)
    → Seg h (last p xs) ys q
    → Seg h p (xs ++ ys) q
append-Seg h p q [] ys s t = t
append-Seg h p q (x ∷ xs) ys s t =
    (rw (first-append xs ys q) s.0, append-Seg h (some x.1) q xs ys s.1 t)

-- A write outside of a run spares it.
pub Seg-frame :
    (h g : Heap) (p q : Ptr) (xs ys : Cells)
    → ((i : ℕ) → Out i ys → g i ≡ h i)
    → Apart xs ys
    → Seg h p xs q
    → Seg g p xs q
Seg-frame h g p q [] ys same a s = tt
Seg-frame h g p q (x ∷ xs) ys same a s =
    (same x.1 a.0 ∙ s.0, Seg-frame h g (some x.1) q xs ys same a.1 s.1)

-- What a write leaves of a heap: all that lies outside of a run.
abbrev pub SameOutside : Cells → Heap → Heap → Type 0
SameOutside xs h g = (i : ℕ) → Out i xs → g i ≡ h i

-- The write to the last node's `next_` ends the run elsewhere.
set_next-Seg_cons :
    (h : Heap) (p q v : Ptr) (x : Str × ℕ) (xs : Cells)
    → Distinct (x ∷ xs)
    → Seg h p (x ∷ xs) q
    → (g : Heap) × (set_next (last (some x.1) xs) v h ≡ ok g)
      × Seg g p (x ∷ xs) v
      × SameOutside (x ∷ xs) h g
unfolding set_next
set_next-Seg_cons h p q v x [] d s = (
  update h x.1 (some (record { key = x.0; prev = p; next = v })),
  ground arith,
  ((ground arith), tt),
  λ i o. ground arith,
)
set_next-Seg_cons h p q v x (y ∷ ys) d s =
    let (g, e, t, same) = set_next-Seg_cons h (some x.1) q v y ys d.1 s.1 in
    (g, e, (same x.1 d.0 ∙ s.0, t), λ i o. same i o.1)

pub set_next-Seg :
    (h : Heap) (q v : Ptr) (xs : Cells)
    → Distinct xs
    → Seg h none xs q
    → (g : Heap) × (set_next (last none xs) v h ≡ ok g) × Seg g none xs v × SameOutside xs h g
unfolding set_next
set_next-Seg h q v [] d s = (h, refl, tt, λ i o. refl)
set_next-Seg h q v (x ∷ xs) d s = set_next-Seg_cons h none q v x xs d s

-- The write to the first node's `prev_` begins the run elsewhere.
pub set_prev-Seg :
    (h : Heap) (p q v : Ptr) (xs : Cells)
    → Distinct xs
    → Seg h p xs q
    → (g : Heap) × (set_prev (first xs none) v h ≡ ok g) × Seg g v xs q × SameOutside xs h g
unfolding set_prev
set_prev-Seg h p q v [] d s = (h, refl, tt, λ i o. refl)
set_prev-Seg h p q v (x ∷ xs) d s =
    let g : Heap = update h x.1 (some (record { key = x.0; prev = v; next = first xs q })) in
    (
      g,
      ground arith,
      (
        ground arith,
        Seg-frame h g (some x.1) q xs (x ∷ []) (λ i o. ground arith)
            (Apart-cons xs x [] d.0 (Apart-nil xs)) s.1,
      ),
      λ i o. ground arith,
    )
