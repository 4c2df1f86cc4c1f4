-- ===== src/Snapshot/Cleared.antt =====
-- What `clear_dir` leaves: the files below a directory are told apart by the names of their paths.
use cloud_file_system.Base.{
  ◌≡◌, refl, sym, ap, ◌∙◌, inl, inr, true, false, not, List, [], ◌∷◌, ◌++◌, none, some, ◌==◌,
  if◌then◌else◌, Bool-cases, arith,
}
use mathlib.Core.List.{append_assoc, append-nil}
use cloud_file_system.Base.Dict.{Dict, lookup}
use cloud_file_system.Bytes.{Str, str_dec}
use cloud_file_system.Snapshot.Tree.{
  Ssd, slash, behind, names, keeps_name, is_cleared, clear_files, clear_dir,
}

-- A name has no slash.
abbrev pub Plain : Str → Type 0
Plain [] = Unit
Plain (c ∷ name) = ((c == slash) ≡ false) × Plain name

abbrev pub AllPlain : List Str → Type 0
AllPlain [] = Unit
AllPlain (n ∷ ns) = Plain n × AllPlain ns

-- The path behind a directory that goes through these names.
abbrev pub path_of : List Str → Str
path_of [] = []
path_of (n ∷ ns) = slash ∷ (n ++ path_of ns)

behind-append : (dir rest : Str) → behind dir (dir ++ (slash ∷ rest)) ≡ some rest
unfolding behind
behind-append [] rest = refl
behind-append (c ∷ dir) rest = ground (arith, behind-append dir rest)

names-path_of :
    (before n : Str) (ns : List Str)
    → Plain n
    → AllPlain ns
    → names before (n ++ path_of ns) ≡ (before ++ n) ∷ ns
unfolding names
names-path_of before [] [] plain all = ap (λ x. x ∷ []) (sym (append-nil before))
names-path_of before [] (m ∷ ms) plain all =
    rw (append-nil before) (ap (λ x. before ∷ x) (names-path_of [] m ms all.0 all.1))
names-path_of before (c ∷ n) ns plain all = rw plain.0 (
    names-path_of (before ++ (c ∷ [])) n ns plain.1 all
    ∙ ap (λ x. x ∷ ns) (append_assoc before (c ∷ []) n))

is_cleared-path_of :
    (dir n : Str) (ns : List Str)
    → Plain n
    → AllPlain ns
    → is_cleared dir (dir ++ path_of (n ∷ ns)) ≡ not (keeps_name (n ∷ ns))
is_cleared-path_of dir n ns plain all =
    rw (behind-append dir (n ++ path_of ns), names-path_of [] n ns plain all, is_cleared) refl

is_cleared_outside : (dir path : Str) → behind dir path ≡ none → is_cleared dir path ≡ false
is_cleared_outside dir path h = rw (h, is_cleared) refl

lookup-clear_files {ℓ} :
    {V : Type ℓ} (dir p : Str) (d : Dict Str V)
    → lookup str_dec p (clear_files dir d) ≡ (if is_cleared dir p then none else lookup str_dec p d)
unfolding lookup clear_files
lookup-clear_files dir p [] = elim (Bool-cases (is_cleared dir p)) [
  | inl gone ↦ rw gone refl
  | inr kept ↦ rw kept refl
]
lookup-clear_files dir p (e ∷ d) =
    let rest = lookup-clear_files dir p d in
    elim (Bool-cases (is_cleared dir e.0)) [
      | inl gone ↦ elim (str_dec p e.0) [
        | yes same ↦
            let at_p : is_cleared dir p ≡ true = ap (λ q. is_cleared dir q) same ∙ gone in
            rw (gone, at_p) (rw at_p at rest)
        | no other ↦ rw gone (ground (arith, other, rest))
      ]
      | inr kept ↦ elim (str_dec p e.0) [
        | yes same ↦
            let at_p : is_cleared dir p ≡ false = ap (λ q. is_cleared dir q) same ∙ kept in
            rw (kept, at_p) (ground (arith, same))
        | no other ↦ rw kept (ground (arith, other, rest))
      ]
    ]

-- Of the files below a directory those are left with a name in their path that is passed over.
pub clear_dir_below :
    (dir n : Str) (ns : List Str) (d : Ssd)
    → Plain n
    → AllPlain ns
    → (lookup str_dec (dir ++ path_of (n ∷ ns)) (clear_dir dir d).files
        ≡ (if keeps_name (n ∷ ns) then lookup str_dec (dir ++ path_of (n ∷ ns)) d.files else none))
      × (lookup str_dec (dir ++ path_of (n ∷ ns)) (clear_dir dir d).buffers ≡ (
          if keeps_name (n ∷ ns) then lookup str_dec (dir ++ path_of (n ∷ ns)) d.buffers else none))
unfolding clear_dir
clear_dir_below dir n ns d plain all =
    let p = dir ++ path_of (n ∷ ns) in
    let cleared = is_cleared-path_of dir n ns plain all in
    elim (Bool-cases (keeps_name (n ∷ ns))) [
      | inl kept ↦
          let test : is_cleared dir p ≡ false = rw (cleared, kept) refl in
          (
            lookup-clear_files dir p d.files ∙ rw (test, kept) refl,
            lookup-clear_files dir p d.buffers ∙ rw (test, kept) refl,
          )
      | inr free ↦
          let test : is_cleared dir p ≡ true = rw (cleared, free) refl in
          (
            lookup-clear_files dir p d.files ∙ rw (test, free) refl,
            lookup-clear_files dir p d.buffers ∙ rw (test, free) refl,
          )
    ]

-- What is not below the directory stays.
pub clear_dir_outside :
    (dir other : Str) (d : Ssd)
    → behind dir other ≡ none
    → (lookup str_dec other (clear_dir dir d).files ≡ lookup str_dec other d.files)
      × (lookup str_dec other (clear_dir dir d).buffers ≡ lookup str_dec other d.buffers)
unfolding clear_dir
clear_dir_outside dir other d outside =
    let test = is_cleared_outside dir other outside in
    (
      lookup-clear_files dir other d.files ∙ rw test refl,
      lookup-clear_files dir other d.buffers ∙ rw test refl,
    )
