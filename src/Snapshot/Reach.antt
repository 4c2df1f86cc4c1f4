-- ===== src/Snapshot/Reach.antt =====
-- Which lists of snapshots a run of calls can reach before a restore: `restore_snapshot`, which can take a
-- snapshot out of the list that is installed, is not among these calls, but among those of Snapshot/Runs.
use cloud_file_system.Base.{
  ℕ, ◌≡◌, ◌≢◌, refl, sym, ap, ◌∙◌, inl, inr, true, false, not, ◌&&◌, List, [], ◌∷◌, ◌++◌, Option,
  length, if◌then◌else◌, arith, Bool-cases,
}
unfoldable use cloud_file_system.Base.{ℕ_discrete}
use cloud_file_system.Base.Outcome.{ok, failure, >>=-returns}
use cloud_file_system.Bytes.{Str}
use cloud_file_system.ChunkTable.{skip_snapshot}
use cloud_file_system.Objects.{Objects}
use cloud_file_system.Snapshot.Registry.{Lists}
use cloud_file_system.Snapshot.Tree.{Found, install_tree, slash}
use cloud_file_system.Snapshot.Calls.{
  Environment, Controller, contains, without, create_snapshot, delete_snapshot, install_snapshot,
  uninstall_snapshot, check_install, open_snapshot, read_count, read_entries, install_root,
  make_root, update_installed,
}
use cloud_file_system.Snapshot.Guards.{
  Distinct, Distinct-snoc, contains-append, contains-without, check_install_lem,
}
use cloud_file_system.Snapshot.Install.{update_installed-Lists, uninstalled, uninstall_snapshot_eq}
use cloud_file_system.Snapshot.Remount.{Bounded, create_snapshot-Bounded, delete_snapshot-Bounded}

-- Every timestamp of the first list is in the second.
abbrev pub Within : List ℕ → List ℕ → Type 0
Within xs ys = (t : ℕ) → contains t xs ≡ true → contains t ys ≡ true

contains-without_ne :
    (t ts : ℕ) (list : List ℕ) → t ≢ ts → contains t (without ts list) ≡ contains t list
unfolding contains without
contains-without_ne t ts [] differ = refl
contains-without_ne t ts (u ∷ list) differ = ground (arith, contains-without_ne t ts list differ)

contains_self : (t : ℕ) (xs : List ℕ) → contains t (t ∷ xs) ≡ true
unfolding contains
contains_self t xs = ground arith

contains_only : (t ts : ℕ) → contains t (ts ∷ []) ≡ true → t ≡ ts
unfolding contains
contains_only t ts h = ground (arith, h)

none-Within : (list : List ℕ) → Within [] list
unfolding contains
none-Within list t h = ground (arith, h)

without-Within :
    (ts : ℕ) (list installed : List ℕ)
    → contains ts installed ≡ false
    → Within installed list
    → Within installed (without ts list)
without-Within ts list installed absent h t there = elim (ℕ_discrete t ts) [
  | yes p ↦ ground (arith, rw p at there, absent)
  | no p ↦ contains-without_ne t ts list p ∙ h t there
]

snoc-Within :
    (ts : ℕ) (list installed : List ℕ)
    → contains ts list ≡ true
    → Within installed list
    → Within (installed ++ (ts ∷ [])) list
snoc-Within ts list installed listed h t there = elim (Bool-cases (contains t installed)) [
  | inl old ↦ h t old
  | inr new ↦
      let same : t ≡ ts =
        contains_only t ts (ground (arith, contains-append t installed (ts ∷ []), new, there)) in
      rw same listed
]

less-Within :
    (ts : ℕ) (list installed : List ℕ) → Within installed list → Within (without ts installed) list
less-Within ts list installed h t there = elim (Bool-cases (contains t installed)) [
  | inl old ↦ h t old
  | inr new ↦ ground (arith, contains-without t ts installed new, there)
]

pub ok_inj {ℓ} : {A : Type ℓ} {a b : A} → ok a ≡ ok b → a ≡ b
ok_inj h = cc

module _ (env : Environment) (store : Objects) where
  -- A call that succeeds.
  pub data Step (s s' : Controller env store) : Type 0 where
    create_step :
        (read_dir : Str → Option (List (Str × Found))) (fuel ts : ℕ)
        → create_snapshot env store read_dir fuel ts s ≡ ok s'
        → Step s s'
    delete_step : (ts : ℕ) → delete_snapshot env store ts s ≡ ok s' → Step s s'
    install_step : (ts : ℕ) → install_snapshot env store ts s ≡ ok s' → Step s s'
    uninstall_step : (ts : ℕ) → uninstall_snapshot env store ts s ≡ ok s' → Step s s'

  -- The states that a run of such calls reaches.
  pub data Reach (s : Controller env store) : Controller env store → Type 0 where
    no_step : Reach s s
    one_more : {t u : Controller env store} → Reach s t → Step t u → Reach s u

  -- At most 8 snapshots with different timestamps are listed, and those that are installed are
  -- different and listed.
  abbrev pub Sound : Controller env store → Type 0
  Sound s =
      (list : List ℕ) × (mounted : List ℕ) × Lists s.registry list mounted
      × Bounded list
      × Distinct mounted
      × Within mounted list

  install_passes :
      (ts : ℕ) (list old list' : List ℕ)
      → (if contains ts list && not (contains ts old) then ok old else failure) ≡ ok list'
      → (list' ≡ old) × (contains ts list ≡ true) × (contains ts old ≡ false)
  install_passes ts list old list' h = ground arith

  -- What `install_snapshot` does to the registry, and that it leaves objects and chunk table.
  pub install_registry :
      (ts : ℕ) (s s' : Controller env store) (list old : List ℕ)
      → Lists s.registry list old
      → install_snapshot env store ts s ≡ ok s'
      → (s'.registry ≡ update_installed (old ++ (ts ∷ [])) s.registry)
        × (contains ts list ≡ true)
        × (contains ts old ≡ false)
        × (s'.objects ≡ s.objects)
        × (s'.chunk_table ≡ s.chunk_table)
  unfolding install_snapshot
  install_registry ts s s' list old h made =
      let (list', let_through, made1) =
        >>=-returns _ (check_install env store ts s.registry) made in
      let (file, opened, made2) = >>=-returns _ (open_snapshot env store ts s) made1 in
      let (root, fresh, made3) = >>=-returns _ (make_root env store ts s) made2 in
      let (counted, read, made4) = >>=-returns _ (read_count env store file) made3 in
      let (rest, skipped, made5) = >>=-returns _ (skip_snapshot counted.1) made4 in
      let (es, entries, made6) = >>=-returns _ (read_entries env store counted.0 rest) made5 in
      let (ssd, placed, made7) =
        >>=-returns _
          (install_tree (install_root env store ts ++ (slash ∷ [])) (length env.ssd_path) es.0 root)
          made6 in
      let (same, listed, not_installed) =
        install_passes ts list old list'
          (sym (check_install_lem env store ts s.registry list old h) ∙ let_through) in
      (
        rw (sym same) (sym (ap (λ (c : Controller env store). c.registry) (ok_inj made7))),
        listed,
        not_installed,
        sym (ap (λ (c : Controller env store). c.objects) (ok_inj made7)),
        sym (ap (λ (c : Controller env store). c.chunk_table) (ok_inj made7)),
      )

  pub uninstall_registry :
      (ts : ℕ) (s s' : Controller env store) (old : List ℕ)
      → (if contains ts old then ok (uninstalled env store ts old s) else failure) ≡ ok s'
      → s'.registry ≡ (uninstalled env store ts old s).registry
  uninstall_registry ts s s' old h = elim (Bool-cases (contains ts old)) [
    | inl there ↦ sym (ap (λ (c : Controller env store). c.registry) (ok_inj (rw there at h)))
    | inr absent ↦ ground (arith, rw absent at h)
  ]

  Step-Sound : (s s' : Controller env store) → Step s s' → Sound s → Sound s'
  Step-Sound s s' (create_step read_dir fuel ts made) (list, old, h, b, d, w) =
      let (h', b', none_installed) =
        create_snapshot-Bounded env store read_dir fuel ts s s' list old h b made in
      (list ++ (ts ∷ []), old, h', b', d, rw none_installed (none-Within (list ++ (ts ∷ []))))
  Step-Sound s s' (delete_step ts made) (list, old, h, b, d, w) =
      let (h', b', listed, absent, gone) =
        delete_snapshot-Bounded env store ts s s' list old h b made in
      (without ts list, old, h', b', d, without-Within ts list old absent w)
  Step-Sound s s' (install_step ts made) (list, old, h, b, d, w) =
      let (now, listed, absent, objects, table) = install_registry ts s s' list old h made in
      (
        list,
        old ++ (ts ∷ []),
        rw now (update_installed-Lists s.registry list old (old ++ (ts ∷ [])) h),
        b,
        Distinct-snoc ts old absent d,
        snoc-Within ts list old listed w,
      )
  Step-Sound s s' (uninstall_step ts made) (list, old, h, b, d, w) =
      let (eq, h', d', gone) = uninstall_snapshot_eq env store ts s list old h d in
      (
        list,
        without ts old,
        rw (uninstall_registry ts s s' old (sym eq ∙ made)) h',
        b,
        d',
        less-Within ts list old w,
      )

  -- From a state where at most 8 snapshots with different timestamps are listed and those that are
  -- installed are different and listed, every run of `create_snapshot`, `delete_snapshot`,
  -- `install_snapshot` and `uninstall_snapshot` calls that succeed reaches only such states.
  pub Reach-Sound : (s t : Controller env store) → Reach s t → Sound s → Sound t
  Reach-Sound s t no_step sound = sound
  Reach-Sound s t (one_more run last) sound = Step-Sound _ t last (Reach-Sound s _ run sound)
