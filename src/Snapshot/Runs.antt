-- ===== src/Snapshot/Runs.antt =====
-- The list of the snapshots in every state that calls on snapshots reach, `restore_snapshot` included.
use cloud_file_system.Base.{
  ℕ, ◌≡◌, sym, ap, ◌∙◌, ◌⊎◌, inl, inr, List, [], ◌∷◌, ◌++◌, if◌then◌else◌, arith,
}
use cloud_file_system.Base.Outcome.{
  Outcome, ok, runtime_error, failure, undefined, stuck, >>=-returns,
}
use cloud_file_system.ChunkTable.{restore}
use cloud_file_system.Objects.{Objects}
use cloud_file_system.Snapshot.Registry.{Registry, Lists}
use cloud_file_system.Snapshot.Calls.{
  Environment, Controller, contains, without, sort, split_at, tail, unless_failure, check_restore,
  open_snapshot, read_count, read_entries, update_snapshots, restore_files, delete_newer,
  restore_snapshot, uninstall_snapshot, delete_snapshot,
}
use cloud_file_system.Snapshot.Guards.{Distinct, Distinct-snoc, check_restore_lem}
use cloud_file_system.Snapshot.Sorted.{
  sort-Sorted, sort-Distinct, length-sort, length-split_at, split_at-Distinct,
}
use cloud_file_system.Snapshot.Undo.{update_snapshots-Lists}
use cloud_file_system.Snapshot.Install.{update_installed-Lists, uninstall_snapshot_eq}
use cloud_file_system.Snapshot.Remount.{Bounded, create_snapshot-Bounded, delete_snapshot-Bounded}
use cloud_file_system.Snapshot.Reach.{
  Step, create_step, delete_step, install_step, uninstall_step, install_registry,
  uninstall_registry, ok_inj,
}

unless_failure-returns {ℓ} :
    {A : Type ℓ} (a b : A) (m : Outcome A) → unless_failure a m ≡ ok b → (b ≡ a) ⊎ (m ≡ ok b)
unless_failure-returns a b (ok c) h = inr h
unless_failure-returns a b runtime_error h = cc
unless_failure-returns a b failure h = inl (sym (ok_inj h))
unless_failure-returns a b undefined h = cc
unless_failure-returns a b stuck h = cc

given :
    (ts : ℕ) (list list' : List ℕ)
    → (if contains ts list then ok list else failure) ≡ ok list'
    → list' ≡ list
given ts list list' h = ground arith

split_at-Bounded : (ts : ℕ) (list : List ℕ) → Bounded list → Bounded (split_at ts (sort list)).0
split_at-Bounded ts list b = (
  omega (arith, length-split_at ts (sort list), length-sort list, b.0),
  (split_at-Distinct ts (sort list) (sort-Sorted list) (sort-Distinct list b.1)).0,
)

-- At most 8 snapshots with different timestamps are listed, and those that are listed as installed are
-- different; the counters are the lengths of the lists.
abbrev pub Counts : Registry → Type 0
Counts r =
    (list : List ℕ) × (mounted : List ℕ) × Lists r list mounted × Bounded list × Distinct mounted

split_at-Counts :
    (ts : ℕ) (list list' : List ℕ) (r r' : Registry)
    → list' ≡ list
    → Bounded list
    → Counts r
    → r' ≡ update_snapshots (split_at ts (sort list')).0 r
    → Counts r'
split_at-Counts ts list list' r r' same b (old, mounted, h, b', d) now = (
  (split_at ts (sort list')).0,
  mounted,
  rw now (update_snapshots-Lists r old (split_at ts (sort list')).0 mounted h),
  rw same (split_at-Bounded ts list b),
  d,
)

module _ (env : Environment) (store : Objects) where
  abbrev pub Counted : Controller env store → Type 0
  Counted s = Counts s.registry

  -- A call that succeeds.
  pub data AnyStep (s s' : Controller env store) : Type 0 where
    call_step : Step env store s s' → AnyStep s s'
    restore_step : (ts : ℕ) → restore_snapshot env store ts s ≡ ok s' → AnyStep s s'

  -- The states that a run of calls reaches.
  pub data Run (s : Controller env store) : Controller env store → Type 0 where
    no_call : Run s s
    one_call : {t u : Controller env store} → Run s t → AnyStep t u → Run s u

  uninstall_snapshot-Counted :
      (ts : ℕ) (s s' : Controller env store)
      → uninstall_snapshot env store ts s ≡ ok s'
      → Counted s
      → Counted s'
  uninstall_snapshot-Counted ts s s' made (list, old, h, b, d) =
      let (eq, h', d', gone) = uninstall_snapshot_eq env store ts s list old h d in
      (
        list,
        without ts old,
        rw (uninstall_registry env store ts s s' old (sym eq ∙ made)) h',
        b,
        d',
      )

  delete_snapshot-Counted :
      (ts : ℕ) (s s' : Controller env store)
      → delete_snapshot env store ts s ≡ ok s'
      → Counted s
      → Counted s'
  delete_snapshot-Counted ts s s' made (list, old, h, b, d) =
      let (h', b', listed, absent, gone) =
        delete_snapshot-Bounded env store ts s s' list old h b made in
      (without ts list, old, h', b', d)

  Step-Counted : (s s' : Controller env store) → Step env store s s' → Counted s → Counted s'
  Step-Counted s s' (create_step read_dir fuel ts made) (list, old, h, b, d) =
      let (h', b', none_installed) =
        create_snapshot-Bounded env store read_dir fuel ts s s' list old h b made in
      (list ++ (ts ∷ []), old, h', b', d)
  Step-Counted s s' (delete_step ts made) counted = delete_snapshot-Counted ts s s' made counted
  Step-Counted s s' (install_step ts made) (list, old, h, b, d) =
      let (now, listed, absent, objects, table) =
        install_registry env store ts s s' list old h made in
      (
        list,
        old ++ (ts ∷ []),
        rw now (update_installed-Lists s.registry list old (old ++ (ts ∷ [])) h),
        b,
        Distinct-snoc ts old absent d,
      )
  Step-Counted s s' (uninstall_step ts made) counted =
      uninstall_snapshot-Counted ts s s' made counted

  delete_newer-Counted :
      (list : List ℕ) (s s' : Controller env store)
      → delete_newer env store list s ≡ ok s'
      → Counted s
      → Counted s'
  unfolding delete_newer
  delete_newer-Counted [] s s' made counted =
      let same : s ≡ s' = ok_inj made in rw (sym same) counted
  delete_newer-Counted (t ∷ list) s s' made counted =
      let (s1, first, made1) =
        >>=-returns _ (unless_failure s (uninstall_snapshot env store t s)) made in
      let (s2, second, made2) =
        >>=-returns _ (unless_failure s1 (delete_snapshot env store t s1)) made1 in
      let counted1 : Counted s1 =
        elim (unless_failure-returns s s1 (uninstall_snapshot env store t s) first) [
          | inl same ↦ rw same counted
          | inr done ↦ uninstall_snapshot-Counted t s s1 done counted
        ] in
      let counted2 : Counted s2 =
        elim (unless_failure-returns s1 s2 (delete_snapshot env store t s1) second) [
          | inl same ↦ rw same counted1
          | inr done ↦ delete_snapshot-Counted t s1 s2 done counted1
        ] in
      delete_newer-Counted list s2 s' made2 counted2

  restore_files_registry :
      (ts : ℕ) (s s' : Controller env store)
      → restore_files env store ts s ≡ ok s'
      → s'.registry ≡ s.registry
  unfolding restore_files
  restore_files_registry ts s s' made =
      let (file, opened, made1) = >>=-returns _ (open_snapshot env store ts s) made in
      let (counted, read, made2) = >>=-returns _ (read_count env store file) made1 in
      let (table, back, made3) = >>=-returns _ (restore counted.1 s.chunk_table) made2 in
      let (es, entries, made4) = >>=-returns _ (read_entries env store counted.0 table.1) made3 in
      sym (ap (λ (c : Controller env store). c.registry) (ok_inj made4))

  restore_passes :
      (ts : ℕ) (s : Controller env store) (list old list' : List ℕ)
      → Lists s.registry list old
      → check_restore env store ts s.registry ≡ ok list'
      → list' ≡ list
  restore_passes ts s list old list' h passed =
      given ts list list' (sym (check_restore_lem env store ts s.registry list old h) ∙ passed)

  restore_snapshot-Counted :
      (ts : ℕ) (s s' : Controller env store)
      → restore_snapshot env store ts s ≡ ok s'
      → Counted s
      → Counted s'
  unfolding restore_snapshot
  restore_snapshot-Counted ts s s' made (list, old, h, b, d) =
      let (list', passed, made1) = >>=-returns _ (check_restore env store ts s.registry) made in
      let (s1, files, made2) = >>=-returns _ (restore_files env store ts s) made1 in
      let (s2, newer, made3) =
        >>=-returns _ (delete_newer env store (tail (split_at ts (sort list')).1) s1) made2 in
      let same : list' ≡ list = restore_passes ts s list old list' h passed in
      let at_s1 : Lists s1.registry list old = rw (restore_files_registry ts s s1 files) h in
      let counted2 =
        delete_newer-Counted (tail (split_at ts (sort list')).1) s1 s2 newer
          (list, old, at_s1, b, d) in
      let now : s'.registry ≡ update_snapshots (split_at ts (sort list')).0 s2.registry =
        sym (ap (λ (c : Controller env store). c.registry) (ok_inj made3)) in
      split_at-Counts ts list list' s2.registry s'.registry same b counted2 now

  -- From a state where at most 8 snapshots with different timestamps are listed, and different ones
  -- are listed as installed, every run of `create_snapshot`, `delete_snapshot`, `install_snapshot`,
  -- `uninstall_snapshot` and `restore_snapshot` calls that succeed reaches only such states.
  pub Run-Counted : (s t : Controller env store) → Run s t → Counted s → Counted t
  Run-Counted s t no_call counted = counted
  Run-Counted s t (one_call run (call_step last)) counted =
      Step-Counted _ t last (Run-Counted s _ run counted)
  Run-Counted s t (one_call run (restore_step ts made)) counted =
      restore_snapshot-Counted ts _ t made (Run-Counted s _ run counted)
