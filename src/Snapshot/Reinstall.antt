-- ===== src/Snapshot/Reinstall.antt =====
-- A snapshot that is installed and uninstalled again.
use cloud_file_system.Base.{ℕ, ◌≡◌, refl, ◌∙◌, inl, inr, List, [], ◌∷◌, ◌++◌, none, arith}
use cloud_file_system.Base.Outcome.{ok}
use cloud_file_system.Bytes.{Str}
use cloud_file_system.Objects.{Objects}
use cloud_file_system.Snapshot.Registry.{Lists}
use cloud_file_system.Snapshot.Tree.{behind}
use cloud_file_system.Snapshot.Calls.{
  Environment, Controller, install_root, install_snapshot, uninstall_snapshot,
}
use cloud_file_system.Snapshot.Guards.{Distinct, Distinct-snoc, without-snoc}
use cloud_file_system.Snapshot.Cleared.{Plain, AllPlain}
use cloud_file_system.Snapshot.Undo.{contains-snoc}
use cloud_file_system.Snapshot.Install.{update_installed-Lists}
use cloud_file_system.Snapshot.Rollback.{DeletedBelow, uninstall_snapshot_lem}
use cloud_file_system.Snapshot.Reach.{install_registry}

behind_nothing : (dir : Str) → behind dir [] ≡ none
unfolding behind
behind_nothing [] = refl
behind_nothing (c ∷ dir) = refl

module _ (env : Environment) (store : Objects) where
  -- Where a snapshot could be installed, it can be uninstalled at once: both lists are then as before,
  -- every file and buffer file below the directory of the snapshot is gone, if its path has no name
  -- that the deletion passes over, and the objects and the chunk table are those from before.
  pub uninstall_snapshot-install_snapshot :
      (ts : ℕ) (s s1 : Controller env store) (list installed : List ℕ) (n : Str) (ns : List Str)
      → Lists s.registry list installed
      → Distinct installed
      → Plain n
      → AllPlain ns
      → install_snapshot env store ts s ≡ ok s1
      → (s2 : Controller env store) × (uninstall_snapshot env store ts s1 ≡ ok s2)
        × Lists s2.registry list installed
        × DeletedBelow (install_root env store ts) (n ∷ ns) s1.ssd s2.ssd
        × (s2.objects ≡ s.objects)
        × (s2.chunk_table ≡ s.chunk_table)
  uninstall_snapshot-install_snapshot ts s s1 list installed n ns h d plain all made =
      let (now, listed, absent, objects, table) =
        install_registry env store ts s s1 list installed h made in
      let h1 : Lists s1.registry list (installed ++ (ts ∷ [])) =
        rw now (update_installed-Lists s.registry list installed (installed ++ (ts ∷ [])) h) in
      let d1 = Distinct-snoc ts installed absent d in
      elim (uninstall_snapshot_lem env store ts s1 list (installed ++ (ts ∷ [])) n ns [] h1 d1 plain
        all (behind_nothing (install_root env store ts))) [
          | inl (missing, refused) ↦ ground (arith, missing, contains-snoc ts installed)
          | inr (s2, there, eq, h2, gone, below, same, objects', table') ↦ (
            s2,
            eq,
            rw (without-snoc ts installed absent) at h2,
            below,
            objects' ∙ objects,
            table' ∙ table,
          )
        ]
