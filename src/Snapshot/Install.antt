-- ===== src/Snapshot/Install.antt =====
-- Snapshots that are installed and uninstalled again.
use cloud_file_system.Base.{ℕ, ◌≡◌, refl, ◌∙◌, false, List, if◌then◌else◌, Bool-cases, inl, inr}
use cloud_file_system.Base.Outcome.{ok, failure, >>=-eq_of_ok}
use cloud_file_system.Objects.{Objects}
use cloud_file_system.Snapshot.Registry.{
  Registry, Lists, get_installed_snapshot_list, set_installed_snapshot_list-Lists,
}
use cloud_file_system.Snapshot.Calls.{
  Environment, Controller, contains, without, uninstall_snapshot, update_installed, install_root,
  remove_dir,
}
use cloud_file_system.Snapshot.Tree.{clear_dir}
use cloud_file_system.Snapshot.Guards.{Distinct, without-Distinct}

pub update_installed-Lists :
    (r : Registry) (list old installed : List ℕ)
    → Lists r list old
    → Lists (update_installed installed r) list installed
unfolding update_installed
update_installed-Lists r list old installed h =
    set_installed_snapshot_list-Lists r list old installed h

module _ (env : Environment) (store : Objects) where
  abbrev pub uninstalled : ℕ → List ℕ → Controller env store → Controller env store
  uninstalled ts installed s = record s {
    ssd = remove_dir (install_root env store ts) (clear_dir (install_root env store ts) s.ssd);
    registry = update_installed (without ts installed) s.registry;
  }

  -- With the lists in the attributes, `uninstall_snapshot` is refused exactly for a snapshot that is
  -- not installed, and takes another out of the list of different timestamps.
  pub uninstall_snapshot_eq :
      (ts : ℕ) (s : Controller env store) (list installed : List ℕ)
      → Lists s.registry list installed
      → Distinct installed
      → (uninstall_snapshot env store ts s
          ≡ (if contains ts installed then ok (uninstalled ts installed s) else failure))
        × Lists (uninstalled ts installed s).registry list (without ts installed)
        × Distinct (without ts installed)
        × (contains ts (without ts installed) ≡ false)
  unfolding uninstall_snapshot
  uninstall_snapshot_eq ts s list installed h d =
      let less = without-Distinct ts installed d in
      (
        >>=-eq_of_ok (get_installed_snapshot_list s.registry) _ h.3
            ∙ (elim (Bool-cases (contains ts installed)) [
              | inl there ↦ rw there refl
              | inr absent ↦ rw absent refl
            ]),
        update_installed-Lists s.registry list installed (without ts installed) h,
        less.0,
        less.1,
      )
