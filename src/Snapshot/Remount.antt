-- ===== src/Snapshot/Remount.antt =====
-- The list of the snapshots over its life: its length and its timestamps, and over a remount.
use cloud_file_system.Base.{
  ℕ, ◌^◌, ◌≤◌, ◌<◌, ◌≡◌, refl, sym, ap, ◌∙◌, true, false, not, ◌&&◌, ◌||◌, List, [], ◌∷◌, ◌++◌,
  length, leb, ltb, ◌==◌, if◌then◌else◌, arith, length-append,
}
use cloud_file_system.Base.Outcome.{ok, failure, >>=-eq_of_ok, >>=-returns}
use cloud_file_system.Bytes.{Bytes, Str, le_bytes, put_size}
use cloud_file_system.Bytes.RoundTrip.{get_size-put_size}
use cloud_file_system.ChunkTable.{snapshot_deleted}
use cloud_file_system.Objects.{Objects}
use cloud_file_system.Snapshot.Registry.{
  Registry, Lists, get_snapshot_list, set_snapshot_list-Lists, set_snapshot_list,
  set_snapshot_count,
}
use cloud_file_system.Snapshot.Tree.{walk}
use cloud_file_system.Snapshot.Calls.{
  Environment, Controller, contains, without, max_num_snapshots, check_create, check_delete,
  open_snapshot, read_count, object_key, create_snapshot, delete_snapshot, update_snapshots,
  put_timestamps, get_timestamps, persist, recover, recover_list,
}
use cloud_file_system.Snapshot.Guards.{
  Distinct, Distinct-snoc, without-Distinct, check_create_lem, check_delete_lem,
}
use cloud_file_system.Snapshot.Undo.{update_snapshots-Lists}

-- At most 8 snapshots, with different timestamps.
abbrev pub Bounded : List ℕ → Type 0
Bounded list = (length list ≤ max_num_snapshots) × Distinct list

abbrev pub TimesFit : List ℕ → Type 0
TimesFit [] = Unit
TimesFit (t ∷ list) = (t < 2 ^ 64) × TimesFit list

get_timestamps-put_timestamps :
    (env : Environment) (store : Objects) (list : List ℕ)
    → TimesFit list
    → get_timestamps env store (length list) (put_timestamps env store list) ≡ ok list
unfolding get_timestamps put_timestamps
get_timestamps-put_timestamps env store [] fit = refl
get_timestamps-put_timestamps env store (t ∷ list) fit =
    rw
      (
        get_size-put_size t (put_timestamps env store list) fit.0,
        get_timestamps-put_timestamps env store list fit.1,
        get_timestamps,
      )
      refl

nonempty_test : (n : ℕ) → 0 < n → (n == 0) ≡ false
nonempty_test n h = ground arith

length-put_size : (v : ℕ) (bs : Bytes) → 0 < length (put_size v ++ bs)
unfolding put_size le_bytes
length-put_size v bs = omega arith

ok_inj {ℓ} : {A : Type ℓ} {a b : A} → ok a ≡ ok b → a ≡ b
ok_inj h = cc

create_passes :
    (ts : ℕ) (list installed list' : List ℕ)
    → (if leb max_num_snapshots (length list) || (ltb 0 (length installed) || contains ts list)
        then failure
        else ok list)
      ≡ ok list'
    → (list' ≡ list)
      × (length list < max_num_snapshots)
      × (installed ≡ [])
      × (contains ts list ≡ false)
create_passes ts list [] list' h = ground arith
create_passes ts list (i ∷ installed) list' h = ground arith

delete_passes :
    (ts : ℕ) (list installed list' : List ℕ)
    → (if contains ts list && not (contains ts installed) then ok list else failure) ≡ ok list'
    → (list' ≡ list) × (contains ts list ≡ true) × (contains ts installed ≡ false)
delete_passes ts list installed list' h = ground arith

module _ (env : Environment) (store : Objects) where
  -- Where `create_snapshot` succeeds, the timestamp is put behind the list, which stays within 8
  -- different timestamps, and no snapshot is installed.
  pub create_snapshot-Bounded :
      (read_dir : Str → _) (fuel ts : ℕ) (s s' : Controller env store) (list installed : List ℕ)
      → Lists s.registry list installed
      → Bounded list
      → create_snapshot env store read_dir fuel ts s ≡ ok s'
      → Lists s'.registry (list ++ (ts ∷ [])) installed
        × Bounded (list ++ (ts ∷ []))
        × (installed ≡ [])
  unfolding create_snapshot
  create_snapshot-Bounded read_dir fuel ts s s' list installed h b made =
      let (list', let_through, made1) = >>=-returns _ (check_create env store ts s.registry) made in
      let (es, walked, made2) =
        >>=-returns _ (walk env.threshold read_dir fuel (env.ssd_path ∷ [])) made1 in
      let (same, few, none_installed, new) =
        create_passes ts list installed list'
          (sym (check_create_lem env store ts s.registry list installed h) ∙ let_through) in
      let now : update_snapshots (list' ++ (ts ∷ [])) s.registry ≡ s'.registry =
        ap (λ (c : Controller env store). c.registry) (ok_inj made2) in
      (
        rw (sym now, same) (update_snapshots-Lists s.registry list (list ++ (ts ∷ [])) installed h),
        (omega (arith, few, length-append list (ts ∷ [])), Distinct-snoc ts list new b.1),
        none_installed,
      )

  -- Where `delete_snapshot` succeeds, the snapshot was listed and not installed, it is gone from the
  -- list, and the list stays within 8 different timestamps.
  pub delete_snapshot-Bounded :
      (ts : ℕ) (s s' : Controller env store) (list installed : List ℕ)
      → Lists s.registry list installed
      → Bounded list
      → delete_snapshot env store ts s ≡ ok s'
      → Lists s'.registry (without ts list) installed
        × Bounded (without ts list)
        × (contains ts list ≡ true)
        × (contains ts installed ≡ false)
        × (contains ts (without ts list) ≡ false)
  unfolding delete_snapshot
  delete_snapshot-Bounded ts s s' list installed h b made =
      let (list', let_through, made1) = >>=-returns _ (check_delete env store ts s.registry) made in
      let (file, opened, made2) = >>=-returns _ (open_snapshot env store ts s) made1 in
      let (counted, read, made3) = >>=-returns _ (read_count env store file) made2 in
      let (w, dropped, made4) =
        >>=-returns _ (snapshot_deleted store.delete_object counted.1 (s.chunk_table, s.objects))
          made3 in
      let (o, gone, made5) =
        >>=-returns _ (store.delete_object (object_key env store ts) w.0.1) made4 in
      let (same, listed, not_installed) =
        delete_passes ts list installed list'
          (sym (check_delete_lem env store ts s.registry list installed h) ∙ let_through) in
      let now : update_snapshots (without ts list') s.registry ≡ s'.registry =
        ap (λ (c : Controller env store). c.registry) (ok_inj made5) in
      let less = without-Distinct ts list b.1 in
      (
        rw (sym now, same) (update_snapshots-Lists s.registry list (without ts list) installed h),
        (omega (arith, less.2, b.0), less.0),
        listed,
        not_installed,
        less.1,
      )

  -- What `persist` uploads the constructor of the next mount finds, if there is a snapshot and the
  -- timestamps fit 64 bits.
  pub recover-persist :
      (key : Str) (s s' : Controller env store) (list installed old : List ℕ) (r : Registry)
      → Lists s.registry list installed
      → length list < 2 ^ 64
      → 0 < length list
      → TimesFit list
      → persist env store key s ≡ ok s'
      → Lists r old installed
      → (s'' : Controller env store) × (recover env store key (record s' { registry = r }) ≡ ok s'')
        × Lists s''.registry list installed
        × (s''.chunk_table ≡ s'.chunk_table)
  unfolding persist recover recover_list
  recover-persist key s s' list installed old r h small some_listed fit saved h' =
      let bs = put_size (length list) ++ put_timestamps env store list in
      let s1 : Controller env store = record s {
        objects = store.upload_file key bs (length bs) s.objects;
      } in
      let uploaded : persist env store key s ≡ ok s1 =
        >>=-eq_of_ok (get_snapshot_list s.registry) _ h.1
        ∙ rw (nonempty_test (length list) some_listed) refl in
      let same : s1 ≡ s' = ok_inj (sym uploaded ∙ saved) in
      let down = store.download_file-upload_file key bs s.objects in
      let times = get_timestamps-put_timestamps env store list fit in
      rw (sym same) (
        record s1 { registry = set_snapshot_list list (set_snapshot_count (length list) r) },
        rw (down, nonempty_test (length bs) (length-put_size (length list) _), recover)
            (rw
              (
                get_size-put_size (length list) (put_timestamps env store list) small,
                times,
                recover_list,
              )
              refl),
        set_snapshot_list-Lists r old list installed h',
        refl,
      )
