-- ===== src/NoDedup/Sessions.antt =====
-- What a session leaves of a file, and what the next one finds.
use cloud_file_system.Base.{
  ℕ, ◌≡◌, refl, ◌∙◌, inl, inr, Bool, true, false, not, ◌||◌, ◌++◌, [], none, some, length, arith,
  ltb, ◌==◌, Bool-cases, Option-cases, if◌then◌else◌, ℕ_discrete,
}
use cloud_file_system.Base.Dict.{lookup, insert, erase, lookup-insert_self}
use cloud_file_system.Base.Outcome.{ok, ◌>>=◌}
use cloud_file_system.Bytes.{Bytes, Str, str_dec}
use cloud_file_system.Objects.{Objects}
use cloud_file_system.Snapshot.Tree.{Buffer}
use cloud_file_system.FileController.{
  Disk, MainFile, regular_file, inode_of, set_main, set_buffer, generate_object_key,
}
use cloud_file_system.NoDedup.{
  Controller, is_dirty, fetched, close_file, save, put_back, uploaded, kept,
}

set_main_eq :
    (path : Str) (m : MainFile) (i : ℕ) (d : Disk)
    → lookup str_dec path d.names ≡ some i
    → set_main path m d ≡ record d { inodes = insert ℕ_discrete i (regular_file m) d.inodes }
unfolding set_main
set_main_eq path m i d there = rw (there, set_main) refl

inode_some :
    (path : Str) (i : ℕ) (d : Disk)
    → lookup str_dec path d.names ≡ some i
    → inode_of path d ≡ lookup ℕ_discrete i d.inodes
unfolding inode_of
inode_some path i d there = rw (there, inode_of) refl

inode_none : (path : Str) (d : Disk) → lookup str_dec path d.names ≡ none → inode_of path d ≡ none
unfolding inode_of
inode_none path d missing = rw (missing, inode_of) refl

-- The attributes that are set are there afterwards.
inode_of-set_main :
    (path : Str) (m m' : MainFile) (d : Disk)
    → inode_of path d ≡ some (regular_file m)
    → inode_of path (set_main path m' d) ≡ some (regular_file m')
inode_of-set_main path m m' d h = elim (Option-cases (lookup str_dec path d.names)) [
  | inl missing ↦ ground (arith, h, inode_none path d missing)
  | inr (i, there) ↦
      rw (set_main_eq path m' i d there)
        (inode_some path i _ there ∙ lookup-insert_self ℕ_discrete i (regular_file m') d.inodes)
]

pub inode_of-set_buffer :
    (path buffer_path : Str) (b : Buffer) (d : Disk)
    → inode_of path (set_buffer buffer_path b d) ≡ inode_of path d
unfolding inode_of
inode_of-set_buffer path buffer_path b d = refl

module _ (store : Objects) (threshold : ℕ) where
  -- The deletion of an old object, if there is one.
  abbrev pub Deletes : MainFile → store.State → Type 0
  Deletes m s =
      m.is_on_cloud ≡ true
      → (s' : store.State) × (store.delete_object (generate_object_key m.buffer_path) s ≡ ok s')

  deleted :
      (on : Bool) (key : Str) (s : store.State)
      → (on ≡ true → (s' : store.State) × (store.delete_object key s ≡ ok s'))
      → (s' : store.State) × ((if on then store.delete_object key s else ok s) ≡ ok s')
  deleted true key s deletes = deletes refl
  deleted false key s deletes = (s, refl)

  -- A file that is closed, with the bytes that the next session has.
  abbrev pub Closed : Str → Str → Bytes → Controller store threshold → Type 0
  Closed main_path buffer_path bs c =
      (m : MainFile) × (b : Buffer) × (inode_of main_path c.disk ≡ some (regular_file m))
      × (m.buffer_path ≡ buffer_path)
      × (lookup str_dec buffer_path c.disk.buffers ≡ some b)
      × (b.size ≡ length bs)
      × (fetched store threshold m b c ≡ bs)

  save-Closed :
      (main_path : Str) (m : MainFile) (bs : Bytes) (c : Controller store threshold)
      → inode_of main_path c.disk ≡ some (regular_file m)
      → Deletes m c.objects
      → (c' : Controller store threshold) × (save store threshold main_path m bs c ≡ ok c')
        × Closed main_path m.buffer_path bs c'
  unfolding save
  save-Closed main_path m bs c there deletes =
      let key = generate_object_key m.buffer_path in
      let stays : (m' : MainFile) (b : Buffer)
          → inode_of main_path (set_buffer m.buffer_path b (set_main main_path m' c.disk))
            ≡ some (regular_file m') =
        λ m' b.
          inode_of-set_buffer main_path m.buffer_path b (set_main main_path m' c.disk)
          ∙ inode_of-set_main main_path m m' c.disk there in
      elim (Bool-cases (ltb threshold (length bs))) [
        | inl large ↦ (
          uploaded store threshold main_path m bs c,
          rw large refl,
          (
            record m { is_on_cloud = true },
            record { size = length bs; content = [] },
            stays _ _,
            refl,
            lookup-insert_self str_dec m.buffer_path _
                (set_main main_path (record m { is_on_cloud = true }) c.disk).buffers,
            refl,
            store.download_file-upload_file key bs c.objects,
          ),
        )
        | inr small ↦
            let (s, eq) = deleted m.is_on_cloud key c.objects deletes in
            (
              kept store threshold main_path m bs s c,
              rw (small, eq, ◌>>=◌) refl,
              (
                record m { is_on_cloud = false },
                record { size = length bs; content = bs },
                stays _ _,
                refl,
                lookup-insert_self str_dec m.buffer_path _
                    (set_main main_path (record m { is_on_cloud = false }) c.disk).buffers,
                refl,
                refl,
              ),
            )
      ]

  put_back-Closed :
      (main_path : Str) (m : MainFile) (bs : Bytes) (c : Controller store threshold)
      → inode_of main_path c.disk ≡ some (regular_file m)
      → (m.is_on_cloud ≡ true
          → store.download_file (generate_object_key m.buffer_path) c.objects ≡ bs)
      → Closed main_path m.buffer_path bs (put_back store threshold m bs c)
  unfolding put_back
  put_back-Closed main_path m bs c there synced =
      let local = if m.is_on_cloud then [] else bs in
      let b : Buffer = record { size = length bs; content = local } in
      (
        m,
        b,
        inode_of-set_buffer main_path m.buffer_path b c.disk ∙ there,
        refl,
        lookup-insert_self str_dec m.buffer_path b c.disk.buffers,
        refl,
        elim (Bool-cases m.is_on_cloud) [ inl on ↦ rw on (synced on) | inr off ↦ rw off refl ],
      )

  abbrev changed : ℕ → Buffer → Controller store threshold → Bool
  changed fd b c = is_dirty fd c.open_files || not (length b.content == b.size)

  close_eq :
      (ssd_path path : Str) (fd : ℕ) (m : MainFile) (b : Buffer) (c c' : Controller store threshold)
      → inode_of (ssd_path ++ path) c.disk ≡ some (regular_file m)
      → lookup ℕ_discrete fd c.descriptors ≡ some m.buffer_path
      → lookup str_dec m.buffer_path c.disk.buffers ≡ some b
      → (let left : Controller store threshold = record c {
        descriptors = erase ℕ_discrete fd c.descriptors;
      } in
          (if changed fd b c
            then save store threshold (ssd_path ++ path) m b.content left
            else ok (put_back store threshold m b.content left))
          ≡ ok c')
      → close_file store threshold ssd_path path fd c
        ≡ ok (record c' { open_files = erase ℕ_discrete fd c'.open_files })
  unfolding close_file
  close_eq ssd_path path fd m b c c' there named buffer eq =
      rw (there, named, buffer, ◌>>=◌, eq) refl

  -- The bytes of an open file are in the cloud too, if it has not changed and its object is there.
  abbrev pub Synced : ℕ → MainFile → Buffer → Controller store threshold → Type 0
  Synced fd m b c =
      changed fd b c ≡ false
      → m.is_on_cloud ≡ true
      → store.download_file (generate_object_key m.buffer_path) c.objects ≡ b.content

  pub close_file-Closed :
      (ssd_path path : Str) (fd : ℕ) (m : MainFile) (b : Buffer) (c : Controller store threshold)
      → inode_of (ssd_path ++ path) c.disk ≡ some (regular_file m)
      → lookup ℕ_discrete fd c.descriptors ≡ some m.buffer_path
      → lookup str_dec m.buffer_path c.disk.buffers ≡ some b
      → Deletes m c.objects
      → Synced fd m b c
      → (c' : Controller store threshold) × (close_file store threshold ssd_path path fd c ≡ ok c')
        × Closed (ssd_path ++ path) m.buffer_path b.content c'
  close_file-Closed ssd_path path fd m b c there named buffer deletes synced =
      let left : Controller store threshold = record c {
        descriptors = erase ℕ_discrete fd c.descriptors;
      } in
      elim (Bool-cases (changed fd b c)) [
        | inl dirty ↦
            let (c1, eq, closed) = save-Closed (ssd_path ++ path) m b.content left there deletes in
            (
              record c1 { open_files = erase ℕ_discrete fd c1.open_files },
              close_eq ssd_path path fd m b c c1 there named buffer (rw dirty eq),
              closed,
            )
        | inr clean ↦
            let c1 = put_back store threshold m b.content left in
            (
              record c1 { open_files = erase ℕ_discrete fd c1.open_files },
              close_eq ssd_path path fd m b c c1 there named buffer (rw clean refl),
              put_back-Closed (ssd_path ++ path) m b.content left there (synced clean),
            )
      ]
