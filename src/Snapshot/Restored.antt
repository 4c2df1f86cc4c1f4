-- ===== src/Snapshot/Restored.antt =====
-- The files after `restore_tree`.
use cloud_file_system.Base.{
  ℕ, ◌≡◌, ◌≢◌, refl, ◌∙◌, inl, inr, List, [], ◌∷◌, ◌++◌, Option, some, Option-cases,
}
use cloud_file_system.Base.Dict.{lookup, lookup-insert_self, lookup-insert_ne}
use cloud_file_system.Bytes.{Bytes, Str, str_dec}
use cloud_file_system.Snapshot.Format.{Chunk, Entry, directory, regular}
use cloud_file_system.Snapshot.Tree.{
  Ssd, Buffer, buffer_content, saved, make_dir, put_file, restore_entry, restore_tree,
}

-- No entry of a file has this path, or this path for its buffer file.
abbrev pub Absent : Str → List Entry → Type 0
Absent p [] = Unit
Absent p (directory st path ∷ es) = Absent p es
Absent p (regular st path chunks buffer_path size content ∷ es) = (p ≢ path) × Absent p es

abbrev pub AbsentBuffer : Str → List Entry → Type 0
AbsentBuffer p [] = Unit
AbsentBuffer p (directory st path ∷ es) = AbsentBuffer p es
AbsentBuffer p (regular st path chunks buffer_path size content ∷ es) =
    (p ≢ buffer_path) × AbsentBuffer p es

restore_tree-append :
    (xs ys : List Entry) (d : Ssd) → restore_tree (xs ++ ys) d ≡ restore_tree ys (restore_tree xs d)
unfolding restore_tree
restore_tree-append [] ys d = refl
restore_tree-append (x ∷ xs) ys d = restore_tree-append xs ys (restore_entry x d)

make_dir_files :
    (st : Bytes) (path : Str) (d : Ssd)
    → ((make_dir st path d).files ≡ d.files) × ((make_dir st path d).buffers ≡ d.buffers)
make_dir_files st path d = elim (Option-cases (lookup str_dec path d.directories)) [
  | inl new ↦ (rw (new, make_dir) refl, rw (new, make_dir) refl)
  | inr (old, there) ↦ (rw (there, make_dir) refl, rw (there, make_dir) refl)
]

pub restore_tree-Absent :
    (p : Str) (es : List Entry) (d : Ssd)
    → Absent p es
    → lookup str_dec p (restore_tree es d).files ≡ lookup str_dec p d.files
unfolding restore_tree restore_entry
restore_tree-Absent p [] d absent = refl
restore_tree-Absent p (directory st path ∷ es) d absent =
    restore_tree-Absent p es (make_dir st path d) absent ∙ rw ((make_dir_files st path d).0) refl
restore_tree-Absent p (regular st path chunks buffer_path size content ∷ es) d absent =
    restore_tree-Absent p es (put_file (saved st) path chunks buffer_path size content d) absent.1
    ∙ lookup-insert_ne str_dec p path
        (record { mode = saved st; chunkinfo = chunks; buffer_path = buffer_path }) d.files absent.0

pub restore_tree-AbsentBuffer :
    (p : Str) (es : List Entry) (d : Ssd)
    → AbsentBuffer p es
    → lookup str_dec p (restore_tree es d).buffers ≡ lookup str_dec p d.buffers
unfolding restore_tree restore_entry
restore_tree-AbsentBuffer p [] d absent = refl
restore_tree-AbsentBuffer p (directory st path ∷ es) d absent =
    restore_tree-AbsentBuffer p es (make_dir st path d) absent
    ∙ rw ((make_dir_files st path d).1) refl
restore_tree-AbsentBuffer p (regular st path chunks buffer_path size content ∷ es) d absent =
    restore_tree-AbsentBuffer p es (put_file (saved st) path chunks buffer_path size content d)
      absent.1
    ∙ lookup-insert_ne str_dec p buffer_path
        (record {
          size = size;
          content = buffer_content content (lookup str_dec buffer_path d.buffers);
        })
        d.buffers absent.0

-- A file that no later entry replaces is there, with its buffer file.
pub restore_tree_at :
    (before after : List Entry) (st : Bytes) (path : Str) (chunks : List Chunk) (buffer_path : Str)
    (size : ℕ) (content : Option Bytes) (d : Ssd)
    → Absent path after
    → AbsentBuffer buffer_path after
    → (let d' =
          restore_tree (before ++ (regular st path chunks buffer_path size content ∷ after)) d in
        (lookup str_dec path d'.files
          ≡ some (record { mode = saved st; chunkinfo = chunks; buffer_path = buffer_path }))
        × ((old : Option Buffer) × (lookup str_dec buffer_path d'.buffers
              ≡ some (record { size = size; content = buffer_content content old }))))
unfolding restore_tree restore_entry
restore_tree_at before after st path chunks buffer_path size content d absent absent_buffer =
    let e = regular st path chunks buffer_path size content in
    let d1 = restore_tree before d in
    let d2 = put_file (saved st) path chunks buffer_path size content d1 in
    let old = lookup str_dec buffer_path d1.buffers in
    rw (restore_tree-append before (e ∷ after) d) (
      restore_tree-Absent path after d2 absent ∙ lookup-insert_self str_dec path _ d1.files,
      (
        old,
        restore_tree-AbsentBuffer buffer_path after d2 absent_buffer
            ∙ lookup-insert_self str_dec buffer_path _ d1.buffers,
      ),
    )
