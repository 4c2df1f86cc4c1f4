-- ===== src/FileController/Names.antt =====
-- The names that the controller makes: object keys have no slash, and the name of a buffer file is one
-- that directory listings and snapshots pass over.
use cloud_file_system.Base.{◌≡◌, ◌≢◌, refl, true, false, [], ◌∷◌, ◌++◌, length, arith}
use cloud_file_system.Bytes.{Str}
use cloud_file_system.Snapshot.Tree.{slash, dot, is_buffer_path}
use cloud_file_system.FileController.{generate_object_key, has_slash, main_path_to_buffer_path}

-- An object key has the length of its path and no slash.
pub generate_object_key_lem :
    (path : Str)
    → (length (generate_object_key path) ≡ length path)
      × (has_slash (generate_object_key path) ≡ false)
unfolding generate_object_key has_slash
generate_object_key_lem [] = (refl, refl)
generate_object_key_lem (c ∷ path) = ground (arith, generate_object_key_lem path)

has_slash-append : (dir name : Str) → has_slash (dir ++ (slash ∷ name)) ≡ true
unfolding has_slash
has_slash-append [] name = ground arith
has_slash-append (c ∷ dir) name = ground (arith, has_slash-append dir name)

dotted :
    (dir name : Str)
    → has_slash name ≡ false
    → main_path_to_buffer_path (dir ++ (slash ∷ name)) ≡ dir ++ (slash ∷ dot ∷ name)
unfolding has_slash main_path_to_buffer_path
dotted [] name h = ground (arith, h)
dotted (c ∷ dir) name h = ground (arith, has_slash-append dir name, dotted dir name h)

hidden : (name : Str) → name ≢ [] → name ≢ dot ∷ [] → is_buffer_path (dot ∷ name) ≡ true
unfolding is_buffer_path
hidden name full differ = ground (arith, full, differ)

-- The buffer path of a file is in the directory of the file, under its name behind a dot, and this
-- name is one of a buffer file, where the name of the file is not empty, is not a dot and has no slash.
pub main_path_to_buffer_path_lem :
    (dir name : Str)
    → has_slash name ≡ false
    → name ≢ []
    → name ≢ dot ∷ []
    → (main_path_to_buffer_path (dir ++ (slash ∷ name)) ≡ dir ++ (slash ∷ dot ∷ name))
      × (is_buffer_path (dot ∷ name) ≡ true)
main_path_to_buffer_path_lem dir name h full differ = (dotted dir name h, hidden name full differ)
