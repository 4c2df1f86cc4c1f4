-- ===== src/Snapshot/Format.antt =====
-- The entries of a snapshot file: directories, and files with their chunks, their size and, if they
-- are small, their content.
use cloud_file_system.Base.{
  ℕ, zero, suc, ◌%◌, ◌^◌, ◌≤◌, ◌<◌, ◌≡◌, refl, ◌∙◌, Bool, true, false, List, [], ◌∷◌, ◌++◌, Option,
  none, some, length, leb, ltb, if◌then◌else◌, arith,
}
use mathlib.Core.List.{append_assoc}
use cloud_file_system.Bytes.{
  Bytes, Str, put_size, put_str, get_size, get_str, get_bytes, Reader, ◌>>=◌, pure, >>=-eq_of_some,
}
use cloud_file_system.Bytes.RoundTrip.{get_bytes-append, get_size-put_size, get_str-put_str}

-- cloudfs/chunk_splitter.h
pub record Chunk : Type 0 where
  pub start : ℕ
  pub len : ℕ
  pub key : Str

-- The `struct stat` of the platform: its size, and the test `S_ISDIR`.
pub record Platform : Type 0 where
  pub sizeof_stat : ℕ
  pub is_dir : Bytes → Bool

-- An entry, with the bytes of its `struct stat`. The content of a large file is not there.
pub data Entry : Type 0 where
  directory : Bytes → Str → Entry
  regular : Bytes → Str → List Chunk → Str → ℕ → Option Bytes → Entry

abbrev pub put_chunk : Chunk → Bytes
put_chunk c = put_size c.start ++ (put_size c.len ++ put_str c.key)

unfoldable pub put_chunks : List Chunk → Bytes
put_chunks [] = []
put_chunks (c ∷ cs) = put_chunk c ++ put_chunks cs

abbrev pub content_bytes : Option Bytes → Bytes
content_bytes none = []
content_bytes (some bs) = bs

-- The `fwrite` calls of `create_snapshot` for one entry.
unfoldable pub put_entry : Entry → Bytes
put_entry (directory st path) = st ++ put_str path
put_entry (regular st path chunks buffer_path size content) =
    st
    ++ (put_str path
        ++ ((put_size (length chunks) ++ put_chunks chunks)
            ++ (put_str buffer_path ++ (put_size size ++ content_bytes content))))

unfoldable pub put_entries : List Entry → Bytes
put_entries [] = []
put_entries (e ∷ es) = put_entry e ++ put_entries es

unfoldable pub get_chunks : ℕ → Reader (List Chunk)
get_chunks zero = pure []
get_chunks (suc n) = do
  start ← get_size
  len ← get_size
  key ← get_str
  rest ← get_chunks n
  pure (record { start = start; len = len; key = key } ∷ rest)

-- `(int)file_size <= state_->threshold`.
abbrev pub is_small : ℕ → ℕ → Bool
is_small threshold size = let v = size % 2 ^ 32 in if ltb v (2 ^ 31) then leb v threshold else true

abbrev pub get_content : ℕ → ℕ → Reader (Option Bytes)
get_content threshold size = λ bs.
    if is_small threshold size
    then elim (get_bytes size bs) [ none ↦ none | some (c, rest) ↦ some (some c, rest) ]
    else some (none, bs)

unfoldable pub get_regular : ℕ → Bytes → Reader Entry
get_regular threshold st = do
  path ← get_str
  num_chunks ← get_size
  chunks ← get_chunks num_chunks
  buffer_path ← get_str
  size ← get_size
  content ← get_content threshold size
  pure (regular st path chunks buffer_path size content)

unfoldable pub get_directory : Bytes → Reader Entry
get_directory st = do path ← get_str; pure (directory st path)

-- The `fread` calls of `restore_snapshot` and `install_snapshot` for one entry.
unfoldable pub get_entry : Platform → ℕ → Reader Entry
get_entry platform threshold = do
  st ← get_bytes platform.sizeof_stat
  if platform.is_dir st then get_directory st else get_regular threshold st

unfoldable pub get_entries : Platform → ℕ → ℕ → Reader (List Entry)
get_entries platform threshold zero = pure []
get_entries platform threshold (suc n) = do
  e ← get_entry platform threshold
  es ← get_entries platform threshold n
  pure (e ∷ es)

abbrev pub ChunksFit : List Chunk → Type 0
ChunksFit [] = Unit
ChunksFit (c ∷ cs) = (c.start < 2 ^ 64) × (c.len < 2 ^ 64) × (length c.key < 2 ^ 64) × ChunksFit cs

-- The content is there exactly if the file is small, and all of it. A snapshot is made by the test of the
-- size, and read by the test of its low 32 bits as an `int`, so that the two tests must agree.
abbrev pub ContentFits : ℕ → ℕ → Option Bytes → Type 0
ContentFits threshold size none = threshold < size
ContentFits threshold size (some bs) = (length bs ≡ size) × (size ≤ threshold)

abbrev pub EntryFits : Platform → ℕ → Entry → Type 0
EntryFits platform threshold (directory st path) =
    (length st ≡ platform.sizeof_stat) × (platform.is_dir st ≡ true) × (length path < 2 ^ 64)
EntryFits platform threshold (regular st path chunks buffer_path size content) =
    (length st ≡ platform.sizeof_stat)
    × (platform.is_dir st ≡ false)
    × (length path < 2 ^ 64)
    × (length chunks < 2 ^ 64)
    × ChunksFit chunks
    × (length buffer_path < 2 ^ 64)
    × (size < 2 ^ 64)
    × (is_small threshold size ≡ leb size threshold)
    × ContentFits threshold size content

abbrev pub EntriesFit : Platform → ℕ → List Entry → Type 0
EntriesFit platform threshold [] = Unit
EntriesFit platform threshold (e ∷ es) =
    EntryFits platform threshold e × EntriesFit platform threshold es

pub get_chunks-put_chunks :
    (cs : List Chunk) (rest : Bytes)
    → ChunksFit cs
    → get_chunks (length cs) (put_chunks cs ++ rest) ≡ some (cs, rest)
unfolding get_chunks put_chunks
get_chunks-put_chunks [] rest fit = refl
get_chunks-put_chunks (c ∷ cs) rest fit =
    let tail = put_chunks cs ++ rest in
    rw
      (
        append_assoc (put_size c.start ++ (put_size c.len ++ put_str c.key)) (put_chunks cs) rest,
        append_assoc (put_size c.start) (put_size c.len ++ put_str c.key) tail,
        append_assoc (put_size c.len) (put_str c.key) tail,
      )
      (>>=-eq_of_some get_size _
          (get_size-put_size c.start (put_size c.len ++ (put_str c.key ++ tail)) fit.0)
        ∙ >>=-eq_of_some get_size _ (get_size-put_size c.len (put_str c.key ++ tail) fit.1)
        ∙ >>=-eq_of_some get_str _ (get_str-put_str c.key tail fit.2)
        ∙ >>=-eq_of_some (get_chunks (length cs)) _ (get_chunks-put_chunks cs rest fit.3))

get_content-content_bytes :
    (threshold size : ℕ) (content : Option Bytes) (rest : Bytes)
    → is_small threshold size ≡ leb size threshold
    → ContentFits threshold size content
    → get_content threshold size (content_bytes content ++ rest) ≡ some (content, rest)
get_content-content_bytes threshold size none rest same fit =
    let test : is_small threshold size ≡ false = same ∙ ground (arith, fit) in rw test refl
get_content-content_bytes threshold size (some bs) rest same fit =
    let test : is_small threshold size ≡ true = same ∙ ground (arith, fit.1) in
    let all : get_bytes size (bs ++ rest) ≡ some (bs, rest) =
      rw fit.0 at (get_bytes-append bs rest) in
    rw (test, all) refl

get_entry-put_entry :
    (platform : Platform) (threshold : ℕ) (e : Entry) (rest : Bytes)
    → EntryFits platform threshold e
    → get_entry platform threshold (put_entry e ++ rest) ≡ some (e, rest)
unfolding get_entry put_entry get_directory get_regular
get_entry-put_entry platform threshold (directory st path) rest fit =
    let all : get_bytes platform.sizeof_stat (st ++ (put_str path ++ rest))
        ≡ some (st, put_str path ++ rest) =
      rw fit.0 at (get_bytes-append st (put_str path ++ rest)) in
    rw (append_assoc st (put_str path) rest) (
      >>=-eq_of_some (get_bytes platform.sizeof_stat) _ all
      ∙ rw fit.1 (>>=-eq_of_some get_str _ (get_str-put_str path rest fit.2)))
get_entry-put_entry platform threshold (regular st path cs buffer_path size content) rest fit =
    let tail1 = put_str buffer_path ++ (put_size size ++ content_bytes content) in
    let tail2 = (put_size (length cs) ++ put_chunks cs) ++ tail1 in
    let end1 = put_size size ++ (content_bytes content ++ rest) in
    let end2 = put_str buffer_path ++ end1 in
    let end3 = put_size (length cs) ++ (put_chunks cs ++ end2) in
    let same : (st ++ (put_str path ++ tail2)) ++ rest ≡ st ++ (put_str path ++ end3) =
      rw
        (
          append_assoc st (put_str path ++ tail2) rest,
          append_assoc (put_str path) tail2 rest,
          append_assoc (put_size (length cs) ++ put_chunks cs) tail1 rest,
          append_assoc (put_str buffer_path) (put_size size ++ content_bytes content) rest,
          append_assoc (put_size size) (content_bytes content) rest,
          append_assoc (put_size (length cs)) (put_chunks cs) end2,
        )
        refl in
    let all : get_bytes platform.sizeof_stat (st ++ (put_str path ++ end3))
        ≡ some (st, put_str path ++ end3) =
      rw fit.0 at (get_bytes-append st (put_str path ++ end3)) in
    rw same (
      >>=-eq_of_some (get_bytes platform.sizeof_stat) _ all
      ∙ rw fit.1 (
          >>=-eq_of_some get_str _ (get_str-put_str path end3 fit.2)
          ∙ >>=-eq_of_some get_size _ (get_size-put_size (length cs) (put_chunks cs ++ end2) fit.3)
          ∙ >>=-eq_of_some (get_chunks (length cs)) _ (get_chunks-put_chunks cs end2 fit.4)
          ∙ >>=-eq_of_some get_str _ (get_str-put_str buffer_path end1 fit.5)
          ∙ >>=-eq_of_some get_size _ (get_size-put_size size (content_bytes content ++ rest) fit.6)
          ∙ >>=-eq_of_some (get_content threshold size) _
              (get_content-content_bytes threshold size content rest fit.7 fit.8)))

-- The entries that a snapshot writes are the entries that are read back, in their order, whatever
-- stands behind them, where lengths, counts and sizes are less than 2^64, exactly the files up to the
-- threshold have their content with them, and the test of the size as an `int` with which they are read
-- agrees with the test of the size with which they are written, as it does below 2^31.
pub get_entries-put_entries :
    (platform : Platform) (threshold : ℕ) (es : List Entry) (rest : Bytes)
    → EntriesFit platform threshold es
    → get_entries platform threshold (length es) (put_entries es ++ rest) ≡ some (es, rest)
unfolding get_entries put_entries
get_entries-put_entries platform threshold [] rest fit = refl
get_entries-put_entries platform threshold (e ∷ es) rest fit =
    rw (append_assoc (put_entry e) (put_entries es) rest) (
      >>=-eq_of_some (get_entry platform threshold) _
        (get_entry-put_entry platform threshold e (put_entries es ++ rest) fit.0)
      ∙ >>=-eq_of_some (get_entries platform threshold (length es)) _
          (get_entries-put_entries platform threshold es rest fit.1))
