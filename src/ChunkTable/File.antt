-- ===== src/ChunkTable/File.antt =====
-- The chunk table in a file: what `persist` writes the constructor reads back.
use cloud_file_system.Base.{ℕ, suc, ◌^◌, ◌<◌, ◌≡◌, refl, sym, ◌∙◌, [], ◌∷◌, ◌++◌, some, length, ap}
use mathlib.Core.List.{append_assoc, append-nil}
use cloud_file_system.Base.Dict.{insert, NodupKeys, lookup_before, insert_new}
use cloud_file_system.Base.Outcome.{ok}
use cloud_file_system.Bytes.{Bytes, Str, str_dec, put_size, put_int, put_str, get_size, get_bytes}
use cloud_file_system.Bytes.RoundTrip.{get_size-put_size, get_str-put_str, get_int-put_int, IsInt}
use cloud_file_system.ChunkTable.{RefCounts, Table, put_entries, persist, load_entries, load}

-- Every length fits a `size_t`, and every count an `int`.
abbrev pub EntriesFit : Table → Type 0
EntriesFit [] = Unit
EntriesFit (e ∷ t) =
    (length e.0 < 2 ^ 64) × IsInt e.1.ref_count × IsInt e.1.snapshot_ref_count × EntriesFit t

abbrev pub Fits : Table → Type 0
Fits t = (length t < 2 ^ 64) × EntriesFit t

load_entries_step :
    (e : Str × RefCounts) (n : ℕ) (rest : Bytes) (t : Table)
    → (length e.0 < 2 ^ 64)
    → IsInt e.1.ref_count
    → IsInt e.1.snapshot_ref_count
    → load_entries
        (suc n)
        (put_str e.0 ++ (put_int e.1.ref_count ++ (put_int e.1.snapshot_ref_count ++ rest)))
        t
      ≡ load_entries n rest (insert str_dec e.0 e.1 t)
unfolding load_entries
load_entries_step e n rest t short i j =
    rw
      (
        get_str-put_str e.0 (put_int e.1.ref_count ++ (put_int e.1.snapshot_ref_count ++ rest))
            short,
        get_int-put_int e.1.ref_count (put_int e.1.snapshot_ref_count ++ rest) i,
        get_int-put_int e.1.snapshot_ref_count rest j,
        load_entries,
      )
      refl

load_entries-put_entries :
    (t done : Table)
    → EntriesFit t
    → NodupKeys str_dec (done ++ t)
    → load_entries (length t) (put_entries t) done ≡ ok (done ++ t)
unfolding put_entries load_entries
load_entries-put_entries [] done fit u = ap ok (sym (append-nil done))
load_entries-put_entries (e ∷ t) done fit u =
    let same = append_assoc done (e ∷ []) t in
    let u' : NodupKeys str_dec ((done ++ (e ∷ [])) ++ t) = rw same u in
    load_entries_step e (length t) (put_entries t) done fit.0 fit.1 fit.2
    ∙ rw (insert_new str_dec e.0 e.1 done (lookup_before str_dec e.0 e.1 done t u))
        (load_entries-put_entries t (done ++ (e ∷ [])) fit.3 u' ∙ ap ok same)

load-get_size :
    (bs rest : Bytes) (n : ℕ) → get_size bs ≡ some (n, rest) → load bs ≡ load_entries n rest []
unfolding load get_size get_bytes
load-get_size [] rest n h = cc
load-get_size (b ∷ bs) rest n h = rw (h, load) refl

-- A table that `persist` writes is the table that the constructor reads, where the keys are distinct
-- and the counts and lengths fit their types.
pub load-persist :
    (t : Table) (bs : Bytes) → NodupKeys str_dec t → Fits t → persist t ≡ some bs → load bs ≡ ok t
unfolding persist
load-persist [] bs u fit h = cc
load-persist (e ∷ t) bs u fit h =
    let all = put_entries (e ∷ t) in
    let n = length (e ∷ t) in
    let same : put_size n ++ all ≡ bs = cc in
    rw (sym same) (
      load-get_size (put_size n ++ all) all n (get_size-put_size n all fit.0)
      ∙ load_entries-put_entries (e ∷ t) [] fit.1 u)
