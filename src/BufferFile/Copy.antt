-- ===== src/BufferFile/Copy.antt =====
-- The loops that copy between a cached file and the file of a user, a buffer at a time.
use cloud_file_system.Base.{
  ℕ, zero, suc, ◌+◌, ◌-◌, ◌^◌, ◌≤◌, ◌<◌, min, ◌≡◌, refl, sym, ◌∙◌, ap, List, [], ◌∷◌, ◌++◌, length,
  take, drop, take_all, length-take, length-drop, arith,
}
use mathlib.Core.List.{append_assoc, append-nil}
use cloud_file_system.Base.Outcome.{ok}
use cloud_file_system.Bytes.{Bytes, write_at, read_at}
use cloud_file_system.Bytes.RoundTrip.{write_at-write_at}
use cloud_file_system.BufferFile.{read_size, copy_out, copy_in, mem_buffer_len}

suc_add : (m n : ℕ) → suc m + n ≡ suc (m + n)
suc_add m n = omega arith

module _ {ℓ} {A : Type ℓ} where
  take-add : (m n : ℕ) (xs : List A) → take (m + n) xs ≡ take m xs ++ take n (drop m xs)
  take-add zero n xs = ground arith
  take-add (suc m) zero [] = rw (suc_add m 0) refl
  take-add (suc m) (suc n) [] = rw (suc_add m (suc n)) refl
  take-add (suc m) n (x ∷ xs) = rw (suc_add m n) (ap (λ r. x ∷ r) (take-add m n xs))

  drop-add : (m n : ℕ) (xs : List A) → drop (m + n) xs ≡ drop n (drop m xs)
  drop-add zero n xs = ground arith
  drop-add (suc m) zero [] = rw (suc_add m 0) refl
  drop-add (suc m) (suc n) [] = rw (suc_add m (suc n)) refl
  drop-add (suc m) n (x ∷ xs) = rw (suc_add m n) (drop-add m n xs)

-- The buffer of a round that is not the last is not empty.
read_size_lem :
    (left : ℕ)
    → 0 < left
    → left < 2 ^ 31
    → (len : ℕ) × (read_size left ≡ ok len) × (0 < len) × (len ≤ left)
read_size_lem left more small =
    (min left (mem_buffer_len + 1), ground arith, omega arith, omega arith)

-- Of a file that is long enough, the read gives as much as was asked for.
pub length-read_at :
    (len offset : ℕ) (file : Bytes)
    → offset + len ≤ length file
    → length (read_at len offset file) ≡ len
length-read_at len offset file h =
    omega (arith, length-take len (drop offset file), length-drop offset file)

copy_out_stop :
    (n size cnt : ℕ) (cached : Bytes) (offset : ℕ) (file : Bytes)
    → size ≤ cnt
    → copy_out n size cnt cached offset file ≡ ok file
unfolding copy_out
copy_out_stop zero size cnt cached offset file h = ground arith
copy_out_stop (suc n) size cnt cached offset file h = ground arith

copy_out_round :
    (n size cnt len : ℕ) (cached : Bytes) (offset : ℕ) (file : Bytes)
    → cnt < size
    → read_size (size - cnt) ≡ ok len
    → length (read_at len cnt cached) ≡ len
    → copy_out (suc n) size cnt cached offset file
      ≡ copy_out n size
          (cnt + len)
          cached
          offset
          (write_at (offset + cnt) (read_at len cnt cached) file)
unfolding copy_out
copy_out_round n size cnt len cached offset file more eq full = ground arith

write_at_nothing : (offset : ℕ) (file : Bytes) → write_at offset [] file ≡ file
unfolding write_at
write_at_nothing zero file = refl
write_at_nothing (suc n) file = refl

read_at-add :
    (m n cnt : ℕ) (file : Bytes)
    → read_at (m + n) cnt file ≡ read_at m cnt file ++ read_at n (cnt + m) file
read_at-add m n cnt file = rw (drop-add cnt m file) (take-add m n (drop cnt file))

-- Two writes of neighbouring pieces of a file.
write_at-read_at :
    (m n cnt offset : ℕ) (cached file : Bytes)
    → length (read_at m cnt cached) ≡ m
    → write_at
        (offset + (cnt + m))
        (read_at n (cnt + m) cached)
        (write_at (offset + cnt) (read_at m cnt cached) file)
      ≡ write_at (offset + cnt) (read_at (m + n) cnt cached) file
write_at-read_at m n cnt offset cached file full =
    let there : offset + (cnt + m) ≡ offset + cnt + length (read_at m cnt cached) =
      omega (arith, full) in
    rw (there, read_at-add m n cnt cached)
      (write_at-write_at (offset + cnt) (read_at m cnt cached) (read_at n (cnt + m) cached) file)

-- With as many rounds as there are bytes left, the loop writes the rest of the cached file.
pub copy_out_lem :
    (n left size cnt : ℕ) (cached : Bytes) (offset : ℕ) (file : Bytes)
    → size < 2 ^ 31
    → size ≤ length cached
    → cnt + left ≡ size
    → left ≤ n
    → copy_out n size cnt cached offset file
      ≡ ok (write_at (offset + cnt) (read_at left cnt cached) file)
copy_out_lem n zero size cnt cached offset file small long h fuel =
    copy_out_stop n size cnt cached offset file (omega (arith, h))
    ∙ ap ok (sym (write_at_nothing (offset + cnt) file))
copy_out_lem zero (suc l) size cnt cached offset file small long h fuel =
    absurd (omega (arith, fuel))
copy_out_lem (suc n) (suc l) size cnt cached offset file small long h fuel =
    let (len, eq, some_bytes, within) =
      read_size_lem (size - cnt) (omega (arith, h)) (omega arith) in
    let full = length-read_at len cnt cached (omega (arith, h, long, within)) in
    let next = write_at (offset + cnt) (read_at len cnt cached) file in
    let rest : suc l ≡ len + (suc l - len) = omega (arith, h, within) in
    copy_out_round n size cnt len cached offset file (omega (arith, h)) eq full
    ∙ copy_out_lem n (suc l - len) size (cnt + len) cached offset next small long
        (omega (arith, h, within)) (omega (arith, fuel, some_bytes))
    ∙ ap ok (
        write_at-read_at len (suc l - len) cnt offset cached file full
        ∙ ap (λ m. write_at (offset + cnt) (read_at m cnt cached) file) (sym rest))

copy_in_stop :
    (n size cnt : ℕ) (file : Bytes) (offset : ℕ) (cached : Bytes)
    → size ≤ cnt
    → copy_in n size cnt file offset cached ≡ ok cached
unfolding copy_in
copy_in_stop zero size cnt file offset cached h = ground arith
copy_in_stop (suc n) size cnt file offset cached h = ground arith

copy_in_round :
    (n size cnt len : ℕ) (file : Bytes) (offset : ℕ) (cached : Bytes)
    → cnt < size
    → read_size (size - cnt) ≡ ok len
    → length (read_at len (offset + cnt) file) ≡ len
    → copy_in (suc n) size cnt file offset cached
      ≡ copy_in n size (cnt + len) file offset (cached ++ read_at len (offset + cnt) file)
unfolding copy_in
copy_in_round n size cnt len file offset cached more eq full = ground arith

-- With as many rounds as there are bytes left, the loop appends the piece of the file.
pub copy_in_lem :
    (n left size cnt : ℕ) (file : Bytes) (offset : ℕ) (cached : Bytes)
    → size < 2 ^ 31
    → offset + size ≤ length file
    → cnt + left ≡ size
    → left ≤ n
    → copy_in n size cnt file offset cached ≡ ok (cached ++ read_at left (offset + cnt) file)
copy_in_lem n zero size cnt file offset cached small long h fuel =
    copy_in_stop n size cnt file offset cached (omega (arith, h)) ∙ ap ok (sym (append-nil cached))
copy_in_lem zero (suc l) size cnt file offset cached small long h fuel =
    absurd (omega (arith, fuel))
copy_in_lem (suc n) (suc l) size cnt file offset cached small long h fuel =
    let (len, eq, some_bytes, within) =
      read_size_lem (size - cnt) (omega (arith, h)) (omega arith) in
    let full = length-read_at len (offset + cnt) file (omega (arith, h, long, within)) in
    let now = read_at len (offset + cnt) file in
    let left = suc l - len in
    let rest : len + left ≡ suc l = omega (arith, h, within) in
    let there : offset + cnt + len ≡ offset + (cnt + len) = omega arith in
    copy_in_round n size cnt len file offset cached (omega (arith, h)) eq full
    ∙ copy_in_lem n left size (cnt + len) file offset (cached ++ now) small long
        (omega (arith, h, within)) (omega (arith, fuel, some_bytes))
    ∙ ap ok (
        append_assoc cached now (read_at left (offset + (cnt + len)) file)
        ∙ ap (λ r. cached ++ r)
            (rw (there, rest) at (sym (read_at-add len left (offset + cnt) file))))

plus_zero : (n : ℕ) → n + 0 ≡ n
plus_zero n = omega arith

-- From the start, the loops copy the whole object.
pub copy_in_all :
    (size : ℕ) (file : Bytes) (offset : ℕ)
    → size < 2 ^ 31
    → offset + size ≤ length file
    → copy_in size size 0 file offset [] ≡ ok (read_at size offset file)
copy_in_all size file offset small long =
    rw (plus_zero offset) at
      (copy_in_lem size size size 0 file offset [] small long (omega arith) (omega arith))

pub copy_out_all :
    (size : ℕ) (cached : Bytes) (offset : ℕ) (file : Bytes)
    → size < 2 ^ 31
    → length cached ≡ size
    → copy_out size size 0 cached offset file ≡ ok (write_at offset cached file)
copy_out_all size cached offset file small len =
    rw (plus_zero offset, take_all size cached len) at
      (copy_out_lem size size size 0 cached offset file small (omega (arith, len)) (omega arith)
        (omega arith))
