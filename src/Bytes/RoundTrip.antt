-- ===== src/Bytes/RoundTrip.antt =====
-- What is written is what is read back.
use cloud_file_system.Base.{
  ℕ, zero, suc, ◌+◌, ◌-◌, ◌*◌, ◌/◌, ◌^◌, ◌<◌, [], ◌∷◌, ◌++◌, some, ◌≡◌, refl, ◌∙◌, arith, length,
  ap,
}
use cloud_file_system.Base.Int.{ℤ, pos, negsuc}
use cloud_file_system.Bytes.{
  Bytes, Str, le_bytes, from_le, put_size, put_int, put_str, get_bytes, get_size, get_int, get_str,
  skip_bytes, write_at, >>=-eq_of_some,
}
use mathlib.Core.List.{append_assoc}
use native.Mathlib.Nat.{pow-suc}

length-le_bytes : (n v : ℕ) → length (le_bytes n v) ≡ n
unfolding le_bytes
length-le_bytes zero v = refl
length-le_bytes (suc n) v = omega (arith, length-le_bytes n (v / 256))

from_le-le_bytes : (n v : ℕ) → v < 256 ^ n → from_le (le_bytes n v) ≡ v
unfolding le_bytes from_le
from_le-le_bytes zero v h = omega arith
from_le-le_bytes (suc n) v h =
    let p : v < 256 ^ n * 256 = rw pow-suc at h in
    omega (arith, from_le-le_bytes n (v / 256) (omega arith))

pub get_bytes-append : (s rest : Bytes) → get_bytes (length s) (s ++ rest) ≡ some (s, rest)
unfolding get_bytes
get_bytes-append [] rest = refl
get_bytes-append (b ∷ s) rest = rw (get_bytes-append s rest)

pub skip_bytes-append : (s rest : Bytes) → skip_bytes (length s) (s ++ rest) ≡ some (tt, rest)
unfolding skip_bytes
skip_bytes-append [] rest = refl
skip_bytes-append (b ∷ s) rest = skip_bytes-append s rest

get_le : (n v : ℕ) (rest : Bytes) → get_bytes n (le_bytes n v ++ rest) ≡ some (le_bytes n v, rest)
get_le n v rest = rw (length-le_bytes n v) at (get_bytes-append (le_bytes n v) rest)

pub get_size-put_size :
    (v : ℕ) (rest : Bytes) → v < 2 ^ 64 → get_size (put_size v ++ rest) ≡ some (v, rest)
unfolding get_size put_size
get_size-put_size v rest h =
    >>=-eq_of_some (get_bytes 8) _ (get_le 8 v rest) ∙ rw (from_le-le_bytes 8 v h)

-- An `int` of 32 bits.
abbrev pub IsInt : ℤ → Type 0
IsInt (pos n) = n < 2 ^ 31
IsInt (negsuc n) = n < 2 ^ 31

pub get_int-put_int :
    (v : ℤ) (rest : Bytes) → IsInt v → get_int (put_int v ++ rest) ≡ some (v, rest)
unfolding get_int put_int
get_int-put_int (pos n) rest h =
    >>=-eq_of_some (get_bytes 4) _ (get_le 4 n rest)
    ∙ rw (from_le-le_bytes 4 n (omega arith)) (ground arith)
get_int-put_int (negsuc n) rest h =
    >>=-eq_of_some (get_bytes 4) _ (get_le 4 (2 ^ 32 - 1 - n) rest)
    ∙ rw (from_le-le_bytes 4 (2 ^ 32 - 1 - n) (omega arith)) (ground arith)

pub get_str-put_str :
    (s : Str) (rest : Bytes) → length s < 2 ^ 64 → get_str (put_str s ++ rest) ≡ some (s, rest)
unfolding get_str put_str
get_str-put_str s rest h =
    >>=-eq_of_some get_size _ (rw append_assoc (get_size-put_size (length s) (s ++ rest) h))
    ∙ get_bytes-append s rest

pub skip_put_int : (v : ℤ) (rest : Bytes) → skip_bytes 4 (put_int v ++ rest) ≡ some (tt, rest)
unfolding put_int le_bytes skip_bytes
skip_put_int (pos n) rest = refl
skip_put_int (negsuc n) rest = refl

write_at-suc : (n c : ℕ) (b file : Bytes) → write_at (suc n) b (c ∷ file) ≡ c ∷ write_at n b file
unfolding write_at
write_at-suc n c [] file = ground arith
write_at-suc n c (x ∷ b) file = refl

write_at_step :
    (offset m c : ℕ) (b file : Bytes)
    → offset ≡ suc m
    → write_at offset b (c ∷ file) ≡ c ∷ write_at m b file
write_at_step offset m c b file h = rw h (write_at-suc m c b file)

pub write_at_new : (b : Bytes) → write_at 0 b [] ≡ b
unfolding write_at
write_at_new [] = refl
write_at_new (x ∷ b) = refl

-- To write two pieces behind each other is to write them at once.
pub write_at-write_at :
    (offset : ℕ) (a b file : Bytes)
    → write_at (offset + length a) b (write_at offset a file) ≡ write_at offset (a ++ b) file
unfolding write_at
write_at-write_at zero [] b file = ground arith
write_at-write_at (suc n) [] b file = ground arith
write_at-write_at zero (x ∷ a) b [] =
    write_at_step (0 + length (x ∷ a)) (0 + length a) x b a (omega arith)
    ∙ ap (λ r. x ∷ r) (rw (write_at_new a, write_at_new (a ++ b)) at (write_at-write_at 0 a b []))
write_at-write_at zero (x ∷ a) b (c ∷ file) =
    write_at_step (0 + length (x ∷ a)) (0 + length a) x b (write_at 0 a file) (omega arith)
    ∙ ap (λ r. x ∷ r) (write_at-write_at 0 a b file)
write_at-write_at (suc n) (x ∷ a) b [] =
    write_at_step (suc n + length (x ∷ a)) (n + length (x ∷ a)) 0 b (write_at n (x ∷ a) [])
      (omega arith)
    ∙ ap (λ r. 0 ∷ r) (write_at-write_at n (x ∷ a) b [])
write_at-write_at (suc n) (x ∷ a) b (c ∷ file) =
    write_at_step (suc n + length (x ∷ a)) (n + length (x ∷ a)) c b (write_at n (x ∷ a) file)
      (omega arith)
    ∙ ap (λ r. c ∷ r) (write_at-write_at n (x ∷ a) b file)
