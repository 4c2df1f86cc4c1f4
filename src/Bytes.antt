-- ===== src/Bytes.antt =====
-- `std::string`, and the binary files that `fwrite` and `fread` write and read: numbers in little
-- endian order, strings behind their length.
pub mod RoundTrip
use cloud_file_system.Base.{
  ℕ, zero, suc, ◌+◌, ◌-◌, ◌*◌, ◌/◌, ◌%◌, ◌^◌, List, [], ◌∷◌, ◌++◌, Option, none, some, ℕ_discrete,
  ◌≡◌, refl, length, take, drop, ltb, if◌then◌else◌,
}
use cloud_file_system.Base.Int.{ℤ, pos, negsuc}

abbrev pub Bytes : Type 0
Bytes = List ℕ

abbrev pub Str : Type 0
Str = List ℕ

unfoldable pub str_dec : Discrete Str
unfolding ℕ_discrete
str_dec = hlevel ℕ_discrete

-- The low `n` bytes of a number, the lowest first.
unfoldable pub le_bytes : ℕ → ℕ → Bytes
le_bytes zero v = []
le_bytes (suc n) v = (v % 256) ∷ le_bytes n (v / 256)

unfoldable pub from_le : Bytes → ℕ
from_le [] = 0
from_le (b ∷ bs) = b + 256 * from_le bs

-- `fwrite(&v, sizeof(size_t), 1, file)`; `off_t` and `unsigned long` are as wide.
unfoldable pub put_size : ℕ → Bytes
put_size v = le_bytes 8 v

-- `fwrite(&v, sizeof(int), 1, file)`, in two's complement.
unfoldable pub put_int : ℤ → Bytes
put_int (pos n) = le_bytes 4 n
put_int (negsuc n) = le_bytes 4 (2 ^ 32 - 1 - n)

-- A length and then the characters.
unfoldable pub put_str : Str → Bytes
put_str s = put_size (length s) ++ s

-- Reading moves on through the rest of a file. `none` is a read past its end, which the source does
-- not test: its variable then has no value.
abbrev pub Reader : Type 0 → Type 0
Reader A = Bytes → Option (A × Bytes)

infixl 5 ◌>>=◌
abbrev pub ◌>>=◌ : {A B : Type 0} → Reader A → (A → Reader B) → Reader B
◌>>=◌ m f bs = elim (m bs) [ none ↦ none | some (a, rest) ↦ f a rest ]

-- A step that reads `a` goes on with it.
pub >>=-eq_of_some :
    {A B : Type 0} (m : Reader A) (f : A → Reader B) {bs rest : Bytes} {a : A}
    → m bs ≡ some (a, rest)
    → (m >>= f) bs ≡ f a rest
>>=-eq_of_some m f h = rw (h, ◌>>=◌)

abbrev pub pure : {A : Type 0} → A → Reader A
pure a bs = some (a, bs)

-- `fread(buf, 1, n, file)`.
unfoldable pub get_bytes : ℕ → Reader Bytes
get_bytes zero = pure []
get_bytes (suc n) = λ bs. elim bs [
  | [] ↦ none
  | b ∷ rest ↦ elim (get_bytes n rest) [ none ↦ none | some (r, after) ↦ some (b ∷ r, after) ]
]

unfoldable pub get_size : Reader ℕ
get_size = do bs ← get_bytes 8; pure (from_le bs)

abbrev int_of : ℕ → ℤ
int_of v = if ltb v (2 ^ 31) then pos v else negsuc (2 ^ 32 - 1 - v)

unfoldable pub get_int : Reader ℤ
get_int = do bs ← get_bytes 4; pure (int_of (from_le bs))

unfoldable pub get_str : Reader Str
get_str = do n ← get_size; get_bytes n

-- `fseek(file, n, SEEK_CUR)`. A seek past the end of a file is allowed.
unfoldable pub skip_bytes : ℕ → Reader (Unit {0})
skip_bytes zero = pure tt
skip_bytes (suc n) = λ bs. elim bs [ [] ↦ some (tt, []) | _ ∷ rest ↦ skip_bytes n rest ]

-- `pwrite(fd, bs, length bs, offset)`: a gap behind the end is filled with zeros, and a write of
-- nothing changes nothing.
unfoldable pub write_at : ℕ → Bytes → Bytes → Bytes
write_at offset [] file = file
write_at zero (b ∷ bs) [] = b ∷ bs
write_at zero (b ∷ bs) (_ ∷ file) = b ∷ write_at zero bs file
write_at (suc n) (b ∷ bs) [] = 0 ∷ write_at n (b ∷ bs) []
write_at (suc n) (b ∷ bs) (c ∷ file) = c ∷ write_at n (b ∷ bs) file

-- What `pread(fd, _, n, offset)` reads: less than `n` bytes at the end of the file.
abbrev pub read_at : ℕ → ℕ → Bytes → Bytes
read_at n offset file = take n (drop offset file)
