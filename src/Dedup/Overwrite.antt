-- ===== src/Dedup/Overwrite.antt =====
-- A write that reaches into some of the bytes of a file, and the size of the file after it.
use cloud_file_system.Base.{
  ℕ, zero, suc, ◌+◌, ◌-◌, ◌≤◌, ◌<◌, ◌≡◌, refl, ap, ◌∙◌, ◌⊎◌, inl, inr, max, [], ◌∷◌, ◌++◌, length,
  arith,
}
use mathlib.Core.List.{append-nil}
use cloud_file_system.Bytes.{Bytes, write_at}
use cloud_file_system.Dedup.Splice.{InPlace, write_at_middle}

write_at_after :
    (a r n : Bytes) (k offset : ℕ)
    → offset ≡ length a + k
    → 0 < length n
    → write_at offset n (a ++ r) ≡ a ++ write_at k n r
unfolding write_at
write_at_after [] r n k offset at_k full = ap (λ i. write_at i n r) (omega (arith, at_k))
write_at_after (c ∷ a) r [] k offset at_k full = ground (arith, full)
write_at_after (c ∷ a) r (x ∷ n) k zero at_k full = ground (arith, at_k)
write_at_after (c ∷ a) r (x ∷ n) k (suc offset) at_k full =
    ap (λ y. c ∷ y) (write_at_after a r (x ∷ n) k offset (omega (arith, at_k)) full)

write_at_within :
    (k : ℕ) (n m b : Bytes) → k + length n ≤ length m → write_at k n (m ++ b) ≡ write_at k n m ++ b
unfolding write_at
write_at_within k [] m b h = refl
write_at_within zero (x ∷ n) [] b h = ground (arith, h)
write_at_within (suc k) (x ∷ n) [] b h = ground (arith, h)
write_at_within zero (x ∷ n) (c ∷ m) b h =
    ap (λ y. x ∷ y) (write_at_within zero n m b (omega (arith, h)))
write_at_within (suc k) (x ∷ n) (c ∷ m) b h =
    ap (λ y. c ∷ y) (write_at_within k (x ∷ n) m b (omega (arith, h)))

-- Where a write starts in the middle of three parts of a file, and does not reach the last of them or
-- this is empty, it is a write to the middle part.
pub write_at_part :
    (a m b n : Bytes) (k offset : ℕ)
    → offset ≡ length a + k
    → 0 < length n
    → (b ≡ []) ⊎ (k + length n ≤ length m)
    → write_at offset n (a ++ (m ++ b)) ≡ a ++ (write_at k n m ++ b)
write_at_part a m b n k offset at_k full (inl empty) =
    write_at_after a (m ++ b) n k offset at_k full
    ∙ ap (λ x. a ++ x) (rw (empty, append-nil m, append-nil (write_at k n m)) refl)
write_at_part a m b n k offset at_k full (inr within) =
    write_at_after a (m ++ b) n k offset at_k full
    ∙ ap (λ x. a ++ x) (write_at_within k n m b within)

length-write_at_front : (n m : Bytes) → length (write_at 0 n m) ≡ max (length m) (length n)
unfolding write_at
length-write_at_front [] m = omega arith
length-write_at_front (x ∷ n) [] = omega arith
length-write_at_front (x ∷ n) (c ∷ m) = omega (arith, length-write_at_front n m)

-- The length after a write of some bytes.
pub length-write_at :
    (k : ℕ) (n m : Bytes) → 0 < length n → length (write_at k n m) ≡ max (length m) (k + length n)
unfolding write_at
length-write_at zero n m full = omega (arith, length-write_at_front n m)
length-write_at (suc k) [] m full = ground (arith, full)
length-write_at (suc k) (x ∷ n) [] full = omega (arith, length-write_at k (x ∷ n) [] full)
length-write_at (suc k) (x ∷ n) (c ∷ m) full = omega (arith, length-write_at k (x ∷ n) m full)

writes-InPlace :
    (n m b : Bytes) (end : ℕ)
    → length n ≡ max (length m) end
    → (b ≡ []) ⊎ (end ≤ length m)
    → InPlace n m b
writes-InPlace n m b end len (inl empty) = inr (empty, omega (arith, len))
writes-InPlace n m b end len (inr within) = inl (omega (arith, len, within))

-- A write to the middle part of a file, which is then written over the file: together they are the
-- write to the file.
pub write_at_through :
    (a m b buf : Bytes) (offset : ℕ)
    → length a ≤ offset
    → 0 < length buf
    → (b ≡ []) ⊎ (offset + length buf ≤ length a + length m)
    → (write_at offset buf (a ++ (m ++ b)) ≡ a ++ (write_at (offset - length a) buf m ++ b))
      × (write_at (length a) (write_at (offset - length a) buf m) (a ++ (m ++ b))
          ≡ a ++ (write_at (offset - length a) buf m ++ b))
write_at_through a m b buf offset low full reaches =
    let k = offset - length a in
    let reaches' : (b ≡ []) ⊎ (k + length buf ≤ length m) = elim reaches [
      | inl empty ↦ inl empty
      | inr to ↦ inr (omega (arith, to, low))
    ] in
    (
      write_at_part a m b buf k offset (omega (arith, low)) full reaches',
      write_at_middle (write_at k buf m) a m b (
          writes-InPlace (write_at k buf m) m b (k + length buf) (length-write_at k buf m full)
            reaches'),
    )
