-- ===== src/Codec/Laws.antt =====
-- What is written is read back, with whatever follows it left unread.
use native.Mathlib.Nat.{pow-suc}
use ncloud.Common.{
  ℕ, zero, suc, ◌+◌, ◌*◌, ◌/◌, ◌^◌, ◌<◌, ◌≡◌, refl, ap, some, [], ◌∷◌, ◌++◌, append_assoc, Bytes,
  length, length-append, take-append_self, drop-append_self, ltb-false, arith, length-drop,
}
use ncloud.Codec.{
  cast_u32, le_bytes, le_value, write_u32_le, write_u64_le, read_exact, read_u32_le, read_u64_le,
  read_byte, write_field, read_field,
}

pub length-le_bytes : (n v : ℕ) → length (le_bytes n v) ≡ n
unfolding le_bytes
length-le_bytes zero v = refl
length-le_bytes (suc n) v = ap suc (length-le_bytes n (v / 256))

pub le_value-le_bytes : (n v : ℕ) → v < 256 ^ n → le_value (le_bytes n v) ≡ v
unfolding le_bytes le_value
le_value-le_bytes zero v h = omega arith
le_value-le_bytes (suc n) v h =
    let h' : v < 256 ^ n * 256 = rw pow-suc at h in
    omega (arith, le_value-le_bytes n (v / 256) (omega arith))

pub read_exact-append : (xs ys : Bytes) → read_exact (length xs) (xs ++ ys) ≡ some (xs, ys)
unfolding read_exact
read_exact-append xs ys =
    rw (ltb-false (length (xs ++ ys)) (length xs) (omega (arith, length-append xs ys)))
      (rw (take-append_self xs ys, drop-append_self xs ys))

-- The same with the count given by an equation.
pub read_exact_at :
    (n : ℕ) (xs ys : Bytes) → length xs ≡ n → read_exact n (xs ++ ys) ≡ some (xs, ys)
read_exact_at n xs ys e = rw (← e) (read_exact-append xs ys)

pub read_u32-write :
    (v : ℕ) (s : Bytes) → v < 2 ^ 32 → read_u32_le (write_u32_le v ++ s) ≡ some (v, s)
unfolding read_u32_le write_u32_le
read_u32-write v s h =
    rw (read_exact_at 4 (le_bytes 4 v) s (length-le_bytes 4 v)) (rw (le_value-le_bytes 4 v h))

pub read_u64-write :
    (v : ℕ) (s : Bytes) → v < 2 ^ 64 → read_u64_le (write_u64_le v ++ s) ≡ some (v, s)
unfolding read_u64_le write_u64_le
read_u64-write v s h =
    rw (read_exact_at 8 (le_bytes 8 v) s (length-le_bytes 8 v)) (rw (le_value-le_bytes 8 v h))

pub cast_u32_small : (n : ℕ) → n < 2 ^ 32 → cast_u32 n ≡ n
cast_u32_small n h = omega arith

pub read_field-write :
    (x s : Bytes) → length x < 2 ^ 32 → read_field (write_field x ++ s) ≡ some (x, s)
unfolding read_field write_field
read_field-write x s h =
    rw (cast_u32_small (length x) h, append_assoc)
      (rw (read_u32-write (length x) (x ++ s) h) (read_exact-append x s))

pub read_byte-cons : (b : ℕ) (s : Bytes) → read_byte (b ∷ s) ≡ some (b, s)
unfolding read_byte
read_byte-cons b s = refl

-- A read never lengthens what is left, and a counted read takes its count away.
pub read_exact-length :
    (n : ℕ) (s x r : Bytes) → read_exact n s ≡ some (x, r) → length r + n ≡ length s
unfolding read_exact
read_exact-length n s x r h = ground (arith, length-drop n s)

pub read_u32-length :
    (s : Bytes) (v : ℕ) (r : Bytes) → read_u32_le s ≡ some (v, r) → length r + 4 ≡ length s
unfolding read_u32_le read_exact
read_u32-length s v r h = ground (arith, length-drop 4 s)

pub read_u64-length :
    (s : Bytes) (v : ℕ) (r : Bytes) → read_u64_le s ≡ some (v, r) → length r + 8 ≡ length s
unfolding read_u64_le read_exact
read_u64-length s v r h = ground (arith, length-drop 8 s)

pub read_byte-length :
    (s : Bytes) (v : ℕ) (r : Bytes) → read_byte s ≡ some (v, r) → length r + 1 ≡ length s
unfolding read_byte
read_byte-length [] v r h = ground arith
read_byte-length (b ∷ s) v r h = ground arith
