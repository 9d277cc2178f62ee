-- ===== src/Bloom.antt =====
-- kvstore/src/bloom.h: the filter over row keys. The bit array `bits_` is a function from the byte's
-- index to the byte; every index that the filter uses is below `byte_count`.
pub mod Laws
pub mod File
mod Table
use Prim.Native.Nat.{bit_or, bit_xor}
use ncloud.Common.{
  ℕ, zero, suc, ◌+◌, ◌-◌, ◌*◌, ◌/◌, ◌%◌, ◌^◌, ◌≤◌, ◌<◌, [], ◌∷◌, Bytes, Bool, true, false, ◌&&◌,
  ltb, leb, ◌==◌, if◌then◌else◌, min, length,
}

abbrev pub bit_count : ℕ
bit_count = 2097152

abbrev pub byte_count : ℕ
byte_count = bit_count / 8

abbrev pub BitArray : Type 0
BitArray = ℕ → ℕ

abbrev pub empty_bits : BitArray
empty_bits _ = 0

-- `bits_[pos / 8] |= 1u << (pos % 8)`
unfoldable pub set_bit : BitArray → ℕ → BitArray
set_bit bits pos i = if i == pos / 8 then bit_or (bits i) (2 ^ (pos % 8)) else bits i

-- `(bits_[pos / 8] >> (pos % 8)) & 1u`
unfoldable pub get_bit : BitArray → ℕ → Bool
get_bit bits pos = (bits (pos / 8) / 2 ^ (pos % 8)) % 2 == 1

-- The three hashes run over `uint64_t`, which wraps.
abbrev u64 : ℕ
u64 = 2 ^ 64

djb2_loop : ℕ → Bytes → ℕ
djb2_loop h [] = h
djb2_loop h (c ∷ s) = djb2_loop (((h * 2 ^ 5) % u64 + h + c) % u64) s

djb2 : Bytes → ℕ
unfolding djb2_loop
djb2 s = djb2_loop 5381 s

fnv1a_loop : ℕ → Bytes → ℕ
fnv1a_loop h [] = h
fnv1a_loop h (c ∷ s) = fnv1a_loop ((bit_xor h c * 1099511628211) % u64) s

fnv1a : Bytes → ℕ
unfolding fnv1a_loop
fnv1a s = fnv1a_loop 14695981039346656037 s

sdbm_loop : ℕ → Bytes → ℕ
sdbm_loop h [] = h
sdbm_loop h (c ∷ s) = sdbm_loop ((c + (h * 2 ^ 6) % u64 + (h * 2 ^ 16) % u64 + u64 - h) % u64) s

sdbm : Bytes → ℕ
unfolding sdbm_loop
sdbm s = sdbm_loop 0 s

hash : Bytes → ℕ → ℕ
unfolding djb2 fnv1a sdbm
hash key seed = if seed == 0 then djb2 key else if seed == 1 then fnv1a key else sdbm key

-- The loops `for (int i = 0; i < NHASH; ++i)` over the rounds that are left.
add_loop : ℕ → ℕ → BitArray → Bytes → BitArray
unfolding set_bit hash
add_loop zero i bits key = bits
add_loop (suc n) i bits key = add_loop n (i + 1) (set_bit bits (hash key i % bit_count)) key

pub may_contain_loop : ℕ → ℕ → BitArray → Bytes → Bool
unfolding get_bit hash
may_contain_loop zero i bits key = true
may_contain_loop (suc n) i bits key =
    let rest = may_contain_loop n (i + 1) bits key in
    if get_bit bits (hash key i % bit_count) then rest else false

abbrev hash_count : ℕ
hash_count = 3

unfoldable pub add : BitArray → Bytes → BitArray
unfolding add_loop
add bits key = add_loop hash_count 0 bits key

unfoldable pub may_contain : BitArray → Bytes → Bool
unfolding may_contain_loop
may_contain bits key = may_contain_loop hash_count 0 bits key

-- The bytes `i`, `i + 1`, … of the array, `n` of them.
write_bytes : ℕ → ℕ → BitArray → Bytes
write_bytes zero i bits = []
write_bytes (suc n) i bits = bits i ∷ write_bytes n (i + 1) bits

pub serialize : BitArray → Bytes
serialize bits = write_bytes byte_count 0 bits

abbrev byte_or_zero : Bytes → ℕ → ℕ
byte_or_zero [] i = 0
byte_or_zero (b ∷ s) zero = b
byte_or_zero (b ∷ s) (suc i) = byte_or_zero s i

-- The array is zeroed and then filled with what the file still holds; the result says whether that
-- was all of it.
pub deserialize : Bytes → BitArray × Bool
deserialize s = ((λ i. if ltb i byte_count then byte_or_zero s i else 0), leb byte_count (length s))
