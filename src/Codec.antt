-- ===== src/Codec.antt =====
-- The little-endian integers and counted byte runs of kvstore/src/tablet.cc, lines 13 to 78. A
-- stream or a blob being read is the list of its unread bytes; a read answers `none` where the
-- source returns false. The `|` of shifted bytes is a sum, since the bytes do not overlap.
pub mod Laws
use ncloud.Common.{
  ℕ, zero, suc, ◌+◌, ◌*◌, ◌/◌, ◌%◌, ◌^◌, Option, none, some, [], ◌∷◌, ◌++◌, Bytes, length, take,
  drop, ltb, if◌then◌else◌, ◌>>=◌,
}

-- `static_cast<uint32_t>` of a size.
abbrev pub cast_u32 : ℕ → ℕ
cast_u32 n = n % 2 ^ 32

-- The loop of `write_u64_le`: byte `i` is `v >> (8 * i)`, cut to eight bits.
unfoldable pub le_bytes : ℕ → ℕ → Bytes
le_bytes zero v = []
le_bytes (suc n) v = (v % 256) ∷ le_bytes n (v / 256)

-- The loop of `read_u64_le`.
unfoldable pub le_value : Bytes → ℕ
le_value [] = 0
le_value (b ∷ bs) = b + 256 * le_value bs

unfoldable pub write_u32_le : ℕ → Bytes
write_u32_le v = le_bytes 4 v

unfoldable pub write_u64_le : ℕ → Bytes
write_u64_le v = le_bytes 8 v

-- `in.read(p, n)` with the test that all `n` bytes came.
unfoldable pub read_exact : ℕ → Bytes → Option (Bytes × Bytes)
read_exact n s = if ltb (length s) n then none else some (take n s, drop n s)

unfoldable pub read_u32_le : Bytes → Option (ℕ × Bytes)
read_u32_le s = read_exact 4 s >>= λ r. some (le_value r.0, r.1)

unfoldable pub read_u64_le : Bytes → Option (ℕ × Bytes)
read_u64_le s = read_exact 8 s >>= λ r. some (le_value r.0, r.1)

unfoldable pub read_byte : Bytes → Option (ℕ × Bytes)
read_byte [] = none
read_byte (b ∷ s) = some (b, s)

-- A length and that many bytes, as the key and value fields of every format are laid out.
unfoldable pub write_field : Bytes → Bytes
write_field s = write_u32_le (cast_u32 (length s)) ++ s

unfoldable pub read_field : Bytes → Option (Bytes × Bytes)
read_field s = read_u32_le s >>= λ r. read_exact r.0 r.1
