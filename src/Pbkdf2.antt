-- ===== src/Pbkdf2.antt =====
-- frontend/src/password.h: `hmac_sha256` and `pbkdf2_sha256`.
pub mod Length
use Prim.Native.Nat.{bit_xor}
use ncloud.Common.{
  ℕ, zero, suc, ◌+◌, ◌-◌, ◌/◌, ◌%◌, ◌^◌, [], ◌∷◌, ◌++◌, Bytes, length, take, replicate, ltb,
  if◌then◌else◌, map,
}
use ncloud.Sha256.{digest_size, block_size, reset, update, final, sha256, big_endian}

-- The key, filled up with zeros to a block.
key_block : Bytes → Bytes
key_block key =
    let short = if ltb block_size (length key) then sha256 key else key in
    short ++ replicate (block_size - length short) 0

unfoldable pub hmac_sha256 : Bytes → Bytes → Bytes
unfolding key_block
hmac_sha256 key msg =
    let ipad = map (λ b. bit_xor b 0x36) (key_block key) in
    let opad = map (λ b. bit_xor b 0x5c) (key_block key) in
    let inner = final (update msg (update ipad reset)) in final (update inner (update opad reset))

-- `acc[j] ^= u[j]` for each byte of `acc`.
pub xor_into : Bytes → Bytes → Bytes
xor_into [] u = []
xor_into (a ∷ acc) [] = a ∷ acc
xor_into (a ∷ acc) (b ∷ u) = bit_xor a b ∷ xor_into acc u

-- The rounds behind the first, with `u` and `acc`.
pub iterate : ℕ → Bytes → Bytes → Bytes → Bytes
unfolding xor_into
iterate zero pw u acc = acc
iterate (suc n) pw u acc = let v = hmac_sha256 pw u in iterate n pw v (xor_into acc v)

-- One block of the key.
pub derive_block : Bytes → Bytes → ℕ → ℕ → Bytes
unfolding iterate
derive_block pw salt iterations index =
    let u = hmac_sha256 pw (salt ++ big_endian 4 index) in iterate (iterations - 1) pw u u

-- The loop, with the bytes that are still wanted; each round gives at least one of them.
pub derive : ℕ → Bytes → Bytes → ℕ → ℕ → ℕ → Bytes
unfolding derive_block
derive zero pw salt iterations index wanted = []
derive (suc fuel) pw salt iterations index zero = []
derive (suc fuel) pw salt iterations index (suc wanted) =
    let block = derive_block pw salt iterations index in
    take (suc wanted) block
    ++ derive fuel pw salt iterations ((index + 1) % 2 ^ 32) (suc wanted - digest_size)

unfoldable pub pbkdf2_sha256 : Bytes → Bytes → ℕ → ℕ → Bytes
unfolding derive
pbkdf2_sha256 password salt iterations out_len = derive out_len password salt iterations 1 out_len
