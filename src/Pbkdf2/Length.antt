-- ===== src/Pbkdf2/Length.antt =====
-- The derived key has the length that is asked for, and so the loop fills `out` exactly.
use ncloud.Common.{
  ℕ, zero, suc, ◌+◌, ◌-◌, ◌%◌, ◌^◌, ◌≤◌, ◌≡◌, refl, [], ◌∷◌, Bytes, length, length-append, take,
  arith, ap, min, ◌∙◌,
}
use ncloud.Sha256.{digest_size}
use ncloud.Sha256.Blocks.{length-final}
use ncloud.Pbkdf2.{hmac_sha256, xor_into, iterate, derive_block, derive, pbkdf2_sha256}

length-hmac_sha256 : (key msg : Bytes) → length (hmac_sha256 key msg) ≡ digest_size
unfolding hmac_sha256
length-hmac_sha256 key msg = length-final _

length-xor_into : (acc u : Bytes) → length (xor_into acc u) ≡ length acc
unfolding xor_into
length-xor_into [] u = refl
length-xor_into (a ∷ acc) [] = refl
length-xor_into (a ∷ acc) (b ∷ u) = ap suc (length-xor_into acc u)

length-iterate : (n : ℕ) (pw u acc : Bytes) → length (iterate n pw u acc) ≡ length acc
unfolding iterate
length-iterate zero pw u acc = refl
length-iterate (suc n) pw u acc =
    length-iterate n pw _ (xor_into acc (hmac_sha256 pw u)) ∙ length-xor_into acc (hmac_sha256 pw u)

length-derive_block :
    (pw salt : Bytes) (iterations index : ℕ)
    → length (derive_block pw salt iterations index) ≡ digest_size
unfolding derive_block
length-derive_block pw salt iterations index =
    length-iterate (iterations - 1) pw _ _ ∙ length-hmac_sha256 pw _

length-take : (n : ℕ) (xs : Bytes) → length (take n xs) ≡ min n (length xs)
length-take zero xs = omega arith
length-take (suc n) [] = omega arith
length-take (suc n) (x ∷ xs) = omega (arith, length-take n xs)

length-derive :
    (fuel : ℕ) (pw salt : Bytes) (iterations index wanted : ℕ)
    → wanted ≤ fuel
    → length (derive fuel pw salt iterations index wanted) ≡ wanted
unfolding derive
length-derive zero pw salt iterations index wanted h = omega arith
length-derive (suc fuel) pw salt iterations index zero h = refl
length-derive (suc fuel) pw salt iterations index (suc wanted) h =
    let block = derive_block pw salt iterations index in
    let later = derive fuel pw salt iterations ((index + 1) % 2 ^ 32) (suc wanted - digest_size) in
    omega (
      arith,
      length-append (take (suc wanted) block) later,
      length-take (suc wanted) block,
      length-derive_block pw salt iterations index,
      length-derive fuel pw salt iterations ((index + 1) % 2 ^ 32) (suc wanted - digest_size),
    )

-- The derived key has the length that was asked for, whatever the password, salt and iterations.
pub length-pbkdf2_sha256 :
    (password salt : Bytes) (iterations out_len : ℕ)
    → length (pbkdf2_sha256 password salt iterations out_len) ≡ out_len
unfolding pbkdf2_sha256
length-pbkdf2_sha256 password salt iterations out_len =
    length-derive out_len password salt iterations 1 out_len (omega arith)
