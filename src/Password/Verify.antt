-- ===== src/Password/Verify.antt =====
-- A password is accepted for the credential that was stored for it.
use ncloud.Common.{
  ℕ, ◌/◌, ◌^◌, ◌≤◌, ◌<◌, ◌≡◌, refl, ap, ◌∙◌, some, [], ◌∷◌, ◌++◌, Bytes, length, All, true, false,
  ltb, ◌==◌, arith,
}
use ncloud.Common.Search.{split_first-append, starts_with}
use ncloud.Common.Decimal.{to_string}
use ncloud.Common.Decimal.Printed.{to_string-IsDigit, IsDigit, read_unsigned-to_string_only}
use ncloud.Pbkdf2.{pbkdf2_sha256}
use ncloud.Pbkdf2.Length.{length-pbkdf2_sha256}
use ncloud.Password.{
  to_hex, hash_password, is_hashed, verify_password, parse_iterations, field, nonempty, parse_body,
  check_key, pbkdf2_iterations, derived_key_bytes,
}
use ncloud.Password.Hex.{IsByte, from_hex-to_hex, length-to_hex, to_hex-ne-dollar}
use ncloud.Password.Compare.{constant_time_equals_self}

digits-ne-dollar : (s : Bytes) → All IsDigit s → All (λ c. (c == 36) ≡ false) s
digits-ne-dollar [] h = tt
digits-ne-dollar (c ∷ s) h = (ground (arith, h.0), digits-ne-dollar s h.1)

field-append :
    (xs ys : Bytes) → All (λ c. (c == 36) ≡ false) xs → field (xs ++ (36 ∷ ys)) ≡ some (xs, ys)
unfolding field
field-append xs ys h = rw (split_first-append 36 xs ys h) refl

nonempty-some : (s : Bytes) → 0 < length s → nonempty s ≡ some s
unfolding nonempty
nonempty-some [] h = absurd (omega arith)
nonempty-some (b ∷ s) h = refl

parse_iterations-to_string :
    (n : ℕ) → 0 < n → n ≤ 10000000 → parse_iterations (to_string n) ≡ some n
unfolding parse_iterations
parse_iterations-to_string n pos h =
    rw (read_unsigned-to_string_only (2 ^ 64) n (omega arith) (omega arith)) (ground arith)

module _ (salt key : Bytes) (iterations : ℕ) where
  parse_body_lem :
      All IsByte salt
      → 0 < length salt
      → 0 < length key
      → 0 < iterations
      → iterations ≤ 10000000
      → parse_body (to_string iterations ++ (36 ∷ (to_hex salt ++ (36 ∷ to_hex key))))
        ≡ some (iterations, salt, to_hex key)
  unfolding parse_body
  parse_body_lem bytes long wide pos small =
      rw
        (
          field-append (to_string iterations) (to_hex salt ++ (36 ∷ to_hex key))
              (digits-ne-dollar (to_string iterations) (to_string-IsDigit iterations)),
          field-append (to_hex salt) (to_hex key) (to_hex-ne-dollar salt),
          parse_iterations-to_string iterations pos small,
          from_hex-to_hex salt bytes,
          nonempty-some salt long,
          nonempty-some (to_hex key) (omega (arith, length-to_hex key)),
          length-to_hex key,
        )
        (ground arith)

check_key_lem :
    (password salt : Bytes) (iterations : ℕ)
    → check_key password
        (some (iterations, salt, to_hex (pbkdf2_sha256 password salt iterations derived_key_bytes)))
      ≡ (true, ltb iterations pbkdf2_iterations)
unfolding check_key
check_key_lem password salt iterations =
    let key = pbkdf2_sha256 password salt iterations derived_key_bytes in
    let n : length (to_hex key) / 2 ≡ derived_key_bytes =
      omega (arith, length-to_hex key, length-pbkdf2_sha256 password salt iterations 32) in
    rw n (rw (constant_time_equals_self (to_hex key)) refl)

-- The credential that is stored for a password is accepted with that password, for any salt that is
-- not empty and any number of iterations that a credential may have; it is to be stored again
-- exactly if its iterations are fewer than those of today.
pub verify_password-hash_password :
    (password salt : Bytes) (iterations : ℕ)
    → All IsByte salt
    → 0 < length salt
    → 0 < iterations
    → iterations ≤ 10000000
    → verify_password password (hash_password password iterations (some salt))
      ≡ (true, ltb iterations pbkdf2_iterations)
unfolding verify_password hash_password is_hashed starts_with
verify_password-hash_password password salt iterations bytes long pos small =
    ap (check_key password) (
      parse_body_lem salt (pbkdf2_sha256 password salt iterations derived_key_bytes) iterations
        bytes long (omega (arith, length-pbkdf2_sha256 password salt iterations derived_key_bytes))
        pos small)
    ∙ check_key_lem password salt iterations
