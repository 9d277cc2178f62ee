-- ===== src/Tests/Password.antt =====
-- The hashes of frontend/src/password.h at published vectors, and stored credentials.
use ncloud.Common.{◌≡◌, ◌↔◌, refl, some, [], ◌∷◌, Bytes, codes, true, ltb, arith}
use ncloud.Sha256.{sha256, transform}
use ncloud.Password.{constant_time_equals, hash_password, verify_password, pbkdf2_iterations}
use ncloud.Password.Compare.{constant_time_equals_iff}
use ncloud.Password.Verify.{verify_password-hash_password}

abbrev salt : Bytes
salt = codes "saltsaltsaltsalt"

-- The first bytes of the digest of `abc`.
sha256_abc :
    sha256 (codes "abc")
    ≡ 0xba ∷ 0x78 ∷ 0x16 ∷ 0xbf ∷ 0x8f ∷ 0x01 ∷ 0xcf ∷ 0xea ∷ 0x41 ∷ 0x41 ∷ 0x40 ∷ 0xde ∷ 0x5d
      ∷ 0xae ∷ 0x22 ∷ 0x23 ∷ 0xb0 ∷ 0x03 ∷ 0x61 ∷ 0xa3 ∷ 0x96 ∷ 0x17 ∷ 0x7a ∷ 0x9c ∷ 0xb4 ∷ 0x10
      ∷ 0xff ∷ 0x61 ∷ 0xf2 ∷ 0x00 ∷ 0x15 ∷ 0xad ∷ []
unfolding sha256 transform
sha256_abc = refl

constant_time_equals_iff_example :
    (constant_time_equals (codes "secret") (codes "secreT") ≡ true)
    ↔ (codes "secret" ≡ codes "secreT")
constant_time_equals_iff_example =
    constant_time_equals_iff (codes "secret") (codes "secreT") (omega arith) (omega arith)

verify_password-hash_password_example :
    verify_password (codes "hunter2") (hash_password (codes "hunter2") 1000 (some salt))
    ≡ (true, ltb 1000 pbkdf2_iterations)
verify_password-hash_password_example =
    verify_password-hash_password (codes "hunter2") salt 1000 (omega arith) (omega arith)
      (omega arith) (omega arith)
