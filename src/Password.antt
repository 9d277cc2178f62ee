-- ===== src/Password.antt =====
-- frontend/src/password.h: hexadecimal text, the comparison of two texts, and stored credentials.
-- The bytes of `/dev/urandom` are an argument, `none` where they cannot be read.
pub mod Hex
pub mod Compare
pub mod Verify
use Prim.Native.Nat.{bit_or, bit_xor}
use ncloud.Common.{
  ℕ, zero, suc, ◌+◌, ◌-◌, ◌*◌, ◌/◌, ◌%◌, ◌^◌, Option, none, some, [], ◌∷◌, ◌++◌, Bytes, codes,
  bytes_eq, length, replicate, drop, Bool, true, false, not, ◌&&◌, ◌||◌, ltb, leb, ◌==◌,
  if◌then◌else◌, ◌>>=◌,
}
use ncloud.Common.Decimal.{to_string, read_unsigned}
use ncloud.Common.Search.{starts_with, split_first}
use ncloud.Sha256.{sha256, digest_size}
use ncloud.Pbkdf2.{hmac_sha256, pbkdf2_sha256}

unfoldable pub hex_digit : ℕ → ℕ
hex_digit v = if ltb v 10 then 48 + v else 87 + v

unfoldable pub to_hex : Bytes → Bytes
unfolding hex_digit
to_hex [] = []
to_hex (b ∷ s) = hex_digit (b / 16 % 16) ∷ hex_digit (b % 16) ∷ to_hex s

hex_value : ℕ → Option ℕ
hex_value c =
    if leb b'0' c && leb c b'9'
    then some (c - b'0')
    else if leb b'a' c && leb c b'f'
    then some (c - b'a' + 10)
    else if leb b'A' c && leb c b'F'
    then some (c - b'A' + 10)
    else none

-- A text of odd length is refused before it is read; here its last character is.
pub from_hex : Bytes → Option Bytes
unfolding hex_value
from_hex [] = some []
from_hex (c ∷ []) = none
from_hex (c ∷ d ∷ s) = do
  hi ← hex_value c
  lo ← hex_value d
  rest ← from_hex s
  some ((hi * 16 + lo) ∷ rest)

-- `diff` over the bytes that both have, and then over those of the longer alone.
unfoldable pub mix : ℕ → Bytes → Bytes → ℕ
mix diff [] [] = diff
mix diff [] (b ∷ bs) = mix (bit_or diff b) [] bs
mix diff (a ∷ rest) [] = mix (bit_or diff a) rest []
mix diff (a ∷ rest) (b ∷ bs) = mix (bit_or diff (bit_xor a b)) rest bs

unfoldable pub constant_time_equals : Bytes → Bytes → Bool
unfolding mix
constant_time_equals a b = mix (bit_xor (length a) (length b) % 2 ^ 32) a b == 0

abbrev pub pbkdf2_iterations : ℕ
pbkdf2_iterations = 120000

abbrev pub salt_bytes : ℕ
salt_bytes = 16

abbrev pub derived_key_bytes : ℕ
derived_key_bytes = 32

abbrev pub hash_prefix : Bytes
hash_prefix = codes "pbkdf2_sha256$"

unfoldable pub hash_with : Bytes → ℕ → Option Bytes → Bytes
unfolding to_hex
hash_with password iterations none = []
hash_with password iterations (some salt) =
    hash_prefix
    ++ (to_string iterations
        ++ (b'$'
            ∷ (to_hex salt
                ++ (b'$' ∷ to_hex (pbkdf2_sha256 password salt iterations derived_key_bytes)))))

unfoldable pub hash_password : Bytes → ℕ → Option Bytes → Bytes
unfolding hash_with
hash_password password iterations random = hash_with password iterations random

unfoldable pub is_hashed : Bytes → Bool
is_hashed stored = starts_with hash_prefix stored

-- `std::stoul`, within the bounds that are accepted.
parse_iterations : Bytes → Option ℕ
parse_iterations text = do
  (parsed, rest) ← read_unsigned (2 ^ 64) text
  if parsed == 0 || ltb 10000000 parsed then none else some parsed

-- The text up to the next `$`, and behind it.
field : Bytes → Option (Bytes × Bytes)
field text = do
  let found : Bytes × Option Bytes = split_first b'$' text
  behind ← found.1
  some (found.0, behind)

nonempty : Bytes → Option Bytes
nonempty [] = none
nonempty (b ∷ s) = some (b ∷ s)

-- The parts of a credential behind its prefix: iterations, salt, and the key's text.
parse_body : Bytes → Option (ℕ × Bytes × Bytes)
unfolding parse_iterations field nonempty
parse_body body = do
  (count, behind) ← field body
  (salt_hex, expected_hex) ← field behind
  iterations ← parse_iterations count
  salt ← from_hex salt_hex
  salt' ← nonempty salt
  expected ← nonempty expected_hex
  if length expected % 2 == 0 then some (iterations, salt', expected) else none

-- The result, and `needs_rehash`.
check_key : Bytes → Option (ℕ × Bytes × Bytes) → Bool × Bool
check_key password none = (false, false)
check_key password (some (iterations, salt, expected)) =
    let ok =
      constant_time_equals (to_hex (pbkdf2_sha256 password salt iterations (length expected / 2)))
        expected in
    (ok, ok && ltb iterations pbkdf2_iterations)

check_plain : Bytes → Bytes → Bool × Bool
check_plain password stored = let ok = constant_time_equals password stored in (ok, ok)

unfoldable pub verify_password : Bytes → Bytes → Bool × Bool
unfolding parse_body check_key check_plain
verify_password password [] = (false, false)
verify_password password (c ∷ s) =
    if is_hashed (c ∷ s)
    then check_key password (parse_body (drop (length hash_prefix) (c ∷ s)))
    else check_plain password (c ∷ s)
