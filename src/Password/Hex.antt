-- ===== src/Password/Hex.antt =====
-- Hexadecimal text gives its bytes back.
use ncloud.Common.{
  ℕ, ◌*◌, ◌/◌, ◌%◌, ◌<◌, ◌≡◌, refl, ap, some, [], ◌∷◌, Bytes, length, All, arith, ◌==◌, false,
}
use ncloud.Password.{to_hex, from_hex, hex_digit, hex_value}

abbrev pub IsByte : ℕ → Type 0
IsByte b = b < 256

hex_value-hex_digit : (v : ℕ) → v < 16 → hex_value (hex_digit v) ≡ some v
unfolding hex_value hex_digit
hex_value-hex_digit v h = ground arith

-- Bytes are read back from their hexadecimal text.
pub from_hex-to_hex : (s : Bytes) → All IsByte s → from_hex (to_hex s) ≡ some s
unfolding from_hex to_hex
from_hex-to_hex [] h = refl
from_hex-to_hex (b ∷ s) h =
    rw
      (
        hex_value-hex_digit (b / 16 % 16) (omega arith),
        hex_value-hex_digit (b % 16) (omega arith),
        from_hex-to_hex s h.1,
      )
      (ap (λ n. some (n ∷ s)) (omega (arith, h.0)))

pub length-to_hex : (s : Bytes) → length (to_hex s) ≡ 2 * length s
unfolding to_hex
length-to_hex [] = refl
length-to_hex (b ∷ s) = omega (arith, length-to_hex s)

hex_digit-ne-dollar : (v : ℕ) → (hex_digit v == 36) ≡ false
unfolding hex_digit
hex_digit-ne-dollar v = ground arith

pub to_hex-ne-dollar : (s : Bytes) → All (λ c. (c == 36) ≡ false) (to_hex s)
unfolding to_hex
to_hex-ne-dollar [] = tt
to_hex-ne-dollar (b ∷ s) =
    (hex_digit-ne-dollar (b / 16 % 16), (hex_digit-ne-dollar (b % 16), to_hex-ne-dollar s))
