-- ===== src/Common/Decimal/Ports.antt =====
-- A port that is written is read back.
use ncloud.Common.Text.{Bytes}
use ncloud.Common.Tests.{ltb, Bool-cases}
use ncloud.Common.Decimal.{
  to_string, is_digit, skip_space, read_digits, read_magnitude, read_unsigned, unsigned_port,
  signed_port, read_port,
}
use ncloud.Common.Decimal.Printed.{
  read_unsigned-to_string, to_string-digit, read_unsigned-digit, NoDigit,
}
use Prim.Native.Nat.{ℕ, ◌<◌, ◌^◌}
use mathlib.Core.Path.{◌≡◌, refl, sym, ap, ◌∙◌}
use mathlib.Core.Logic.{inl, inr}
use mathlib.Core.Bool.{true}
use mathlib.Core.Option.{none, some}
use mathlib.Core.List.{◌∷◌, ◌++◌}
use native.Mathlib.Omega.{arith}

read_port-digit :
    (c : ℕ) (s : Bytes) → is_digit c ≡ true → read_port (c ∷ s) ≡ unsigned_port (c ∷ s)
unfolding read_port signed_port skip_space
read_port-digit c s h = ground arith

unsigned_port-read_magnitude :
    (c n : ℕ) (s rest : Bytes)
    → is_digit c ≡ true
    → read_magnitude (2 ^ 31) (c ∷ s) ≡ some (n, rest)
    → unsigned_port (c ∷ s) ≡ (n, rest)
unfolding unsigned_port read_magnitude
unsigned_port-read_magnitude c n s rest h e =
    elim (Bool-cases (ltb (read_digits 0 (c ∷ s)).0 (2 ^ 31))) [
      | inl small ↦
          let read : read_magnitude (2 ^ 31) (c ∷ s) ≡ some (read_digits 0 (c ∷ s)) =
            rw (h, small, read_magnitude) refl in
          rw (h, small, unsigned_port) (cc (read, e))
      | inr large ↦
          let read : read_magnitude (2 ^ 31) (c ∷ s) ≡ none = rw (h, large, read_magnitude) refl in
          cc (read, e)
    ]

pub read_port-to_string :
    (n : ℕ) (s : Bytes) → n < 2 ^ 31 → NoDigit s → read_port (to_string n ++ s) ≡ (n, s)
read_port-to_string n s h f =
    let (c, t, e, d, m) = to_string-digit (2 ^ 31) n h (omega arith) in
    ap (λ x. read_port (x ++ s)) e
    ∙ read_port-digit c (t ++ s) d
    ∙ unsigned_port-read_magnitude c n (t ++ s) s d (
        sym (read_unsigned-digit (2 ^ 31) c (t ++ s) d)
        ∙ ap (λ x. read_unsigned (2 ^ 31) (x ++ s)) (sym e)
        ∙ read_unsigned-to_string (2 ^ 31) n s h (omega arith) f)
