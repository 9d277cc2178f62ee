-- ===== src/Common/Bits.antt =====
-- When an exclusive or, and an inclusive or, of two numbers is zero.
use Prim.Native.Nat.{
  ℕ, zero, suc, ◌*◌, ◌/◌, ◌%◌, ◌≤◌, ◌<◌, max, bit_or, bit_xor, digits, differ, bit_or-bitwise,
  bit_xor-bitwise,
}
use mathlib.Core.Path.{◌≡◌, refl, ◌∙◌, sym, subst}
use native.Mathlib.Omega.{arith}

differ-eq-zero : (x y : ℕ) → differ x y ≡ 0 → x ≡ y
differ-eq-zero zero y h = sym h
differ-eq-zero (suc x) zero h = absurd (omega arith)
differ-eq-zero (suc x) (suc y) h = omega (arith, differ-eq-zero x y h)

differ_self : (x : ℕ) → differ x x ≡ 0
differ_self zero = refl
differ_self (suc x) = differ_self x

xor_digits : (n a b : ℕ) → a ≤ n → digits (λ c. c) differ n a b ≡ 0 → a ≡ b
xor_digits zero a b le h = omega arith
xor_digits (suc n) zero b le h = sym h
xor_digits (suc n) (suc a) b le h = omega (
  arith,
  xor_digits n (suc a / 2) (b / 2) (omega arith) (omega arith),
  differ-eq-zero (suc a % 2) (b % 2) (omega arith),
)

xor_digits_self : (n a : ℕ) → a ≤ n → digits (λ c. c) differ n a a ≡ 0
xor_digits_self zero a le = omega arith
xor_digits_self (suc n) zero le = refl
xor_digits_self (suc n) (suc a) le =
    omega (arith, xor_digits_self n (suc a / 2) (omega arith), differ_self (suc a % 2))

or_digits : (n a b : ℕ) → a ≤ n → digits (λ c. c) max n a b ≡ 0 → (a ≡ 0) × (b ≡ 0)
or_digits zero a b le h = (omega arith, h)
or_digits (suc n) zero b le h = (refl, h)
or_digits (suc n) (suc a) b le h =
    let half = or_digits n (suc a / 2) (b / 2) (omega arith) (omega arith) in
    absurd (omega (arith, half.0))

pub bit_xor-eq-zero : (a b : ℕ) → bit_xor a b ≡ 0 → a ≡ b
bit_xor-eq-zero a b h = xor_digits a a b (omega arith) (sym (bit_xor-bitwise a b) ∙ h)

pub bit_xor_self : (a : ℕ) → bit_xor a a ≡ 0
bit_xor_self a = bit_xor-bitwise a a ∙ xor_digits_self a a (omega arith)

pub bit_or-eq-zero : (a b : ℕ) → bit_or a b ≡ 0 → (a ≡ 0) × (b ≡ 0)
bit_or-eq-zero a b h = or_digits a a b (omega arith) (sym (bit_or-bitwise a b) ∙ h)

-- Powers of two, one factor at a time.
abbrev pub pow2 : ℕ → ℕ
pow2 zero = 1
pow2 (suc k) = 2 * pow2 k

differ-le : (x y : ℕ) → differ x y ≤ max x y
differ-le zero y = omega arith
differ-le (suc x) zero = omega arith
differ-le (suc x) (suc y) = omega (arith, differ-le x y)

xor_digits-lt : (n k a b : ℕ) → a < pow2 k → b < pow2 k → digits (λ c. c) differ n a b < pow2 k
xor_digits-lt zero k a b la lb = lb
xor_digits-lt (suc n) k zero b la lb = lb
xor_digits-lt (suc n) zero (suc a) b la lb = absurd (omega arith)
xor_digits-lt (suc n) (suc k) (suc a) b la lb = omega (
  arith,
  xor_digits-lt n k (suc a / 2) (b / 2) (omega arith) (omega arith),
  differ-le (suc a % 2) (b % 2),
)

pub bit_xor-lt : (k a b : ℕ) → a < pow2 k → b < pow2 k → bit_xor a b < pow2 k
bit_xor-lt k a b la lb =
    subst (λ n. n < pow2 k) (sym (bit_xor-bitwise a b)) (xor_digits-lt a k a b la lb)
