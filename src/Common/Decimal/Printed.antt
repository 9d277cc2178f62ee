-- ===== src/Common/Decimal/Printed.antt =====
-- Numbers and words that are written are read back.
use ncloud.Common.Text.{Bytes}
use ncloud.Common.Tests.{ltb, Bool-cases, ltb→lt, lt→ltb}
use ncloud.Common.Lists.{All, All-append, length, length-append}
use ncloud.Common.Decimal.{
  digits, to_string, is_digit, is_space, skip_space, read_digits, read_magnitude, read_unsigned,
  read_until_space, word_found, extract, extract_word,
}
use Prim.Native.Nat.{ℕ, zero, suc, ◌+◌, ◌-◌, ◌*◌, ◌/◌, ◌%◌, ◌^◌, ◌≤◌, ◌<◌}
use mathlib.Core.Path.{◌≡◌, refl, sym, ap, ◌∙◌}
use mathlib.Core.Logic.{inl, inr}
use mathlib.Core.Bool.{true, false}
use mathlib.Core.Option.{some}
use mathlib.Core.List.{[], ◌∷◌, ◌++◌, append_assoc, append-nil}
use native.Mathlib.Omega.{arith}

-- The text has no digit in front.
abbrev pub NoDigit : Bytes → Type 0
NoDigit [] = Unit
NoDigit (c ∷ s) = is_digit c ≡ false

abbrev pow10 : ℕ → ℕ
pow10 zero = 1
pow10 (suc k) = 10 * pow10 k

read_digits-digit :
    (m d : ℕ) (s : Bytes) → d < 10 → read_digits m ((48 + d) ∷ s) ≡ read_digits (m * 10 + d) s
unfolding read_digits
read_digits-digit m d s h = let e : 48 + d - 48 ≡ d = omega arith in rw e (ground arith)

read_digits-digits :
    (fuel n : ℕ) (s : Bytes)
    → n < pow10 fuel
    → 0 < fuel
    → read_digits 0 (digits fuel n ++ s) ≡ read_digits n s
unfolding digits
read_digits-digits zero n s h k = absurd (omega arith)
read_digits-digits (suc fuel) n s h k = elim (Bool-cases (ltb n 10)) [
  | inl e ↦
      rw (e, digits)
        (read_digits-digit 0 n s (ltb→lt n 10 e) ∙ ap (λ m. read_digits m s) (omega arith))
  | inr e ↦
      rw (e, digits)
        (ap (read_digits 0) (append_assoc (digits fuel (n / 10)) ((48 + n % 10) ∷ []) s)
          ∙ read_digits-digits fuel (n / 10) ((48 + n % 10) ∷ s) (ground arith) (more fuel n h e)
          ∙ read_digits-digit (n / 10) (n % 10) s (omega arith)
          ∙ ap (λ m. read_digits m s) (omega arith))
]
  where
    more : (fuel n : ℕ) → n < pow10 (suc fuel) → ltb n 10 ≡ false → 0 < fuel
    more zero n h e = ground arith
    more (suc fuel) n h e = omega arith

read_digits-NoDigit : (n : ℕ) (s : Bytes) → NoDigit s → read_digits n s ≡ (n, s)
unfolding read_digits
read_digits-NoDigit n [] h = refl
read_digits-NoDigit n (c ∷ s) h = rw (h, read_digits) refl

-- The first character of a number is a digit.
digits_head :
    (fuel n : ℕ)
    → n < pow10 fuel
    → 0 < fuel
    → (c : ℕ) × (s : Bytes) × (digits fuel n ≡ c ∷ s) × (is_digit c ≡ true)
unfolding digits
digits_head zero n h k = absurd (omega arith)
digits_head (suc fuel) n h k = elim (Bool-cases (ltb n 10)) [
  | inl e ↦ (48 + n, [], rw (e, digits) refl, ground (arith, e))
  | inr e ↦
      let (c, s, q, d) = digits_head fuel (n / 10) (ground arith) (more fuel n h e) in
      (c, s ++ ((48 + n % 10) ∷ []), rw (e, digits) (ap (λ t. t ++ ((48 + n % 10) ∷ [])) q), d)
]
  where
    more : (fuel n : ℕ) → n < pow10 (suc fuel) → ltb n 10 ≡ false → 0 < fuel
    more zero n h e = ground arith
    more (suc fuel) n h e = omega arith

abbrev pub IsDigit : ℕ → Type 0
IsDigit c = is_digit c ≡ true

digits-IsDigit : (fuel n : ℕ) → All IsDigit (digits fuel n)
unfolding digits
digits-IsDigit zero n = tt
digits-IsDigit (suc fuel) n = elim (Bool-cases (ltb n 10)) [
  | inl e ↦ rw (e, digits) (ground (arith, e), tt)
  | inr e ↦
      rw (e, digits)
        (All-append IsDigit (digits fuel (n / 10)) _ (digits-IsDigit fuel (n / 10))
          (ground arith, tt))
]

length-digits : (fuel n : ℕ) → length (digits fuel n) ≤ fuel
unfolding digits
length-digits zero n = omega arith
length-digits (suc fuel) n = elim (Bool-cases (ltb n 10)) [
  | inl e ↦ rw (e, digits) (omega arith)
  | inr e ↦
      rw (e, digits)
        (omega (
          arith,
          length-append (digits fuel (n / 10)) ((48 + n % 10) ∷ []),
          length-digits fuel (n / 10),
        ))
]

pub length-to_string : (n : ℕ) → length (to_string n) ≤ 20
unfolding to_string
length-to_string n = length-digits 20 n

pub to_string_pos : (n : ℕ) → 0 < length (to_string n)
unfolding to_string digits
to_string_pos n = elim (Bool-cases (ltb n 10)) [
  | inl e ↦ rw (e, digits) (omega arith)
  | inr e ↦ rw (e, digits) (omega (arith, length-append (digits 19 (n / 10)) ((48 + n % 10) ∷ [])))
]

pub to_string-IsDigit : (n : ℕ) → All IsDigit (to_string n)
unfolding to_string
to_string-IsDigit n = digits-IsDigit 20 n

read_magnitude-cons :
    (bound c n : ℕ) (s rest : Bytes)
    → is_digit c ≡ true
    → read_digits 0 (c ∷ s) ≡ (n, rest)
    → n < bound
    → read_magnitude bound (c ∷ s) ≡ some (n, rest)
unfolding read_magnitude
read_magnitude-cons bound c n s rest h e lt = rw (h, e, lt→ltb n bound lt) refl

pub read_unsigned-digit :
    (bound c : ℕ) (s : Bytes)
    → is_digit c ≡ true
    → read_unsigned bound (c ∷ s) ≡ read_magnitude bound (c ∷ s)
unfolding read_unsigned
read_unsigned-digit bound c s h = ground arith

-- A number that fits the word is read back, with what follows it.
pub read_unsigned-to_string :
    (bound n : ℕ) (s : Bytes)
    → n < bound
    → bound ≤ 2 ^ 64
    → NoDigit s
    → read_unsigned bound (to_string n ++ s) ≡ some (n, s)
unfolding to_string
read_unsigned-to_string bound n s h b f =
    let small : n < pow10 20 = omega arith in
    let (c, t, e, d) = digits_head 20 n small (omega arith) in
    ap (λ x. read_unsigned bound (x ++ s)) e
    ∙ read_unsigned-digit bound c (t ++ s) d
    ∙ read_magnitude-cons bound c n (t ++ s) s d
        (ap (λ x. read_digits 0 (x ++ s)) (sym e)
          ∙ read_digits-digits 20 n s small (omega arith)
          ∙ read_digits-NoDigit n s f)
        h

pub read_unsigned-to_string_only :
    (bound n : ℕ) → n < bound → bound ≤ 2 ^ 64 → read_unsigned bound (to_string n) ≡ some (n, [])
read_unsigned-to_string_only bound n h b =
    ap (read_unsigned bound) (sym (append-nil (to_string n)))
    ∙ read_unsigned-to_string bound n [] h b tt

pub read_unsigned-space :
    (bound : ℕ) (s : Bytes) → read_unsigned bound (32 ∷ s) ≡ read_unsigned bound s
unfolding read_unsigned
read_unsigned-space bound s = refl

abbrev pub NoSpace : ℕ → Type 0
NoSpace c = is_space c ≡ false

pub read_until_space-append :
    (w s : Bytes) → All NoSpace w → read_until_space (w ++ (32 ∷ s)) ≡ (w, 32 ∷ s)
unfolding read_until_space
read_until_space-append [] s h = refl
read_until_space-append (c ∷ w) s h = rw (h.0, read_until_space-append w s h.1) refl

-- The next word of a stream, behind one space.
pub extract_word-space :
    (c : ℕ) (w s : Bytes)
    → All NoSpace (c ∷ w)
    → extract_word (some (32 ∷ ((c ∷ w) ++ (32 ∷ s)))) ≡ (c ∷ w, some (32 ∷ s))
unfolding extract_word skip_space
extract_word-space c w s h = rw h.0 (ap word_found (read_until_space-append (c ∷ w) s h))

-- The next number of a stream, behind one space.
pub extract-space :
    (bound n : ℕ) (s : Bytes)
    → n < bound
    → bound ≤ 2 ^ 64
    → NoDigit s
    → extract bound (some (32 ∷ (to_string n ++ s))) ≡ (n, some s)
unfolding extract
extract-space bound n s h b f =
    rw
      (
        read_unsigned-space bound (to_string n ++ s) ∙ read_unsigned-to_string bound n s h b f,
        extract,
      )
      refl

-- A printed number begins with a digit, and its magnitude is read back.
pub to_string-digit :
    (bound n : ℕ)
    → n < bound
    → bound ≤ 2 ^ 64
    → (c : ℕ) × (s : Bytes) × (to_string n ≡ c ∷ s)
      × (is_digit c ≡ true)
      × (read_magnitude bound (c ∷ s) ≡ some (n, []))
unfolding to_string
to_string-digit bound n h b =
    let small : n < pow10 20 = omega arith in
    let (c, t, e, d) = digits_head 20 n small (omega arith) in
    (
      c,
      t,
      e,
      d,
      read_magnitude-cons bound c n t [] d
          (ap (read_digits 0) (sym (append-nil (c ∷ t)))
            ∙ ap (λ x. read_digits 0 (x ++ [])) (sym e)
            ∙ read_digits-digits 20 n [] small (omega arith)
            ∙ read_digits-NoDigit n [] tt)
          h,
    )
