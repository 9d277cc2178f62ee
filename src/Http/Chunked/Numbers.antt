-- ===== src/Http/Chunked/Numbers.antt =====
-- frontend/src/http_reader.h: the size of a chunk is read as it was printed.
use ncloud.Common.{
  ℕ, zero, suc, ◌+◌, ◌*◌, ◌/◌, ◌%◌, ◌^◌, ◌<◌, ◌≤◌, ◌≡◌, refl, ap, sym, ◌∙◌, none, some, [], ◌∷◌,
  ◌++◌, Bytes, length, true, false, ltb, lt→ltb, leb, ◌==◌, ◌&&◌, ◌||◌, arith, All, All-append,
  Bool-cases, Option-cases, inl, inr, length-append,
}
use ncloud.Common.Decimal.{is_space, skip_space}
use ncloud.Password.{hex_digit}
use ncloud.Http.Text.{
  hex_digit_value, digit_below, read_all, fits, stoul_whole, unsigned, trim_end, http_trim_copy,
  http_parse_size_t,
}
use ncloud.Http.Chunked.{hex_digits, http_chunk_prefix}

-- A digit as it is printed.
abbrev pub IsHex : ℕ → Type 0
IsHex c = ((leb b'0' c && leb c b'9') || (leb b'a' c && leb c b'f')) ≡ true

abbrev pow16 : ℕ → ℕ
pow16 zero = 1
pow16 (suc n) = 16 * pow16 n

hex_digit-IsHex : (v : ℕ) → v < 16 → IsHex (hex_digit v)
unfolding hex_digit
hex_digit-IsHex v h = ground arith

hex_digit_value-hex_digit :
    (v : ℕ) → v < 16 → digit_below 16 (hex_digit_value (hex_digit v)) ≡ some v
unfolding digit_below hex_digit_value hex_digit
hex_digit_value-hex_digit v h = ground arith

hex_digits-IsHex : (fuel n : ℕ) → All IsHex (hex_digits fuel n)
unfolding hex_digits
hex_digits-IsHex zero n = tt
hex_digits-IsHex (suc fuel) n = elim (Bool-cases (ltb n 16)) [
  | inl e ↦ rw e (hex_digit-IsHex n (ground (arith, e)), tt)
  | inr e ↦ rw e (
      All-append IsHex (hex_digits fuel (n / 16)) (hex_digit (n % 16) ∷ [])
        (hex_digits-IsHex fuel (n / 16)) (hex_digit-IsHex (n % 16) (omega arith), tt))
]

read_all-cons :
    (a c d : ℕ) (s : Bytes)
    → digit_below 16 (hex_digit_value c) ≡ some d
    → read_all 16 a (c ∷ s) ≡ read_all 16 (a * 16 + d) s
unfolding read_all
read_all-cons a c d s h = rw (h, read_all) refl

read_all-none :
    (a c : ℕ) (s : Bytes) → digit_below 16 (hex_digit_value c) ≡ none → read_all 16 a (c ∷ s) ≡ none
unfolding read_all
read_all-none a c s h = rw (h, read_all) refl

-- One more digit behind those that were read.
read_all-append :
    (a m c d : ℕ) (s : Bytes)
    → digit_below 16 (hex_digit_value c) ≡ some d
    → read_all 16 a s ≡ some m
    → read_all 16 a (s ++ (c ∷ [])) ≡ some (m * 16 + d)
read_all-append a m c d [] h e = read_all-cons a c d [] h ∙ (unfold read_all in cc e)
read_all-append a m c d (x ∷ s) h e = elim (Option-cases (digit_below 16 (hex_digit_value x))) [
  | inl q ↦ cc (read_all-none a x s q, e)
  | inr (v, q) ↦
      read_all-cons a x v (s ++ (c ∷ [])) q
      ∙ read_all-append (a * 16 + v) m c d s h (sym (read_all-cons a x v s q) ∙ e)
]

read_all-hex_digits :
    (fuel n : ℕ) → n < pow16 fuel → 0 < fuel → read_all 16 0 (hex_digits fuel n) ≡ some n
unfolding hex_digits
read_all-hex_digits zero n h k = absurd (omega arith)
read_all-hex_digits (suc fuel) n h k = elim (Bool-cases (ltb n 16)) [
  | inl e ↦ rw e (
      read_all-cons 0 (hex_digit n) n [] (hex_digit_value-hex_digit n (ground (arith, e)))
      ∙ (unfold read_all in ap some (omega arith)))
  | inr e ↦ rw e (
      read_all-append 0 (n / 16) (hex_digit (n % 16)) (n % 16) (hex_digits fuel (n / 16))
        (hex_digit_value-hex_digit (n % 16) (omega arith))
        (read_all-hex_digits fuel (n / 16) (omega (arith, h)) (more fuel n h e))
      ∙ ap some (omega arith))
]
  where
    more : (fuel n : ℕ) → n < pow16 (suc fuel) → ltb n 16 ≡ false → 0 < fuel
    more zero n h e = ground arith
    more (suc fuel) n h e = omega arith

-- No blank stands in front or behind.
trim_end-IsHex : (s : Bytes) → All IsHex s → trim_end s ≡ s
unfolding trim_end
trim_end-IsHex [] h = refl
trim_end-IsHex (c ∷ s) h =
    let blank : is_space c ≡ false = ground (arith, h.0) in rw (blank, trim_end-IsHex s h.1) refl

trim-IsHex : (s : Bytes) → All IsHex s → http_trim_copy s ≡ s
unfolding http_trim_copy skip_space
trim-IsHex [] h = trim_end-IsHex [] h
trim-IsHex (c ∷ s) h =
    let blank : is_space c ≡ false = ground (arith, h.0) in rw blank (trim_end-IsHex (c ∷ s) h)

stoul_whole-IsHex :
    (s : Bytes) (n : ℕ)
    → All IsHex s
    → 0 < length s
    → n < 2 ^ 64
    → read_all 16 0 s ≡ some n
    → stoul_whole 16 s ≡ some n
unfolding stoul_whole fits
stoul_whole-IsHex [] n h k b e = absurd (omega (arith, k))
stoul_whole-IsHex (c ∷ []) n h k b e = rw (e, lt→ltb n (2 ^ 64) b) refl
stoul_whole-IsHex (c ∷ d ∷ []) n h k b e = rw (e, lt→ltb n (2 ^ 64) b) refl
stoul_whole-IsHex (c ∷ d ∷ f ∷ s) n h k b e =
    let no_prefix : (c == b'0' && (d == b'x' || d == b'X')) ≡ false = ground (arith, h.1.0) in
    rw (no_prefix, e, lt→ltb n (2 ^ 64) b) refl

unsigned-IsHex :
    (s : Bytes) (n : ℕ)
    → All IsHex s
    → 0 < length s
    → n < 2 ^ 64
    → read_all 16 0 s ≡ some n
    → unsigned 16 s ≡ some n
unfolding unsigned
unsigned-IsHex [] n h k b e = absurd (omega (arith, k))
unsigned-IsHex (c ∷ s) n h k b e =
    let no_sign : (c == b'+' || c == b'-') ≡ false = ground (arith, h.0) in
    rw no_sign (stoul_whole-IsHex (c ∷ s) n h k b e)

hex_digits_pos : (fuel n : ℕ) → 0 < length (hex_digits (suc fuel) n)
unfolding hex_digits
hex_digits_pos fuel n = elim (Bool-cases (ltb n 16)) [
  | inl e ↦ rw e (omega arith)
  | inr e ↦ rw e (omega (arith, length-append (hex_digits fuel (n / 16)) (hex_digit (n % 16) ∷ [])))
]

pub http_chunk_prefix-IsHex : (n : ℕ) → All IsHex (http_chunk_prefix n)
unfolding http_chunk_prefix
http_chunk_prefix-IsHex n = hex_digits-IsHex 16 n

-- The size of a chunk is read as it was printed.
pub http_parse_size_t-http_chunk_prefix :
    (n : ℕ) → n < 2 ^ 64 → http_parse_size_t (http_chunk_prefix n) 16 ≡ some n
unfolding http_parse_size_t http_chunk_prefix
http_parse_size_t-http_chunk_prefix n h =
    ap (unsigned 16) (trim-IsHex (hex_digits 16 n) (hex_digits-IsHex 16 n))
    ∙ unsigned-IsHex (hex_digits 16 n) n (hex_digits-IsHex 16 n) (hex_digits_pos 15 n) h
        (read_all-hex_digits 16 n (omega (arith, h)) (omega arith))

length-hex_digits : (fuel n : ℕ) → length (hex_digits fuel n) ≤ fuel
unfolding hex_digits
length-hex_digits zero n = omega arith
length-hex_digits (suc fuel) n = elim (Bool-cases (ltb n 16)) [
  | inl e ↦ rw e (omega arith)
  | inr e ↦ rw e (
      omega (
        arith,
        length-hex_digits fuel (n / 16),
        length-append (hex_digits fuel (n / 16)) (hex_digit (n % 16) ∷ []),
      ))
]

pub length-http_chunk_prefix : (n : ℕ) → length (http_chunk_prefix n) ≤ 16
unfolding http_chunk_prefix
length-http_chunk_prefix n = length-hex_digits 16 n
