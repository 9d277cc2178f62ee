-- ===== src/Common/Decimal.antt =====
-- Decimal numbers and words of a text, as `std::to_string`, `std::stoul` and the `>>` of
-- `std::istringstream` write and read them.
pub mod Printed
pub mod Ports
use ncloud.Common.Text.{Bytes}
use ncloud.Common.Tests.{ltb, leb, ◌==◌, if◌then◌else◌, Bool-cases, ltb→lt, lt→ltb}
use ncloud.Common.Lists.{All, All-append, length, length-append}
use Prim.Native.Nat.{ℕ, zero, suc, ◌+◌, ◌-◌, ◌*◌, ◌/◌, ◌%◌, ◌^◌, ◌≤◌, ◌<◌}
use mathlib.Core.Path.{◌≡◌, refl, sym, ap, ◌∙◌}
use mathlib.Core.Logic.{inl, inr}
use mathlib.Core.Bool.{Bool, true, false, ◌&&◌, ◌||◌}
use mathlib.Core.Option.{Option, none, some}
use mathlib.Core.List.{[], ◌∷◌, ◌++◌, append_assoc, append-nil}
use native.Mathlib.Omega.{arith}

-- `std::to_string` of a number of at most 64 bits, which has at most 20 digits.
pub digits : ℕ → ℕ → Bytes
digits zero n = []
digits (suc fuel) n = elim (ltb n 10) [
  | true ↦ (48 + n) ∷ []
  | false ↦ digits fuel (n / 10) ++ ((48 + n % 10) ∷ [])
]

unfoldable pub to_string : ℕ → Bytes
unfolding digits
to_string n = digits 20 n

abbrev pub is_digit : ℕ → Bool
is_digit c = leb 48 c && leb c 57

-- `std::isspace` in the C locale.
abbrev pub is_space : ℕ → Bool
is_space c = c == 32 || (leb 9 c && leb c 13)

unfoldable pub skip_space : Bytes → Bytes
skip_space [] = []
skip_space (c ∷ s) = let rest = skip_space s in if is_space c then rest else c ∷ s

-- The digits at the front, with the number that was read before them.
unfoldable pub read_digits : ℕ → Bytes → ℕ × Bytes
read_digits n [] = (n, [])
read_digits n (c ∷ s) =
    let rest = read_digits (n * 10 + (c - 48)) s in if is_digit c then rest else (n, c ∷ s)

-- A number needs a digit, and its magnitude has to fit the word.
unfoldable pub read_magnitude : ℕ → Bytes → Option (ℕ × Bytes)
read_magnitude bound [] = none
read_magnitude bound (c ∷ s) =
    if is_digit c
    then if ltb (read_digits 0 (c ∷ s)).0 bound then some (read_digits 0 (c ∷ s)) else none
    else none

negated : ℕ → Option (ℕ × Bytes) → Option (ℕ × Bytes)
negated bound none = none
negated bound (some (n, s)) = some ((bound - n) % bound, s)

read_sign : ℕ → Bytes → Option (ℕ × Bytes)
unfolding read_magnitude negated
read_sign bound [] = none
read_sign bound (c ∷ s) =
    if c == b'-'
    then negated bound (read_magnitude bound s)
    else if c == b'+'
    then read_magnitude bound s
    else read_magnitude bound (c ∷ s)

-- An unsigned number below the bound, behind any spaces, as `strtoul` reads it: a minus wraps.
unfoldable pub read_unsigned : ℕ → Bytes → Option (ℕ × Bytes)
unfolding read_sign skip_space
read_unsigned bound s = read_sign bound (skip_space s)

-- The digits of an `int` at the front. The text that is left is empty where the stream fails, which it
-- does with the largest `int` if there are too many.
pub unsigned_port : Bytes → ℕ × Bytes
unsigned_port [] = (0, [])
unsigned_port (c ∷ s) =
    if is_digit c
    then if ltb (read_digits 0 (c ∷ s)).0 (2 ^ 31) then read_digits 0 (c ∷ s) else (2 ^ 31 - 1, [])
    else (0, [])

pub signed_port : Bytes → ℕ × Bytes
unfolding unsigned_port
signed_port [] = (0, [])
signed_port (c ∷ s) =
    if c == b'-'
    then (0, (unsigned_port s).1)
    else if c == b'+'
    then unsigned_port s
    else unsigned_port (c ∷ s)

-- `ss >> port` into an `int`, and the text behind it; 0 stands for every number that is not positive.
unfoldable pub read_port : Bytes → ℕ × Bytes
unfolding signed_port skip_space
read_port s = signed_port (skip_space s)

-- The characters up to the next space.
unfoldable pub read_until_space : Bytes → Bytes × Bytes
read_until_space [] = ([], [])
read_until_space (c ∷ s) =
    let rest = read_until_space s in if is_space c then ([], c ∷ s) else (c ∷ rest.0, rest.1)

-- `ss >> word`; the word is empty where the text has ended.
unfoldable pub read_word : Bytes → Bytes × Bytes
unfolding skip_space read_until_space
read_word s = read_until_space (skip_space s)

-- `ss >> n`, on a stream that may have failed: `none`. A number that does not fit gives the largest
-- one and a failed stream; no number gives zero and a failed stream.
starts_number : Bytes → Bool
starts_number [] = false
starts_number (c ∷ []) = is_digit c
starts_number (c ∷ d ∷ s) = is_digit c || ((c == b'-' || c == b'+') && is_digit d)

unfoldable pub extract : ℕ → Option Bytes → ℕ × Option Bytes
unfolding starts_number skip_space
extract bound none = (0, none)
extract bound (some s) = elim (read_unsigned bound s) [
  | none ↦ (if starts_number (skip_space s) then bound - 1 else 0, none)
  | some (n, rest) ↦ (n, some rest)
]

unfoldable pub word_found : Bytes × Bytes → Bytes × Option Bytes
word_found ([], rest) = ([], none)
word_found (c ∷ w, rest) = (c ∷ w, some rest)

-- `ss >> word`
unfoldable pub extract_word : Option Bytes → Bytes × Option Bytes
unfolding word_found read_word
extract_word none = ([], none)
extract_word (some s) = word_found (read_word s)

-- `ss >> port` into an `int`, where only what is above zero counts.
positive : Bytes → ℕ
unfolding extract
positive [] = 0
positive (c ∷ s) = if c == b'-' then 0 else (extract (2 ^ 31) (some (c ∷ s))).0

unfoldable pub extract_positive : Option Bytes → ℕ
unfolding positive skip_space
extract_positive none = 0
extract_positive (some s) = positive (skip_space s)
