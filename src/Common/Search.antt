-- ===== src/Common/Search.antt =====
-- Searching text, as the `find` and `rfind` of `std::string` do it.
use ncloud.Common.Text.{Bytes}
use ncloud.Common.Lists.{length, drop, All}
use ncloud.Common.Tests.{◌==◌, if◌then◌else◌}
use Prim.Native.Nat.{ℕ}
use mathlib.Core.Path.{◌≡◌, refl}
use native.Mathlib.Omega.{arith}
use mathlib.Core.Bool.{Bool, true, false, ◌&&◌}
use mathlib.Core.Option.{Option, none, some}
use mathlib.Core.List.{[], ◌∷◌, ◌++◌}

-- `text.rfind(prefix, 0) == 0`
unfoldable pub starts_with : Bytes → Bytes → Bool
starts_with [] text = true
starts_with (p ∷ ps) [] = false
starts_with (p ∷ ps) (c ∷ text) = (p == c) && starts_with ps text

-- The text behind the first place that has the word.
unfoldable pub find_behind : Bytes → Bytes → Option Bytes
unfolding starts_with
find_behind word [] = none
find_behind word (c ∷ text) =
    let rest = find_behind word text in
    if starts_with word (c ∷ text) then some (drop (length word) (c ∷ text)) else rest

-- The text before the first such character, and behind it if there is one.
unfoldable pub split_first : ℕ → Bytes → Bytes × Option Bytes
split_first c [] = ([], none)
split_first c (x ∷ xs) =
    let rest = split_first c xs in if x == c then ([], some xs) else (x ∷ rest.0, rest.1)

-- The text before and behind the last such character.
unfoldable pub split_last : ℕ → Bytes → Option (Bytes × Bytes)
split_last c [] = none
split_last c (x ∷ xs) = elim (split_last c xs) [
  | none ↦ if x == c then some ([], xs) else none
  | some (before, behind) ↦ some (x ∷ before, behind)
]

-- The text is cut at the first such character.
pub split_first-append :
    (c : ℕ) (xs ys : Bytes)
    → All (λ x. (x == c) ≡ false) xs
    → split_first c (xs ++ (c ∷ ys)) ≡ (xs, some ys)
unfolding split_first
split_first-append c [] ys h = ground arith
split_first-append c (x ∷ xs) ys h = rw (h.0, split_first-append c xs ys h.1) refl
