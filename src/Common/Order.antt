-- ===== src/Common/Order.antt =====
-- The order of `std::string`, by the bytes.
use ncloud.Common.Text.{Bytes}
use ncloud.Common.Tests.{ltb, ◌==◌}
use mathlib.Core.Bool.{Bool, true, false, ◌&&◌, ◌||◌}
use mathlib.Core.List.{[], ◌∷◌}

-- `a < b`
unfoldable pub below : Bytes → Bytes → Bool
below a [] = false
below [] (b ∷ bs) = true
below (a ∷ rest) (b ∷ bs) = ltb a b || ((a == b) && below rest bs)
