-- ===== src/Kv/Cloud/Changed.antt =====
-- A change of at most one cell, as a relation between what the cells were and are.
use ncloud.Common.{◌≡◌, refl, ◌∙◌, ◌⊎◌, inl, inr, Option, Bytes, false, subst}
use ncloud.Kv.{same}

abbrev pub Cells : Type 0
Cells = Bytes → Bytes → Option Bytes

-- The cell has the new value and had an old one as it has to, or it is as it was; so are the others.
pub record Changed (row col : Bytes) (new : Option Bytes) (Old : Option Bytes → Type 0)
    (before after : Cells) : Type 0 where
  pub either : (Old (before row col) × (after row col ≡ new)) ⊎ (after row col ≡ before row col)
  pub other : (i j : Bytes) → same row col i j ≡ false → after i j ≡ before i j

module _ (row col : Bytes) (new : Option Bytes) (Old : Option Bytes → Type 0) where
  pub Changed-refl : (a : Cells) → Changed row col new Old a a
  Changed-refl a = record { either = inr refl; other = λ i j e. refl }

  -- A change behind a change.
  pub Changed-trans :
      (a b c : Cells)
      → Changed row col new Old a b
      → Changed row col new Old b c
      → Changed row col new Old a c
  Changed-trans a b c p q = record {
    either = joined p.either q.either;
    other = λ i j e. q.other i j e ∙ p.other i j e;
  }
    where
      joined :
          (Old (a row col) × (b row col ≡ new)) ⊎ (b row col ≡ a row col)
          → (Old (b row col) × (c row col ≡ new)) ⊎ (c row col ≡ b row col)
          → (Old (a row col) × (c row col ≡ new)) ⊎ (c row col ≡ a row col)
      joined (inl x) (inl y) = inl (x.0, y.1)
      joined (inl x) (inr y) = inl (x.0, y ∙ x.1)
      joined (inr x) (inl y) = inl (subst Old x y.0, y.1)
      joined (inr x) (inr y) = inr (y ∙ x)

  -- What has to be of the old value at a success, behind a change.
  pub Changed-Old : (a b : Cells) → Changed row col new Old a b → Old (b row col) → Old (a row col)
  Changed-Old a b p o = from p.either
    where
      from : (Old (a row col) × (b row col ≡ new)) ⊎ (b row col ≡ a row col) → Old (a row col)
      from (inl x) = x.0
      from (inr x) = subst Old x o
