-- ===== src/Image/Laws.antt =====
-- A table with distinct keys and sizes that fit is read back as it was written.
use ncloud.Common.{
  ℕ, suc, ◌<◌, ◌^◌, ◌≡◌, refl, ap, ◌∙◌, none, some, [], ◌∷◌, ◌++◌, append_assoc, append-nil, Bytes,
  length, true, All, Bool-cases, inl, inr, subst, bytes_eq, bytes_eq_iff,
}
use ncloud.Common.Dict.{lookup, insert}
use ncloud.Common.Distinct.{Distinct, Distinct-split, insert-fresh}
use ncloud.Codec.{cast_u32, write_u32_le, read_u32_le, write_field, read_field}
use ncloud.Codec.Laws.{read_field-write, read_u32-write, cast_u32_small}
use ncloud.Bloom.{BitArray, add, may_contain}
use ncloud.Bloom.Laws.{IsByteArray, add-IsByteArray, may_contain-add_self, may_contain-add_mono}
use ncloud.Rows.{Rows, Cols}
use ncloud.Image.{write_cols, write_rows, load_cols, load_rows, emplace, unpack_rows}

-- Distinct keys, and every size in four bytes.
abbrev pub FitsCols : Cols → Type 0
FitsCols m = All (λ (p : Bytes × Bytes). (length p.0 < 2 ^ 32) × (length p.1 < 2 ^ 32)) m

load_cols_step :
    (n : ℕ) (m : Cols) (s s₁ s₂ col val : Bytes)
    → read_field s ≡ some (col, s₁)
    → read_field s₁ ≡ some (val, s₂)
    → load_cols (suc n) m s ≡ load_cols n (insert col val m) s₂
unfolding load_cols
load_cols_step n m s s₁ s₂ col val e e' = rw (e, load_cols) (rw e')

load_cols-write :
    (done m : Cols) (s : Bytes)
    → Distinct (done ++ m)
    → FitsCols m
    → load_cols (length m) done (write_cols m ++ s) ≡ some (done ++ m, s)
unfolding write_cols
load_cols-write done [] s d f = unfold load_cols in rw append-nil
load_cols-write done ((col, val) ∷ m) s d f =
    let next : Cols = (col, val) ∷ [] in
    let shift : (done ++ next) ++ m ≡ done ++ (col, val) ∷ m = append_assoc done next m in
    rw
      (load_cols_step (length m) done (write_cols ((col, val) ∷ m) ++ s)
        (write_field val ++ (write_cols m ++ s)) (write_cols m ++ s) col val
        (rw (append_assoc, append_assoc) (read_field-write col _ f.0.0))
        (read_field-write val _ f.0.1))
      (rw (insert-fresh col val done (Distinct-split done col val m d)) (
        load_cols-write (done ++ next) m s (rw shift d) f.1 ∙ ap (λ (x : Cols). some (x, s)) shift))

-- What a row's columns and the whole table have to be for their image to be read back.
pub record IsStorableCols (m : Cols) : Type 0 where
  pub keys : Distinct m
  pub count : length m < 2 ^ 32
  pub sizes : FitsCols m

abbrev pub FitsRows : Rows → Type 0
FitsRows m = All (λ (p : Bytes × Cols). (length p.0 < 2 ^ 32) × IsStorableCols p.1) m

pub record IsStorable (m : Rows) : Type 0 where
  pub keys : Distinct m
  pub count : length m < 2 ^ 32
  pub sizes : FitsRows m

-- The filter that a loader builds: every row's key is added.
pub add_keys : Rows → BitArray → BitArray
add_keys [] bits = bits
add_keys ((row, cols) ∷ m) bits = add_keys m (add bits row)

-- The image of one row, and what follows it.
abbrev row_image : Bytes → Cols → Bytes → Bytes
row_image row cols s =
    write_field row ++ (write_u32_le (cast_u32 (length cols)) ++ (write_cols cols ++ s))

module _ (row : Bytes) (cols : Cols) (s : Bytes) (fits : length row < 2 ^ 32)
    (storable : IsStorableCols cols) where
  -- The three reads of one row.
  read_row :
      (read_field (row_image row cols s)
        ≡ some (row, write_u32_le (length cols) ++ (write_cols cols ++ s)))
      × (read_u32_le (write_u32_le (length cols) ++ (write_cols cols ++ s))
          ≡ some (length cols, write_cols cols ++ s))
      × (load_cols (length cols) [] (write_cols cols ++ s) ≡ some (cols, s))
  read_row = (
    rw (cast_u32_small (length cols) storable.count) (read_field-write row _ fits),
    read_u32-write (length cols) _ storable.count,
    load_cols-write [] cols s storable.keys storable.sizes,
  )

  load_rows_step :
      (n : ℕ) (m : Rows) (bits : BitArray)
      → load_rows (suc n) m bits (row_image row cols s)
        ≡ load_rows n (insert row cols m) (add bits row) s
  unfolding load_rows
  load_rows_step n m bits = rw (read_row.0, load_rows) (rw read_row.1 (rw read_row.2 refl))

  unpack_rows_step :
      (n : ℕ) (m : Rows) (bits : BitArray)
      → unpack_rows (suc n) m bits (row_image row cols s)
        ≡ unpack_rows n (emplace row cols m) (add bits row) s
  unfolding unpack_rows
  unpack_rows_step n m bits = rw (read_row.0, unpack_rows) (rw read_row.1 (rw read_row.2 refl))

emplace-fresh :
    (row : Bytes) (cols : Cols) (m : Rows)
    → lookup row m ≡ none
    → emplace row cols m ≡ m ++ (row, cols) ∷ []
unfolding emplace
emplace-fresh row cols m e = rw (e, emplace) (insert-fresh row cols m e)

-- The rows behind `done`, with the image of the first of them split off.
write_rows-cons :
    (row : Bytes) (cols : Cols) (m : Rows) (s : Bytes)
    → write_rows ((row, cols) ∷ m) ++ s ≡ row_image row cols (write_rows m ++ s)
unfolding write_rows
write_rows-cons row cols m s = simp append_assoc

pub load_rows-write :
    (done m : Rows) (bits : BitArray) (s : Bytes)
    → Distinct (done ++ m)
    → FitsRows m
    → load_rows (length m) done bits (write_rows m ++ s)
      ≡ record { ok = true; rows = done ++ m; bloom = add_keys m bits; rest = s }
load_rows-write done [] bits s d f = unfold load_rows add_keys write_rows in rw append-nil
load_rows-write done ((row, cols) ∷ m) bits s d f =
    let next : Rows = (row, cols) ∷ [] in
    let shift : (done ++ next) ++ m ≡ done ++ (row, cols) ∷ m = append_assoc done next m in
    rw (write_rows-cons row cols m s) (
      load_rows_step row cols (write_rows m ++ s) f.0.0 f.0.1 (length m) done bits
      ∙ rw (insert-fresh row cols done (Distinct-split done row cols m d)) (
          load_rows-write (done ++ next) m (add bits row) s (rw shift d) f.1
          ∙ unfold add_keys in rw shift))

pub unpack_rows-write :
    (done m : Rows) (bits : BitArray) (s : Bytes)
    → Distinct (done ++ m)
    → FitsRows m
    → unpack_rows (length m) done bits (write_rows m ++ s) ≡ some (done ++ m, add_keys m bits)
unpack_rows-write done [] bits s d f = unfold unpack_rows add_keys in rw append-nil
unpack_rows-write done ((row, cols) ∷ m) bits s d f =
    let next : Rows = (row, cols) ∷ [] in
    let shift : (done ++ next) ++ m ≡ done ++ (row, cols) ∷ m = append_assoc done next m in
    rw (write_rows-cons row cols m s) (
      unpack_rows_step row cols (write_rows m ++ s) f.0.0 f.0.1 (length m) done bits
      ∙ rw (emplace-fresh row cols done (Distinct-split done row cols m d)) (
          unpack_rows-write (done ++ next) m (add bits row) s (rw shift d) f.1
          ∙ unfold add_keys in rw shift))

pub unpack_rows-write_rows :
    (m : Rows) (bits : BitArray)
    → IsStorable m
    → unpack_rows (length m) [] bits (write_rows m) ≡ some (m, add_keys m bits)
unpack_rows-write_rows m bits v =
    rw (append-nil (write_rows m)) at (unpack_rows-write [] m bits [] v.keys v.sizes)

-- The filter of a loader holds every row that it added, and keeps what it held.
pub add_keys-IsByteArray :
    (m : Rows) (bits : BitArray) → IsByteArray bits → IsByteArray (add_keys m bits)
unfolding add_keys
add_keys-IsByteArray [] bits v = v
add_keys-IsByteArray ((row, cols) ∷ m) bits v =
    add_keys-IsByteArray m (add bits row) (add-IsByteArray bits row v)

add_keys_mono :
    (m : Rows) (bits : BitArray) (key : Bytes)
    → IsByteArray bits
    → may_contain bits key ≡ true
    → may_contain (add_keys m bits) key ≡ true
unfolding add_keys
add_keys_mono [] bits key v h = h
add_keys_mono ((row, cols) ∷ m) bits key v h =
    add_keys_mono m (add bits row) key (add-IsByteArray bits row v)
      (may_contain-add_mono bits row key v h)

pub may_contain-add_keys :
    (m : Rows) (bits : BitArray) (key : Bytes) (cols : Cols)
    → IsByteArray bits
    → lookup key m ≡ some cols
    → may_contain (add_keys m bits) key ≡ true
unfolding add_keys lookup
may_contain-add_keys [] bits key cols v h = cc
may_contain-add_keys ((row, c) ∷ m) bits key cols v h = elim (Bool-cases (bytes_eq row key)) [
  | inl e ↦ add_keys_mono m (add bits row) key (add-IsByteArray bits row v) (
      subst (λ k. may_contain (add bits row) k ≡ true) ((bytes_eq_iff row key).0 e)
        (may_contain-add_self bits row v))
  | inr e ↦ may_contain-add_keys m (add bits row) key cols (add-IsByteArray bits row v) (rw e at h)
]
