-- ===== src/Image.antt =====
-- The byte image of the table in a checkpoint file and in a snapshot, in kvstore/src/tablet.cc:
-- every row with its columns, each key and value behind its length.
pub mod Laws
use ncloud.Common.{
  ℕ, zero, suc, ◌≡◌, Option, none, some, [], ◌∷◌, ◌++◌, Bytes, length, Bool, true, false, ◌>>=◌,
}
use ncloud.Common.Dict.{Dict, lookup, insert}
use ncloud.Codec.{cast_u32, write_u32_le, read_u32_le, write_field, read_field}
use ncloud.Bloom.{BitArray, empty_bits, add}
use ncloud.Rows.{Rows, Cols}

pub write_cols : Cols → Bytes
write_cols [] = []
write_cols ((col, val) ∷ m) = write_field col ++ (write_field val ++ write_cols m)

pub write_rows : Rows → Bytes
unfolding write_cols
write_rows [] = []
write_rows ((row, cols) ∷ m) =
    write_field row ++ (write_u32_le (cast_u32 (length cols)) ++ (write_cols cols ++ write_rows m))

-- The columns of one row, `n` of them to come.
pub load_cols : ℕ → Cols → Bytes → Option (Cols × Bytes)
load_cols zero cols s = some (cols, s)
load_cols (suc n) cols s = elim (read_field s) [
  | none ↦ none
  | some (col, s₁) ↦ elim (read_field s₁) [
    | none ↦ none
    | some (val, s₂) ↦ load_cols n (insert col val cols) s₂
  ]
]

-- Where `load_checkpoint` stands when it returns from its loop over the rows: it fills the tablet's
-- own table, so what was read before a failure stays.
pub record Loaded : Type 0 where
  pub ok : Bool
  pub rows : Rows
  pub bloom : BitArray
  pub rest : Bytes

pub load_rows : ℕ → Rows → BitArray → Bytes → Loaded
unfolding load_cols
load_rows zero rows bloom s = record { ok = true; rows = rows; bloom = bloom; rest = s }
load_rows (suc n) rows bloom s = elim (read_field s) [
  | none ↦ record { ok = false; rows = rows; bloom = bloom; rest = s }
  | some (row, s₁) ↦ elim (read_u32_le s₁) [
    | none ↦ record { ok = false; rows = rows; bloom = add bloom row; rest = s₁ }
    | some (ncols, s₂) ↦ elim (load_cols ncols [] s₂) [
      | none ↦ record { ok = false; rows = rows; bloom = add bloom row; rest = s₂ }
      | some (cols, s₃) ↦ load_rows n (insert row cols rows) (add bloom row) s₃
    ]
  ]
]

-- `emplace` keeps the first of two rows with one key.
pub emplace : Bytes → Cols → Rows → Rows
emplace row cols rows = elim (lookup row rows) [ none ↦ insert row cols rows | some _ ↦ rows ]

-- The loop of `load_snapshot_blob` fills a table of its own, which a failure drops.
pub unpack_rows : ℕ → Rows → BitArray → Bytes → Option (Rows × BitArray)
unfolding load_cols emplace
unpack_rows zero rows bloom s = some (rows, bloom)
unpack_rows (suc n) rows bloom s = elim (read_field s) [
  | none ↦ none
  | some (row, s₁) ↦ elim (read_u32_le s₁) [
    | none ↦ none
    | some (ncols, s₂) ↦ elim (load_cols ncols [] s₂) [
      | none ↦ none
      | some (cols, s₃) ↦ unpack_rows n (emplace row cols rows) (add bloom row) s₃
    ]
  ]
]
