-- ===== src/Wal.antt =====
-- The write-ahead log of kvstore/src/tablet.cc: one entry's bytes, as `write_wal_put` and
-- `write_wal_delete` lay them out, and the reading of one entry, as `replay_wal` and
-- `wal_delta_after` do it from the file and `apply_wal_delta_blob` from a blob.
pub mod Laws
pub mod Torn
use ncloud.Common.{
  ℕ, ◌+◌, ◌≡◌, Option, none, some, [], ◌∷◌, ◌++◌, Bytes, length, ◌==◌, if◌then◌else◌, ◌>>=◌,
}
use ncloud.Codec.{cast_u32, write_u32_le, read_u32_le, read_byte, read_exact}

abbrev pub wal_magic : ℕ
wal_magic = 0xABCD1234

abbrev pub wal_put : ℕ
wal_put = 1

abbrev pub wal_delete : ℕ
wal_delete = 2

-- An entry as it is read: its operation byte is not checked.
pub record Entry : Type 0 where
  pub op : ℕ
  pub row : Bytes
  pub col : Bytes
  pub val : Bytes

-- `write_wal_put`: the value's length and bytes are there; `write_wal_delete`: the length is `0u`.
abbrev pub put_entry : Bytes → Bytes → Bytes → Entry
put_entry row col val = record { op = wal_put; row = row; col = col; val = val }

abbrev pub delete_entry : Bytes → Bytes → Entry
delete_entry row col = record { op = wal_delete; row = row; col = col; val = [] }

unfoldable pub encode_body : Entry → Bytes
encode_body e =
    (e.op ∷ [])
    ++ write_u32_le (cast_u32 (length e.row))
    ++ write_u32_le (cast_u32 (length e.col))
    ++ write_u32_le (cast_u32 (length e.val))
    ++ e.row
    ++ e.col
    ++ e.val

unfoldable pub encode : Entry → Bytes
unfolding encode_body
encode e = write_u32_le wal_magic ++ encode_body e

-- The header behind the magic, and the payload of the lengths that it gives. A short read or a bad
-- magic ends the scan: `none`.
pub read_body : Bytes → Option (Entry × Bytes)
read_body s = do
  (op, s₁) ← read_byte s
  (rowlen, s₂) ← read_u32_le s₁
  (collen, s₃) ← read_u32_le s₂
  (vallen, s₄) ← read_u32_le s₃
  (row, s₅) ← read_exact rowlen s₄
  (col, s₆) ← read_exact collen s₅
  (val, s₇) ← read_exact vallen s₆
  some (record { op = op; row = row; col = col; val = val }, s₇)

unfoldable pub read_entry : Bytes → Option (Entry × Bytes)
unfolding read_body
read_entry s = do (magic, rest) ← read_u32_le s; if magic == wal_magic then read_body rest else none
