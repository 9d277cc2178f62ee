-- ===== src/Wal/Laws.antt =====
-- A log entry that was written is read back, with what follows it left.
use ncloud.Common.{◌^◌, ◌<◌, ◌≡◌, some, ◌++◌, append_assoc, Bytes, length, arith}
use ncloud.Codec.{write_u32_le}
use ncloud.Codec.Laws.{read_byte-cons, cast_u32_small, read_u32-write, read_exact-append}
use ncloud.Wal.{Entry, encode, encode_body, read_body, read_entry, wal_magic}

-- The lengths of an entry fit the four bytes that hold them.
pub record Fits (e : Entry) : Type 0 where
  pub row : length e.row < 2 ^ 32
  pub col : length e.col < 2 ^ 32
  pub val : length e.val < 2 ^ 32

pub encode-append :
    (e : Entry) (s : Bytes) → encode e ++ s ≡ write_u32_le wal_magic ++ (encode_body e ++ s)
encode-append e s = unfold encode in append_assoc (write_u32_le wal_magic) (encode_body e) s

pub read_body-encode_body :
    (e : Entry) (s : Bytes) → Fits e → read_body (encode_body e ++ s) ≡ some (e, s)
unfolding read_body encode_body
read_body-encode_body e s v = simp (
  append_assoc,
  cast_u32_small _ v.row,
  cast_u32_small _ v.col,
  cast_u32_small _ v.val,
  read_byte-cons,
  read_u32-write _ _ v.row,
  read_u32-write _ _ v.col,
  read_u32-write _ _ v.val,
  read_exact-append,
)

-- An entry that was written is read back, and what follows it is left.
pub read_entry-encode : (e : Entry) (s : Bytes) → Fits e → read_entry (encode e ++ s) ≡ some (e, s)
unfolding read_entry
read_entry-encode e s v = rw (encode-append e s) (
    rw (read_u32-write wal_magic (encode_body e ++ s) (omega arith), read_entry)
      (read_body-encode_body e s v))
