-- ===== src/Tablet/Checkpoint.antt =====
-- kvstore/src/tablet.cc: `checkpoint_locked`, `load_checkpoint`, `snapshot_blob` and
-- `load_snapshot_blob`.
pub mod Read
use ncloud.Common.{
  ℕ, ◌+◌, ◌≡◌, Option, none, some, [], ◌++◌, Bytes, length, Bool, true, false, ◌==◌, if◌then◌else◌,
  ◌>>=◌,
}
use ncloud.Codec.{cast_u32, write_u32_le, write_u64_le, read_u32_le, read_u64_le}
use ncloud.Bloom.{BitArray, empty_bits, serialize, deserialize}
use ncloud.Rows.{Rows}
use ncloud.Image.{write_rows, load_rows, Loaded, unpack_rows}
use ncloud.Tablet.{Tablet, next_u64}

abbrev pub ckpt_magic : ℕ
ckpt_magic = 0xC0DEFACE

-- The file that a checkpoint writes under the temporary name.
pub checkpoint_file : Tablet → Bytes
checkpoint_file t =
    write_u32_le ckpt_magic
    ++ (write_u64_le (next_u64 t.checkpoint_version)
        ++ (write_u64_le t.lsn
            ++ (write_u32_le (cast_u32 (length t.rows))
                ++ (write_rows t.rows ++ serialize t.bloom))))

-- How far the file system lets a checkpoint get: the temporary file cannot be written; it cannot be
-- renamed; the log cannot be emptied, and is opened again to append, or is not; all is done.
pub data CheckpointIo : Type 0 where
  no_temp no_rename done : CheckpointIo
  no_truncate : Bool → CheckpointIo

unfoldable pub checkpoint_locked : CheckpointIo → Tablet → Bool × Tablet
unfolding checkpoint_file
checkpoint_locked no_temp t = (false, t)
checkpoint_locked no_rename t = (false, t)
checkpoint_locked (no_truncate reopened) t = (
  false,
  record t { ckpt_file = some (checkpoint_file t); wal_open = reopened; wal_good = reopened },
)
checkpoint_locked done t = (
  true,
  record t {
    ckpt_file = some (checkpoint_file t);
    wal_file = [];
    wal_open = true;
    wal_good = true;
    checkpoint_version = next_u64 t.checkpoint_version;
  },
)

pub record Header : Type 0 where
  pub version : ℕ
  pub lsn : ℕ
  pub nrows : ℕ

pub read_versions : Bytes → Option (Header × Bytes)
read_versions s = do
  (version, s₁) ← read_u64_le s
  (lsn, s₂) ← read_u64_le s₁
  (nrows, s₃) ← read_u32_le s₂
  some (record { version = version; lsn = lsn; nrows = nrows }, s₃)

-- A file with no magic is of the older format, which begins with the number of rows.
pub read_header : Bytes → Option (Header × Bytes)
unfolding read_versions
read_header s = do
  (first, rest) ← read_u32_le s
  if first == ckpt_magic
      then read_versions rest
      else some (record { version = 0; lsn = 0; nrows = first }, rest)

-- What follows the rows fills the filter; a filter that is cut short is not noticed.
pub load_table : Header → Loaded → Tablet → Bool × Tablet
load_table h l t =
    if l.ok
    then (
      true,
      record t {
        rows = l.rows;
        bloom = (deserialize l.rest).0;
        checkpoint_version = h.version;
        lsn = h.lsn;
      },
    )
    else (false, record t { rows = l.rows; bloom = l.bloom })

pub load_file : Bytes → Tablet → Bool × Tablet
unfolding read_header load_table
load_file s t = elim (read_header s) [
  | none ↦ (false, t)
  | some (h, rest) ↦ load_table h (load_rows h.nrows [] empty_bits rest) t
]

pub load_from : Option Bytes → Tablet → Bool × Tablet
load_from none t = (true, record t { checkpoint_version = 0 })
load_from (some s) t = load_file s t

unfoldable pub load_checkpoint : Tablet → Bool × Tablet
unfolding load_from load_file
load_checkpoint t = load_from t.ckpt_file t

pub snapshot_blob : Tablet → Bytes
snapshot_blob t =
    write_u32_le (cast_u32 (length t.rows))
    ++ (write_u64_le t.lsn ++ (write_u64_le t.checkpoint_version ++ write_rows t.rows))

-- The reading of a blob: `none` where it is cut short or a length in it is too large.
read_snapshot : Bytes → Tablet → Option Tablet
read_snapshot blob t = do
  (nrows, s₁) ← read_u32_le blob
  (lsn, s₂) ← read_u64_le s₁
  (version, s₃) ← read_u64_le s₂
  (rows, bloom) ← unpack_rows nrows [] empty_bits s₃
  some (record t { rows = rows; bloom = bloom; lsn = lsn; checkpoint_version = version })

adopt : CheckpointIo → Tablet → Option Tablet → Bool × Tablet
unfolding checkpoint_locked
adopt io t none = (false, t)
adopt io t (some u) = checkpoint_locked io u

-- The table of a snapshot replaces the tablet's own only where all of the blob was read.
unfoldable pub load_snapshot_blob : CheckpointIo → Bytes → Tablet → Bool × Tablet
unfolding read_snapshot adopt
load_snapshot_blob io blob t = adopt io t (read_snapshot blob t)
