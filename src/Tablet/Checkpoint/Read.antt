-- ===== src/Tablet/Checkpoint/Read.antt =====
-- A checkpoint or a snapshot is read back as it was written.
use ncloud.Common.{◌<◌, ◌^◌, ◌≡◌, refl, ap, ◌∙◌, some, [], ◌++◌, length, true, arith}
use ncloud.Codec.Laws.{read_u32-write, read_u64-write, cast_u32_small}
use ncloud.Bloom.{empty_bits, serialize, deserialize}
use ncloud.Image.{write_rows}
use ncloud.Image.Laws.{IsStorable, load_rows-write, unpack_rows-write_rows, add_keys}
use ncloud.Tablet.{Tablet, next_u64}
use ncloud.Tablet.Checkpoint.{
  ckpt_magic, checkpoint_file, checkpoint_locked, CheckpointIo, read_header, load_file, load_from,
  load_checkpoint, read_snapshot, adopt, snapshot_blob, load_snapshot_blob,
}

-- The sizes and counters of a tablet fit the fields of the files.
pub record IsBounded (t : Tablet) : Type 0 where
  pub rows : IsStorable t.rows
  pub lsn : t.lsn < 2 ^ 64
  pub version : t.checkpoint_version < 2 ^ 64

read_header-checkpoint_file :
    (t : Tablet)
    → IsBounded t
    → read_header (checkpoint_file t)
      ≡ some (
        record { version = next_u64 t.checkpoint_version; lsn = t.lsn; nrows = length t.rows },
        write_rows t.rows ++ serialize t.bloom,
      )
unfolding read_header checkpoint_file
read_header-checkpoint_file t v = rw (cast_u32_small _ v.rows.count) (
    simp (
      read_u32-write ckpt_magic _ (omega arith),
      read_u64-write (next_u64 t.checkpoint_version) _ (omega arith),
      read_u64-write _ _ v.lsn,
      read_u32-write _ _ v.rows.count,
    ))

load_file-checkpoint_file :
    (t u : Tablet)
    → IsBounded t
    → load_file (checkpoint_file t) u ≡ (
      true,
      record u {
        rows = t.rows;
        bloom = (deserialize (serialize t.bloom)).0;
        checkpoint_version = next_u64 t.checkpoint_version;
        lsn = t.lsn;
      },
    )
unfolding load_file
load_file-checkpoint_file t u v =
    rw (read_header-checkpoint_file t v, load_file)
      (rw (load_rows-write [] t.rows empty_bits (serialize t.bloom) v.rows.keys v.rows.sizes) refl)

-- Loading the file that a checkpoint of `t` wrote gives the table of `t`, its LSN and the next
-- version.
pub load_checkpoint-checkpoint_file :
    (t u : Tablet)
    → IsBounded t
    → u.ckpt_file ≡ some (checkpoint_file t)
    → load_checkpoint u ≡ (
      true,
      record u {
        rows = t.rows;
        bloom = (deserialize (serialize t.bloom)).0;
        checkpoint_version = next_u64 t.checkpoint_version;
        lsn = t.lsn;
      },
    )
unfolding load_checkpoint
load_checkpoint-checkpoint_file t u v e =
    ap (λ o. load_from o u) e ∙ load_file-checkpoint_file t u v

read_snapshot-snapshot_blob :
    (t u : Tablet)
    → IsBounded t
    → read_snapshot (snapshot_blob t) u
      ≡ some (record u {
        rows = t.rows;
        bloom = add_keys t.rows empty_bits;
        lsn = t.lsn;
        checkpoint_version = t.checkpoint_version;
      })
unfolding read_snapshot snapshot_blob
read_snapshot-snapshot_blob t u v = rw (cast_u32_small _ v.rows.count) (
    simp (
      read_u32-write _ _ v.rows.count,
      read_u64-write _ _ v.lsn,
      read_u64-write _ _ v.version,
      unpack_rows-write_rows t.rows empty_bits v.rows,
    ))

-- A snapshot gives its table, LSN and version to any tablet, which then writes a checkpoint of it.
pub load_snapshot_blob-snapshot_blob :
    (io : CheckpointIo) (t u : Tablet)
    → IsBounded t
    → load_snapshot_blob io (snapshot_blob t) u
      ≡ checkpoint_locked io (record u {
        rows = t.rows;
        bloom = add_keys t.rows empty_bits;
        lsn = t.lsn;
        checkpoint_version = t.checkpoint_version;
      })
unfolding load_snapshot_blob
load_snapshot_blob-snapshot_blob io t u v = ap (adopt io u) (read_snapshot-snapshot_blob t u v)
