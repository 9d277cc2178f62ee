-- ===== src/Tablet/Replay.antt =====
-- kvstore/src/tablet.cc: `replay_wal` and `recover`.
pub mod Laws
pub mod Index
use ncloud.Common.{
  ℕ, zero, suc, ◌-◌, Option, none, some, Bytes, length, take, Bool, true, false, ◌==◌,
  if◌then◌else◌,
}
use ncloud.Common.Dict.{lookup}
use ncloud.Bloom.{BitArray}
use ncloud.Wal.{Entry, wal_put, read_entry}
use ncloud.Rows.{apply_entry}
use ncloud.Tablet.{Tablet, next_u64, learn}
use ncloud.Tablet.Checkpoint.{load_checkpoint}

-- One entry of the log: the table, the filter for a new row, and the LSN, which every entry raises.
pub replay_entry : Entry → Tablet → Tablet
unfolding learn
replay_entry e t = record t {
  rows = apply_entry e t.rows;
  bloom = if e.op == wal_put then learn (lookup e.row t.rows) t.bloom e.row else t.bloom;
  lsn = next_u64 t.lsn;
}

-- The loop, with what it left unread. The fuel is the length of the log, and each entry takes some
-- of it away.
pub replay_loop : ℕ → Bytes → Tablet → Bytes × Tablet
unfolding replay_entry
replay_loop zero s t = (s, t)
replay_loop (suc fuel) s t = elim (read_entry s) [
  | none ↦ (s, t)
  | some (e, rest) ↦ replay_loop fuel rest (replay_entry e t)
]

-- `last_good_pos` is what was read of the log; `resized` says whether the file system cut the rest.
unfoldable pub cut_tail : Bool → Bytes × Tablet → Tablet
cut_tail resized (rest, t) = record t {
  wal_file = if resized then take (length t.wal_file - length rest) t.wal_file else t.wal_file;
}

unfoldable pub replay_wal : Bool → Tablet → Bool × Tablet
unfolding replay_loop cut_tail
replay_wal resized t = (true, cut_tail resized (replay_loop (length t.wal_file) t.wal_file t))

unfoldable pub recover : Bool → Tablet → Bool × Tablet
unfolding replay_wal
recover resized t =
    let (loaded, t') = load_checkpoint t in if loaded then replay_wal resized t' else (false, t')
