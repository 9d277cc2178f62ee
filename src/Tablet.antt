-- ===== src/Tablet.antt =====
-- kvstore/src/tablet.h and tablet.cc: one slice of the key-value table, with its write-ahead log. A
-- call runs under `wal_mu_`, so each is one step from a tablet to a tablet. The file system answers
-- by an argument of the call that writes.
pub mod Cells
pub mod Calls
pub mod Refine
pub mod Checkpoint
pub mod Replay
pub mod Durable
pub mod Logging
pub mod Writes
pub mod Restart
pub mod Replica
pub mod History
pub mod Delta
use ncloud.Common.{
  ℕ, ◌+◌, ◌%◌, ◌^◌, Option, none, some, ◌++◌, Bytes, bytes_eq, Bool, true, false, ◌==◌, leb, take,
  if◌then◌else◌, [],
}
use ncloud.Common.Dict.{lookup}
use ncloud.Bloom.{BitArray, empty_bits, add, may_contain}
use ncloud.Wal.{Entry, put_entry, delete_entry, encode}
use ncloud.Rows.{Rows, Cols, set_cell, erase_cell}

-- `wal_open` and `wal_good` are the state of the stream `wal_`; `wal_file` and `ckpt_file` are the
-- files at `wal_path_` and `ckpt_path_`.
pub record Tablet : Type 0 where
  pub rows : Rows
  pub bloom : BitArray
  pub wal_open : Bool
  pub wal_good : Bool
  pub wal_file : Bytes
  pub ckpt_file : Option Bytes
  pub lsn : ℕ
  pub checkpoint_version : ℕ
  pub op_count : ℕ

-- A tablet as it is constructed over the files that a process left: nothing is loaded yet.
unfoldable pub open_tablet : Bytes → Option Bytes → Tablet
open_tablet wal ckpt = record {
  rows = [];
  bloom = empty_bits;
  wal_open = true;
  wal_good = true;
  wal_file = wal;
  ckpt_file = ckpt;
  lsn = 0;
  checkpoint_version = 0;
  op_count = 0;
}

-- How the writes of one entry end: all of it is in the file, or only its first bytes, and the
-- stream has failed.
pub data Write : Type 0 where
  whole : Write
  torn : ℕ → Write

-- `fetch_add(1) + 1` on a `std::atomic<uint64_t>`
abbrev pub next_u64 : ℕ → ℕ
next_u64 n = (n + 1) % 2 ^ 64

flush_entry : Write → Entry → Tablet → Option ℕ × Tablet
flush_entry whole e t =
    (some (next_u64 t.lsn), record t { wal_file = t.wal_file ++ encode e; lsn = next_u64 t.lsn })
flush_entry (torn n) e t =
    (none, record t { wal_file = t.wal_file ++ take n (encode e); wal_good = false })

-- The LSN that the entry got, or `none` for `false`. A stream that has failed writes nothing more
-- until it is opened anew.
pub append_entry : Write → Entry → Tablet → Option ℕ × Tablet
unfolding flush_entry
append_entry w e t =
    if t.wal_open then (if t.wal_good then flush_entry w e t else (none, t)) else (none, t)

pub write_wal_put : Write → Bytes → Bytes → Bytes → Tablet → Option ℕ × Tablet
unfolding append_entry
write_wal_put w row col val t = append_entry w (put_entry row col val) t

pub write_wal_delete : Write → Bytes → Bytes → Tablet → Option ℕ × Tablet
unfolding append_entry
write_wal_delete w row col t = append_entry w (delete_entry row col) t

-- The filter learns a row when `get_or_create_row` makes it.
pub learn : Option Cols → BitArray → Bytes → BitArray
learn none bits row = add bits row
learn (some _) bits row = bits

pub store_cell : Bytes → Bytes → Bytes → Tablet → Tablet
unfolding learn
store_cell row col val t = record t {
  rows = set_cell row col val t.rows;
  bloom = learn (lookup row t.rows) t.bloom row;
}

pub drop_cell : Bytes → Bytes → Tablet → Tablet
drop_cell row col t = record t { rows = erase_cell row col t.rows }

pub count_op : Tablet → Tablet
count_op t = record t { op_count = next_u64 t.op_count }

-- What a write returns: its `bool`, `*deleted_out` and `*assigned_lsn`.
pub record Outcome : Type 0 where
  pub ok : Bool
  pub deleted : Bool
  pub assigned_lsn : ℕ

abbrev pub failed : Outcome
failed = record { ok = false; deleted = false; assigned_lsn = 0 }

abbrev pub nothing_to_delete : Outcome
nothing_to_delete = record { ok = true; deleted = false; assigned_lsn = 0 }

abbrev pub written : ℕ → Outcome
written n = record { ok = true; deleted = false; assigned_lsn = n }

abbrev pub removed : ℕ → Outcome
removed n = record { ok = true; deleted = true; assigned_lsn = n }

commit_put : Bytes → Bytes → Bytes → Option ℕ × Tablet → Outcome × Tablet
commit_put row col val (none, t) = (failed, t)
commit_put row col val (some n, t) = (written n, count_op (store_cell row col val t))

unfoldable pub put : Write → Bytes → Bytes → Bytes → Tablet → Outcome × Tablet
unfolding write_wal_put commit_put store_cell count_op
put w row col val t = commit_put row col val (write_wal_put w row col val t)

found_cell : Option Bytes → Tablet → Option Bytes × Tablet
found_cell none t = (none, t)
found_cell (some v) t = (some v, count_op t)

unfoldable pub get : Bytes → Bytes → Tablet → Option Bytes × Tablet
unfolding found_cell count_op
get row col t =
    if may_contain t.bloom row
    then elim (lookup row t.rows) [ none ↦ (none, t) | some cols ↦ found_cell (lookup col cols) t ]
    else (none, t)

swap_cell : Write → Bytes → Bytes → Bytes → Bytes → Option Bytes → Tablet → Outcome × Tablet
unfolding write_wal_put commit_put store_cell count_op
swap_cell w row col v1 v2 none t = (failed, t)
swap_cell w row col v1 v2 (some v) t =
    if bytes_eq v v1 then commit_put row col v2 (write_wal_put w row col v2 t) else (failed, t)

unfoldable pub cput : Write → Bytes → Bytes → Bytes → Bytes → Tablet → Outcome × Tablet
unfolding swap_cell
cput w row col v1 v2 t =
    if may_contain t.bloom row
    then elim (lookup row t.rows) [
      | none ↦ (failed, t)
      | some cols ↦ swap_cell w row col v1 v2 (lookup col cols) t
    ]
    else (failed, t)

commit_delete : Bytes → Bytes → Option ℕ × Tablet → Outcome × Tablet
commit_delete row col (none, t) = (failed, t)
commit_delete row col (some n, t) = (removed n, count_op (drop_cell row col t))

remove_cell : Write → Bytes → Bytes → Option Bytes → Tablet → Outcome × Tablet
unfolding write_wal_delete commit_delete drop_cell count_op
remove_cell w row col none t = (nothing_to_delete, t)
remove_cell w row col (some v) t = commit_delete row col (write_wal_delete w row col t)

-- A cell that is not there is no failure, and nothing is logged for it.
unfoldable pub del : Write → Bytes → Bytes → Tablet → Outcome × Tablet
unfolding remove_cell
del w row col t =
    if may_contain t.bloom row
    then elim (lookup row t.rows) [
      | none ↦ (nothing_to_delete, t)
      | some cols ↦ remove_cell w row col (lookup col cols) t
    ]
    else (nothing_to_delete, t)

-- The writes of a replica: an LSN that it already has is skipped, a gap is refused.
replicated_put_logged : Bytes → Bytes → Bytes → ℕ → Option ℕ × Tablet → Bool × Tablet
replicated_put_logged row col val expected (none, t) = (false, t)
replicated_put_logged row col val expected (some n, t) =
    if n == expected then (true, count_op (store_cell row col val t)) else (false, t)

unfoldable pub apply_replicated_put : Write → Bytes → Bytes → Bytes → ℕ → Tablet → Bool × Tablet
unfolding write_wal_put replicated_put_logged store_cell count_op
apply_replicated_put w row col val expected t =
    if leb expected t.lsn
    then (true, t)
    else if expected == next_u64 t.lsn
    then replicated_put_logged row col val expected (write_wal_put w row col val t)
    else (false, t)

-- The delete of a replica is logged also where the cell is not there.
replicated_delete_logged : Bytes → Bytes → ℕ → Option ℕ × Tablet → Bool × Tablet
replicated_delete_logged row col expected (none, t) = (false, t)
replicated_delete_logged row col expected (some n, t) =
    if n == expected then (true, count_op (drop_cell row col t)) else (false, t)

unfoldable pub apply_replicated_delete : Write → Bytes → Bytes → ℕ → Tablet → Bool × Tablet
unfolding write_wal_delete replicated_delete_logged drop_cell count_op
apply_replicated_delete w row col expected t =
    if leb expected t.lsn
    then (true, t)
    else if expected == next_u64 t.lsn
    then replicated_delete_logged row col expected (write_wal_delete w row col t)
    else (false, t)

-- The overload that takes the LSN as a result and checks none.
unfoldable pub apply_delete_unchecked : Write → Bytes → Bytes → Tablet → Outcome × Tablet
unfolding write_wal_delete commit_delete drop_cell count_op
apply_delete_unchecked w row col t = commit_delete row col (write_wal_delete w row col t)
