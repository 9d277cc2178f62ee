-- ===== src/Tests/Storage.antt =====
-- The tablet of kvstore/src/tablet.cc and its files, at concrete inputs.
use ncloud.Common.{
  ◌+◌, ◌≡◌, refl, ◌<◌, some, none, [], ◌∷◌, ◌++◌, Bytes, Bool, true, codes, arith, ap,
  if◌then◌else◌, ◌&&◌,
}
use ncloud.Common.Dict.{lookup, insert}
use ncloud.Codec.{write_u32_le, le_bytes}
use ncloud.Wal.{Entry, put_entry, encode, read_entry}
use ncloud.Wal.Laws.{Fits, read_entry-encode}
use ncloud.Tablet.{open_tablet, Tablet, whole, torn, put, get, cput, del, apply_replicated_put}
use ncloud.Tablet.Cells.{IsIndexed}
use ncloud.Rows.{set_cell}
use ncloud.Tablet.Checkpoint.{checkpoint_file, load_checkpoint}
use ncloud.Tablet.Checkpoint.Read.{IsBounded, load_checkpoint-checkpoint_file}
use ncloud.Tablet.Calls.{is_cell, put-IsIndexed}
use ncloud.Tablet.Refine.{put_refines, cput_refines, del_refines}
use ncloud.Tablet.Replica.{apply_replicated_put_lem}
use ncloud.Tablet.History.{fresh, fresh-IsIndexed, Reach, here, next, puts, crash_loses_nothing}
use ncloud.Tablet.Restart.{restarted}

abbrev row : Bytes
row = codes "alice"

abbrev col : Bytes
col = codes "inbox"

abbrev val : Bytes
val = codes "hello"

abbrev entry : Entry
entry = put_entry row col val

entry-Fits : Fits entry
entry-Fits = omega arith

-- One write is in the log, and the next was torn after three bytes.
abbrev stored : Tablet
stored = (put whole row col val fresh).1

abbrev broken : Tablet
broken = (put (torn 3) row col (codes "again") stored).1

stored-IsIndexed : IsIndexed stored
stored-IsIndexed = put-IsIndexed whole row col val fresh fresh-IsIndexed

broken-Reach : Reach fresh broken
unfolding encode write_u32_le le_bytes
broken-Reach =
    next (next here (puts fresh whole row col val entry-Fits tt))
      (puts stored (torn 3) row col (codes "again") (omega arith) (omega arith))

crash_loses_nothing_example : (restarted true broken).rows ≡ broken.rows
crash_loses_nothing_example = (crash_loses_nothing broken broken-Reach).0

put_refines_example : (get row col broken).0 ≡ (
    if (put (torn 3) row col (codes "again") stored).0.ok && is_cell row col row col
    then some (codes "again")
    else (get row col stored).0)
put_refines_example =
    (put_refines (torn 3) row col (codes "again") stored stored-IsIndexed).1 row col

cput_refines_example : IsIndexed (cput whole row col val (codes "bye") stored).1
cput_refines_example = (cput_refines whole row col val (codes "bye") stored stored-IsIndexed).0

del_refines_example : (get row col (del whole row col stored).1).0 ≡ (
    if (del whole row col stored).0.deleted && is_cell row col row col
    then none
    else (get row col stored).0)
del_refines_example = (del_refines whole row col stored stored-IsIndexed).1 row col

small_lsn : fresh.lsn + 1 < 18446744073709551616
unfolding open_tablet
small_lsn = omega arith

apply_replicated_put_lem_example : (apply_replicated_put whole row col val 1 fresh).0 ≡ true
unfolding open_tablet
apply_replicated_put_lem_example =
    (apply_replicated_put_lem whole row col 1 fresh val small_lsn).3 (omega arith) refl refl

read_entry-encode_example : read_entry (encode entry ++ codes "rest") ≡ some (entry, codes "rest")
read_entry-encode_example = read_entry-encode entry (codes "rest") entry-Fits

stored-rows : stored.rows ≡ (row, (col, val) ∷ []) ∷ []
unfolding put open_tablet set_cell lookup insert
stored-rows = refl

stored-IsBounded : IsBounded stored
unfolding put open_tablet lookup
stored-IsBounded = record {
  rows = rw stored-rows (record {
    keys = (refl, tt);
    count = omega arith;
    sizes =
        ((omega arith, record { keys = (refl, tt); count = omega arith; sizes = omega arith }), tt);
  });
  lsn = omega arith;
  version = omega arith;
}

load_checkpoint-checkpoint_file_example :
    (load_checkpoint (open_tablet [] (some (checkpoint_file stored)))).0 ≡ true
unfolding open_tablet
load_checkpoint-checkpoint_file_example =
    ap (λ (r : Bool × Tablet). r.0)
      (load_checkpoint-checkpoint_file stored (open_tablet [] (some (checkpoint_file stored)))
        stored-IsBounded refl)
