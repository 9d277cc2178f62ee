-- ===== src/Tablet/History.antt =====
-- Histories of a tablet: calls in any order, torn writes, checkpoints and crashes. A crash is a new
-- process over the files, at any point between two calls, that can cut a torn tail off the log. A
-- checkpoint is done, or it fails before the rename; one that has renamed its file and has not emptied
-- the log is no step, for the next process then replays entries that the checkpoint has.
use ncloud.Common.{ℕ, ◌≡◌, refl, ◌∙◌, sym, none, Bytes, true, [], ap}
use ncloud.Common.Dict.{lookup}
use ncloud.Bloom.{empty_bits}
use ncloud.Bloom.Laws.{empty_bits-IsByteArray}
use ncloud.Rows.{cell, apply_entries}
use ncloud.Wal.{put_entry, delete_entry}
use ncloud.Wal.Laws.{Fits}
use ncloud.Wal.Torn.{read_entry-nil}
use ncloud.Tablet.{
  Tablet, Write, open_tablet, put, get, cput, del, apply_replicated_put, apply_replicated_delete,
}
use ncloud.Tablet.Cells.{IsIndexed, get-eq-cell, same_table-IsIndexed}
use ncloud.Tablet.Calls.{put-IsIndexed, cput-IsIndexed, del-IsIndexed}
use ncloud.Tablet.Replica.{apply_replicated_put-IsIndexed, apply_replicated_delete-IsIndexed}
use ncloud.Tablet.Checkpoint.{checkpoint_locked, no_temp, no_rename, done, load_checkpoint}
use ncloud.Tablet.Checkpoint.Read.{IsBounded}
use ncloud.Tablet.Replay.Laws.{encode_all, advance}
use ncloud.Tablet.Durable.{IsDurable, recover-IsDurable}
use ncloud.Tablet.Logging.{IsTorn}
use ncloud.Tablet.Writes.{
  put-IsDurable, cput-IsDurable, del-IsDurable, apply_replicated_put-IsDurable,
  apply_replicated_delete-IsDurable,
}
use ncloud.Tablet.Restart.{
  checkpoint-IsDurable, checkpoint-IsIndexed, restarted, restarted-IsDurable, restarted-IsIndexed,
}

pub data Step : Tablet → Tablet → Type 0 where
  puts :
      (t : Tablet) (w : Write) (row col val : Bytes)
      → Fits (put_entry row col val)
      → IsTorn w (put_entry row col val)
      → Step t (put w row col val t).1
  cputs :
      (t : Tablet) (w : Write) (row col v1 v2 : Bytes)
      → Fits (put_entry row col v2)
      → IsTorn w (put_entry row col v2)
      → Step t (cput w row col v1 v2 t).1
  dels :
      (t : Tablet) (w : Write) (row col : Bytes)
      → Fits (delete_entry row col)
      → IsTorn w (delete_entry row col)
      → Step t (del w row col t).1
  replicated_puts :
      (t : Tablet) (w : Write) (row col val : Bytes) (expected : ℕ)
      → Fits (put_entry row col val)
      → IsTorn w (put_entry row col val)
      → Step t (apply_replicated_put w row col val expected t).1
  replicated_dels :
      (t : Tablet) (w : Write) (row col : Bytes) (expected : ℕ)
      → Fits (delete_entry row col)
      → IsTorn w (delete_entry row col)
      → Step t (apply_replicated_delete w row col expected t).1
  checkpoints : (t : Tablet) → IsBounded t → Step t (checkpoint_locked done t).1
  unwritten_checkpoints : (t : Tablet) → Step t (checkpoint_locked no_temp t).1
  unnamed_checkpoints : (t : Tablet) → Step t (checkpoint_locked no_rename t).1
  crashes : (t : Tablet) → Step t (restarted true t)

pub data Reach (s : Tablet) : Tablet → Type 0 where
  here : Reach s s
  next : {t u : Tablet} → Reach s t → Step t u → Reach s u

pub record IsSound (t : Tablet) : Type 0 where
  pub durable : IsDurable t
  pub indexed : IsIndexed t

Step-IsSound : {t u : Tablet} → Step t u → IsSound t → IsSound u
unfolding checkpoint_locked
Step-IsSound (puts t w row col val f x) s = record {
  durable = put-IsDurable w row col t s.durable val f x;
  indexed = put-IsIndexed w row col val t s.indexed;
}
Step-IsSound (cputs t w row col v1 v2 f x) s = record {
  durable = cput-IsDurable w row col t s.durable v2 f x v1;
  indexed = cput-IsIndexed w row col v1 v2 t s.indexed;
}
Step-IsSound (dels t w row col f x) s = record {
  durable = del-IsDurable w row col t s.durable f x;
  indexed = del-IsIndexed w row col t s.indexed;
}
Step-IsSound (replicated_puts t w row col val n f x) s = record {
  durable = apply_replicated_put-IsDurable w row col t s.durable val f x n;
  indexed = apply_replicated_put-IsIndexed w row col n t val s.indexed;
}
Step-IsSound (replicated_dels t w row col n f x) s = record {
  durable = apply_replicated_delete-IsDurable w row col t s.durable f x n;
  indexed = apply_replicated_delete-IsIndexed w row col n t s.indexed;
}
Step-IsSound (checkpoints t b) s = record {
  durable = checkpoint-IsDurable t b s.indexed;
  indexed = checkpoint-IsIndexed t s.indexed;
}
Step-IsSound (unwritten_checkpoints t) s = s
Step-IsSound (unnamed_checkpoints t) s = s
Step-IsSound (crashes t) s = record {
  durable = restarted-IsDurable t s.durable;
  indexed = restarted-IsIndexed t s.durable true;
}

abbrev pub fresh : Tablet
fresh = open_tablet [] none

pub fresh-IsIndexed : IsIndexed fresh
unfolding open_tablet lookup
fresh-IsIndexed = record { bits = empty_bits-IsByteArray; rows = λ row cols h. cc }

fresh-IsSound : IsSound fresh
unfolding open_tablet load_checkpoint encode_all apply_entries advance
fresh-IsSound = record {
  durable = record {
    base_rows = [];
    base_bloom = empty_bits;
    base_lsn = 0;
    base_indexed = same_table-IsIndexed fresh _ refl refl fresh-IsIndexed;
    log = [];
    tail = [];
    loads = λ wal. refl;
    file = refl;
    fits = tt;
    unread = read_entry-nil;
    clean = λ _. refl;
    rows = refl;
    lsn = refl;
  };
  indexed = fresh-IsIndexed;
}

pub Reach-IsSound : {t : Tablet} → Reach fresh t → IsSound t
Reach-IsSound here = fresh-IsSound
Reach-IsSound (next r st) = Step-IsSound st (Reach-IsSound r)

-- After any history of calls with fields that fit the log's format, torn writes, checkpoints that are
-- done or fail before the rename, and crashes between calls, a crash loses nothing and makes nothing
-- up, if a torn tail can be cut off: the next process has the same table, LSN and checkpoint version,
-- and reads of every cell answer as before.
pub crash_loses_nothing :
    (t : Tablet)
    → Reach fresh t
    → ((restarted true t).rows ≡ t.rows)
      × ((restarted true t).lsn ≡ t.lsn)
      × ((restarted true t).checkpoint_version ≡ t.checkpoint_version)
      × ((row col : Bytes) → (get row col (restarted true t)).0 ≡ (get row col t).0)
unfolding restarted
crash_loses_nothing t r =
    let s = Reach-IsSound r in
    let after = recover-IsDurable t s.durable true in
    (
      after.1,
      after.2,
      after.3,
      λ row col.
          get-eq-cell row col _ (restarted-IsIndexed t s.durable true)
          ∙ ap (cell row col) after.1
          ∙ sym (get-eq-cell row col t s.indexed),
    )
