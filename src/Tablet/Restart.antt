-- ===== src/Tablet/Restart.antt =====
-- A checkpoint and a restart keep the tablet durable and its filter in step with its table.
use ncloud.Common.{
  ℕ, ◌≡◌, refl, subst, sym, ap, ◌∙◌, Option, none, some, [], append-nil, Bytes, Bool, true,
}
use ncloud.Bloom.{serialize, deserialize, may_contain}
use ncloud.Bloom.Laws.{IsByteArray}
use ncloud.Bloom.File.{deserialize-IsByteArray, may_contain-deserialize}
use ncloud.Wal.Torn.{read_entry-nil}
use ncloud.Rows.{apply_entries}
use ncloud.Tablet.{Tablet, open_tablet}
use ncloud.Tablet.Cells.{IsIndexed, same_table-IsIndexed}
use ncloud.Tablet.Checkpoint.{checkpoint_locked, done, checkpoint_file}
use ncloud.Tablet.Checkpoint.Read.{IsBounded, load_checkpoint-checkpoint_file}
use ncloud.Tablet.Replay.{recover, cut_tail}
use ncloud.Tablet.Replay.Laws.{encode_all, replay_entries, replay_entries_lem, advance}
use ncloud.Tablet.Replay.Index.{replay_entries-IsIndexed}
use ncloud.Tablet.Durable.{IsDurable, loaded, recover_lem, base, recover-IsDurable}

-- The filter read back from the checkpoint holds the rows of the table.
read_filter-IsIndexed :
    (t : Tablet) (wal : Bytes) (ckpt : Option Bytes) (lsn version : ℕ)
    → IsIndexed t
    → IsIndexed (loaded wal ckpt t.rows (deserialize (serialize t.bloom)).0 lsn version)
read_filter-IsIndexed t wal ckpt lsn version v = record {
  bits =
      subst (λ s. IsByteArray (deserialize s).0) (append-nil (serialize t.bloom))
        (deserialize-IsByteArray t.bloom [] v.bits);
  rows = λ row cols h.
      subst (λ s. may_contain (deserialize s).0 row ≡ true) (append-nil (serialize t.bloom))
        (may_contain-deserialize t.bloom [] row (v.rows row cols h));
}

-- A checkpoint that is done leaves files that hold the whole table, with an empty log.
pub checkpoint-IsDurable :
    (t : Tablet) → IsBounded t → IsIndexed t → IsDurable (checkpoint_locked done t).1
unfolding checkpoint_locked open_tablet apply_entries advance encode_all
checkpoint-IsDurable t v x = record {
  base_rows = t.rows;
  base_bloom = (deserialize (serialize t.bloom)).0;
  base_lsn = t.lsn;
  base_indexed = read_filter-IsIndexed t [] none 0 0 x;
  log = [];
  tail = [];
  loads =
      λ wal. load_checkpoint-checkpoint_file t (open_tablet wal (some (checkpoint_file t))) v refl;
  file = refl;
  fits = tt;
  unread = read_entry-nil;
  clean = λ _. refl;
  rows = refl;
  lsn = refl;
}

pub checkpoint-IsIndexed : (t : Tablet) → IsIndexed t → IsIndexed (checkpoint_locked done t).1
unfolding checkpoint_locked
checkpoint-IsIndexed t x = same_table-IsIndexed t _ refl refl x

-- The tablet of a new process over the files of another.
unfoldable pub restarted : Bool → Tablet → Tablet
restarted resized t = (recover resized (open_tablet t.wal_file t.ckpt_file)).1

module _ (t : Tablet) (d : IsDurable t) where
  replayed-IsIndexed : IsIndexed (replay_entries d.log (base t d))
  unfolding open_tablet
  replayed-IsIndexed = replay_entries-IsIndexed d.log (base t d) (
      same_table-IsIndexed (loaded [] none d.base_rows d.base_bloom 0 0) _ refl refl d.base_indexed)

  pub restarted-IsIndexed : (resized : Bool) → IsIndexed (restarted resized t)
  unfolding restarted cut_tail
  restarted-IsIndexed resized =
      rw (recover_lem t d resized, restarted)
        (same_table-IsIndexed (replay_entries d.log (base t d)) _ refl refl replayed-IsIndexed)

  restarted-ckpt_file : (resized : Bool) → (restarted resized t).ckpt_file ≡ t.ckpt_file
  unfolding restarted cut_tail open_tablet
  restarted-ckpt_file resized =
      rw (recover_lem t d resized, restarted)
        (ap (λ (u : Tablet). u.ckpt_file) (replay_entries_lem d.log (base t d)))

  pub restarted-IsDurable : IsDurable (restarted true t)
  unfolding restarted
  restarted-IsDurable = record {
    base_rows = d.base_rows;
    base_bloom = d.base_bloom;
    base_lsn = d.base_lsn;
    base_indexed = d.base_indexed;
    log = d.log;
    tail = [];
    loads = λ wal. rw (restarted-ckpt_file true, (recover-IsDurable t d true).3) (d.loads wal);
    file = (recover-IsDurable t d true).4 refl ∙ sym (append-nil (encode_all d.log));
    fits = d.fits;
    unread = read_entry-nil;
    clean = λ _. refl;
    rows = (recover-IsDurable t d true).1 ∙ d.rows;
    lsn = (recover-IsDurable t d true).2 ∙ d.lsn;
  }
