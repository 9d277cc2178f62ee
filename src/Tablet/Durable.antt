-- ===== src/Tablet/Durable.antt =====
-- What the files of a tablet hold: the checkpoint and the log together are the table and the LSN.
use ncloud.Common.{
  ℕ, ◌-◌, ◌≡◌, refl, subst, ap, sym, ◌∙◌, Option, none, List, [], ◌++◌, Bytes, length, take,
  take-append_front, All, arith, Bool, true,
}
use ncloud.Bloom.{BitArray}
use ncloud.Wal.{Entry, read_entry}
use ncloud.Wal.Laws.{Fits}
use ncloud.Rows.{Rows, apply_entries}
use ncloud.Tablet.{Tablet, open_tablet}
use ncloud.Tablet.Cells.{IsIndexed}
use ncloud.Tablet.Checkpoint.{load_checkpoint}
use ncloud.Tablet.Replay.{replay_loop, recover, cut_tail}
use ncloud.Tablet.Replay.Laws.{
  encode_all, replay_entries, replay_loop-encode_all, replay_entries_lem, advance,
}

-- What loading the checkpoint gives, over the log file that is there.
abbrev pub loaded : Bytes → Option Bytes → Rows → BitArray → ℕ → ℕ → Tablet
loaded wal ckpt rows bloom lsn version = record (open_tablet wal ckpt) {
  rows = rows;
  bloom = bloom;
  lsn = lsn;
  checkpoint_version = version;
}

-- The log is whole entries and then a tail that no entry can be read from, and there is a tail only
-- where the stream has failed; the entries bring the checkpoint's table and LSN to those in memory.
pub record IsDurable (t : Tablet) : Type 0 where
  pub base_rows : Rows
  pub base_bloom : BitArray
  pub base_lsn : ℕ
  pub base_indexed : IsIndexed (loaded [] none base_rows base_bloom 0 0)
  pub log : List Entry
  pub tail : Bytes
  pub loads :
      (wal : Bytes)
      → load_checkpoint (open_tablet wal t.ckpt_file)
        ≡ (true, loaded wal t.ckpt_file base_rows base_bloom base_lsn t.checkpoint_version)
  pub file : t.wal_file ≡ encode_all log ++ tail
  pub fits : All Fits log
  pub unread : read_entry tail ≡ none
  pub clean : t.wal_good ≡ true → tail ≡ []
  pub rows : t.rows ≡ apply_entries log base_rows
  pub lsn : t.lsn ≡ advance (length log) base_lsn

module _ (t : Tablet) (d : IsDurable t) where
  abbrev pub base : Tablet
  base = loaded t.wal_file t.ckpt_file d.base_rows d.base_bloom d.base_lsn t.checkpoint_version

  pub scan : replay_loop (length t.wal_file) t.wal_file base ≡ (d.tail, replay_entries d.log base)
  scan =
      subst (λ s. replay_loop (length s) s base ≡ (d.tail, replay_entries d.log base)) (sym d.file)
        (replay_loop-encode_all _ d.log d.tail base (omega arith) d.fits d.unread)

  pub recover_lem :
      (resized : Bool)
      → recover resized (open_tablet t.wal_file t.ckpt_file)
        ≡ (true, cut_tail resized (d.tail, replay_entries d.log base))
  unfolding recover open_tablet
  recover_lem resized = rw (d.loads t.wal_file) (ap (λ r. (true, cut_tail resized r)) scan)

  replayed :
      replay_entries d.log base
      ≡ record base { rows = t.rows; bloom = (replay_entries d.log base).bloom; lsn = t.lsn }
  replayed = replay_entries_lem d.log base ∙ λ i. record base {
    rows = sym d.rows i;
    bloom = (replay_entries d.log base).bloom;
    lsn = sym d.lsn i;
  }

  -- What a new process recovers from the files that this one leaves at any moment: the table, the
  -- LSN and the version in memory; and the torn tail is gone if the file system cuts it.
  pub recover-IsDurable :
      (resized : Bool)
      → let r = recover resized (open_tablet t.wal_file t.ckpt_file) in
        (r.0 ≡ true)
        × (r.1.rows ≡ t.rows)
        × (r.1.lsn ≡ t.lsn)
        × (r.1.checkpoint_version ≡ t.checkpoint_version)
        × (resized ≡ true → r.1.wal_file ≡ encode_all d.log)
  unfolding cut_tail open_tablet
  recover-IsDurable resized = rw (recover_lem resized) (
    refl,
    ap (λ (u : Tablet). u.rows) replayed,
    ap (λ (u : Tablet). u.lsn) replayed,
    ap (λ (u : Tablet). u.checkpoint_version) replayed,
    λ e. rw e (rw (ap (λ (u : Tablet). u.wal_file) replayed) cut),
  )
    where
      cut : take (length t.wal_file - length d.tail) t.wal_file ≡ encode_all d.log
      cut =
          subst (λ s. take (length s - length d.tail) s ≡ encode_all d.log) (sym d.file)
            (take-append_front (encode_all d.log) d.tail)
