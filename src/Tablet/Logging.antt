-- ===== src/Tablet/Logging.antt =====
-- Every call that logs keeps the files in step with the memory, also where the write is torn.
use ncloud.Common.{
  ℕ, ◌<◌, ◌≡◌, refl, ap, sym, ◌∙◌, Option, none, some, [], ◌∷◌, ◌++◌, append-nil, length, take,
  All-append, Bool, true, false, if◌then◌else◌,
}
use ncloud.Wal.{Entry, encode}
use ncloud.Wal.Laws.{Fits}
use ncloud.Wal.Torn.{read_entry-take, read_entry-nil}
use ncloud.Rows.{apply_entry}
use ncloud.Tablet.{Tablet, Write, whole, torn, next_u64, append_entry, flush_entry}
use ncloud.Tablet.Replay.Laws.{
  encode_all, encode_all-append, encode_all_one, advance-append_one, apply_entries-append_one,
}
use ncloud.Tablet.Durable.{IsDurable}

-- A write that failed had not brought the whole entry to the file.
abbrev pub IsTorn : Write → Entry → Type 0
IsTorn whole e = Unit
IsTorn (torn n) e = n < length (encode e)

-- The parts that logging leaves alone.
pub record SameBase (t u : Tablet) : Type 0 where
  pub ckpt : u.ckpt_file ≡ t.ckpt_file
  pub version : u.checkpoint_version ≡ t.checkpoint_version

logged-IsDurable :
    (t u : Tablet) (e : Entry)
    → IsDurable t
    → Fits e
    → t.wal_good ≡ true
    → SameBase t u
    → u.wal_file ≡ t.wal_file ++ encode e
    → u.lsn ≡ next_u64 t.lsn
    → u.rows ≡ apply_entry e t.rows
    → IsDurable u
logged-IsDurable t u e d fits good same wal lsn rows = record {
  base_rows = d.base_rows;
  base_bloom = d.base_bloom;
  base_lsn = d.base_lsn;
  base_indexed = d.base_indexed;
  log = d.log ++ e ∷ [];
  tail = [];
  loads = λ w. rw (same.ckpt, same.version) (d.loads w);
  file =
      wal
      ∙ rw (d.file, d.clean good, append-nil (encode_all d.log))
          (rw (append-nil (encode_all (d.log ++ e ∷ [])))
            (rw (encode_all-append d.log (e ∷ []), encode_all_one e)));
  fits = All-append Fits d.log (e ∷ []) d.fits (fits, tt);
  unread = read_entry-nil;
  clean = λ _. refl;
  rows = rows ∙ ap (apply_entry e) d.rows ∙ sym (apply_entries-append_one d.log e d.base_rows);
  lsn = lsn ∙ ap next_u64 d.lsn ∙ sym (advance-append_one d.log e d.base_lsn);
}

torn-IsDurable :
    (t u : Tablet) (e : Entry) (n : ℕ)
    → IsDurable t
    → Fits e
    → n < length (encode e)
    → t.wal_good ≡ true
    → SameBase t u
    → u.wal_file ≡ t.wal_file ++ take n (encode e)
    → u.wal_good ≡ false
    → u.rows ≡ t.rows
    → u.lsn ≡ t.lsn
    → IsDurable u
torn-IsDurable t u e n d fits short good same wal failed rows lsn = record {
  base_rows = d.base_rows;
  base_bloom = d.base_bloom;
  base_lsn = d.base_lsn;
  base_indexed = d.base_indexed;
  log = d.log;
  tail = take n (encode e);
  loads = λ w. rw (same.ckpt, same.version) (d.loads w);
  file = wal ∙ ap (λ s. s ++ take n (encode e)) (d.file ∙ rw (d.clean good, append-nil) refl);
  fits = d.fits;
  unread = read_entry-take n e fits short;
  clean = λ h. cc;
  rows = rows ∙ d.rows;
  lsn = lsn ∙ d.lsn;
}

-- What the files and the counters of two tablets share.
pub record SameDisk (t u : Tablet) : Type 0 where
  pub base : SameBase t u
  pub wal : u.wal_file ≡ t.wal_file
  pub lsn : u.lsn ≡ t.lsn

-- A property of what logging leaves holds if it holds of every durable tablet that has not logged
-- the entry, and of every tablet that is durable once the entry is applied to its table.
pub append_durable {ℓ} :
    (P : Option ℕ × Tablet → Type ℓ) (w : Write) (e : Entry) (t : Tablet)
    → IsDurable t
    → Fits e
    → IsTorn w e
    → ((u : Tablet) → IsDurable u → P (none, u))
    → ((u : Tablet) (n : ℕ)
        → n ≡ next_u64 t.lsn
        → u.rows ≡ t.rows
        → ((v : Tablet) → SameDisk u v → v.rows ≡ apply_entry e t.rows → IsDurable v)
        → P (some n, u))
    → P (append_entry w e t)
unfolding append_entry flush_entry
append_durable P w e t d fits short unlogged logged = go w t.wal_open short
  where
    same :
        (u : Tablet)
        → u.ckpt_file ≡ t.ckpt_file
        → u.checkpoint_version ≡ t.checkpoint_version
        → SameBase t u
    same u c v = record { ckpt = c; version = v }

    go_good : (x : Write) → IsTorn x e → t.wal_good ≡ true → P (flush_entry x e t)
    go_good whole _ good = logged _ _ refl refl λ v disk.
        logged-IsDurable t v e d fits good (same v disk.base.ckpt disk.base.version) disk.wal
          disk.lsn
    go_good (torn n) short good =
        unlogged _ (torn-IsDurable t _ e n d fits short good (same _ refl refl) refl refl refl refl)

    pick :
        (x : Write) (g : Bool)
        → IsTorn x e
        → (g ≡ true → t.wal_good ≡ true)
        → P (if g then flush_entry x e t else (none, t))
    pick x true short good = go_good x short (good refl)
    pick x false short good = unlogged t d

    go :
        (x : Write) (is_open : Bool)
        → IsTorn x e
        → P (if is_open then (if t.wal_good then flush_entry x e t else (none, t)) else (none, t))
    go x true short = pick x t.wal_good short (λ h. h)
    go x false short = unlogged t d
