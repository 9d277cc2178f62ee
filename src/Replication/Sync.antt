-- ===== src/Replication/Sync.antt =====
-- kvstore/src/replication.h: `build_sync_response` of a primary and `sync_from_primary` of a replica.
-- A response is its kind and its blob; that the header line gives the blob's size, which
-- `read_exact` takes, is not modelled.
pub mod CatchUp
use ncloud.Common.{
  ℕ, ◌+◌, ◌%◌, ◌^◌, Option, none, some, Bytes, Bool, true, false, length, drop, ltb, leb, ◌==◌,
  ◌&&◌, not, ◌||◌, if◌then◌else◌, bytes_eq, [],
}
use ncloud.Codec.{read_u64_le}
use ncloud.Tablet.{Tablet, Write, next_u64}
use ncloud.Tablet.Checkpoint.{CheckpointIo, snapshot_blob, load_snapshot_blob}
use ncloud.Tablet.Delta.{wal_delta_after, apply_wal_delta_blob}
use ncloud.Replication.{Manager, demote_to_secondary}

pub data Kind : Type 0 where
  delta snapshot other : Kind

-- `read_u64_le_from_string`
pub read_u64_le_from_string : Bytes → ℕ → Option ℕ
read_u64_le_from_string s off =
    if ltb (length s) (off + 8)
    then none
    else elim (read_u64_le (drop off s)) [ none ↦ none | some (n, rest) ↦ some n ]

-- The first entry of a delta is not the one that the requester misses first.
gap : Option ℕ → ℕ → Bool
gap none lsn = true
gap (some first) lsn = not (first == next_u64 lsn)

send_snapshot : Bytes → ℕ → Bool
unfolding read_u64_le_from_string gap
send_snapshot blob lsn =
    if leb (length blob) 8 then true else gap (read_u64_le_from_string blob 8) lsn

unfoldable pub build_sync_response : ℕ → ℕ → Tablet → Kind × Bytes
unfolding send_snapshot
build_sync_response version lsn t =
    if lsn == t.lsn
    then (delta, wal_delta_after lsn t)
    else if version == t.checkpoint_version && ltb lsn t.lsn
    then if send_snapshot (wal_delta_after lsn t) lsn
      then (snapshot, snapshot_blob t)
      else (delta, wal_delta_after lsn t)
    else (snapshot, snapshot_blob t)

load : (ℕ → Write) → CheckpointIo → Kind × Bytes → Tablet → Bool × Tablet
load io ckpt (delta, blob) t = apply_wal_delta_blob io blob t
load io ckpt (snapshot, blob) t = load_snapshot_blob ckpt blob t
load io ckpt (other, blob) t = (false, t)

synced : Manager → Bool × Tablet → Bool × Manager
synced m (false, t) = (false, record m { tablet = t })
synced m (true, t) = (true, record m { tablet = t; last_repl_lsn = t.lsn })

sync_reply : (ℕ → Write) → CheckpointIo → Option (Kind × Bytes) → Manager → Bool × Manager
unfolding load synced
sync_reply io ckpt none m = (false, m)
sync_reply io ckpt (some reply) m = synced m (load io ckpt reply m.tablet)

-- The exchange with the primary, which gets the replica's checkpoint version and LSN; `none` is a
-- socket that cannot be opened, written or read.
unfoldable pub sync_from_primary :
    (ℕ → Write) → CheckpointIo → (ℕ → ℕ → Option (Kind × Bytes)) → Manager → Bool × Manager
unfolding sync_reply
sync_from_primary io ckpt ask m =
    sync_reply io ckpt (ask m.tablet.checkpoint_version m.tablet.lsn) m

unfoldable pub become_secondary_and_sync :
    (ℕ → Write)
    → CheckpointIo
    → (ℕ → ℕ → Option (Kind × Bytes))
    → Bytes
    → ℕ
    → Manager
    → Bool × Manager
unfolding sync_from_primary demote_to_secondary
become_secondary_and_sync io ckpt ask host port m =
    if not (bytes_eq host []) && ltb 0 port
    then sync_from_primary io ckpt ask (demote_to_secondary m)
    else (true, demote_to_secondary m)
