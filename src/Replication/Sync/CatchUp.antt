-- ===== src/Replication/Sync/CatchUp.antt =====
-- What a replica holds after it has synchronised by a snapshot.
use ncloud.Common.{ℕ, ◌≡◌, ◌≢◌, some, Bool, true, false, arith, refl}
use ncloud.Tablet.{Tablet, Write, next_u64}
use ncloud.Tablet.Checkpoint.{done, snapshot_blob, load_snapshot_blob, checkpoint_locked}
use ncloud.Tablet.Checkpoint.Read.{IsBounded, load_snapshot_blob-snapshot_blob}
use ncloud.Replication.{Manager}
use ncloud.Replication.Sync.{snapshot, build_sync_response, sync_from_primary, synced}

response-snapshot :
    (version lsn : ℕ) (p : Tablet)
    → lsn ≢ p.lsn
    → version ≢ p.checkpoint_version
    → build_sync_response version lsn p ≡ (snapshot, snapshot_blob p)
unfolding build_sync_response
response-snapshot version lsn p h k = ground arith

loaded :
    (p t : Tablet)
    → IsBounded p
    → let r = load_snapshot_blob done (snapshot_blob p) t in
      (r.0 ≡ true)
      × (r.1.rows ≡ p.rows)
      × (r.1.lsn ≡ p.lsn)
      × (r.1.checkpoint_version ≡ next_u64 p.checkpoint_version)
unfolding checkpoint_locked
loaded p t v = rw (load_snapshot_blob-snapshot_blob done p t v) (refl, refl, refl, refl)

synced-true :
    (m : Manager) (p : Tablet) (s : Bool × Tablet)
    → (s.0 ≡ true)
      × (s.1.rows ≡ p.rows)
      × (s.1.lsn ≡ p.lsn)
      × (s.1.checkpoint_version ≡ next_u64 p.checkpoint_version)
    → let r = synced m s in
      (r.0 ≡ true)
      × (r.1.tablet.rows ≡ p.rows)
      × (r.1.tablet.lsn ≡ p.lsn)
      × (r.1.tablet.checkpoint_version ≡ next_u64 p.checkpoint_version)
      × (r.1.last_repl_lsn ≡ p.lsn)
unfolding synced
synced-true m p (true, t) h = (refl, h.1, h.2, h.3, h.2)
synced-true m p (false, t) h = absurd (ground (arith, h.0))

-- A replica whose LSN and checkpoint version both differ from its primary's has, after it
-- synchronised with it, the primary's table and LSN, and the version after the primary's, if its
-- own checkpoint of the snapshot is written.
pub sync_from_primary-build_sync_response :
    (io : ℕ → Write) (p : Tablet) (m : Manager)
    → IsBounded p
    → m.tablet.lsn ≢ p.lsn
    → m.tablet.checkpoint_version ≢ p.checkpoint_version
    → let r =
        sync_from_primary io done (λ version lsn. some (build_sync_response version lsn p)) m in
      (r.0 ≡ true)
      × (r.1.tablet.rows ≡ p.rows)
      × (r.1.tablet.lsn ≡ p.lsn)
      × (r.1.tablet.checkpoint_version ≡ next_u64 p.checkpoint_version)
      × (r.1.last_repl_lsn ≡ p.lsn)
unfolding sync_from_primary
sync_from_primary-build_sync_response io p m v h k =
    rw (response-snapshot m.tablet.checkpoint_version m.tablet.lsn p h k)
      (synced-true m p (load_snapshot_blob done (snapshot_blob p) m.tablet) (loaded p m.tablet v))
