-- ===== src/Tests/Replication.antt =====
-- The manager of kvstore/src/replication.h, at concrete inputs.
use ncloud.Common.{
  ℕ, ◌+◌, ◌*◌, ◌<◌, ◌≡◌, refl, some, none, [], ◌∷◌, Bytes, Bool, true, false, codes, arith,
  if◌then◌else◌, ◌&&◌, length, leb,
}
use ncloud.Bloom.{may_contain}
use ncloud.Common.Search.{starts_with}
use ncloud.Tablet.{open_tablet, whole, put, get}
use ncloud.Tablet.Cells.{IsIndexed}
use ncloud.Tablet.Calls.{is_cell}
use ncloud.Tablet.History.{fresh, fresh-IsIndexed}
use ncloud.Tablet.Checkpoint.{done}
use ncloud.Tablet.Checkpoint.Read.{IsBounded}
use ncloud.Replication.{
  Manager, ReplicaInfo, Network, Link, forward_to_all, forward_to_replica, count_alive,
}
use ncloud.Replication.Quorum.{forward_to_all-quorum}
use ncloud.Replication.Writes.{
  ok, quorum_unavailable, replicated_put, replicated_cput, replicated_delete,
}
use ncloud.Replication.Writes.Rollback.{is_ok}
use ncloud.Replication.Writes.Client.{replicated_put_lem, replicated_cput_lem}
use ncloud.Replication.Writes.Deletes.{replicated_delete_lem}
use ncloud.Replication.Sync.{build_sync_response, sync_from_primary}
use ncloud.Replication.Sync.CatchUp.{sync_from_primary-build_sync_response}

abbrev row : Bytes
row = codes "bob"

abbrev col : Bytes
col = codes "quota"

abbrev val : Bytes
val = codes "10"

abbrev link : Bool → Link
link up = record {
  connect = up;
  sent = up;
  reconnect = false;
  sent_again = false;
  ack = some (codes "+OK LSN=7");
  stoull = λ text. some 7;
}

-- A network in which the replicas with a port of at least the limit answer.
abbrev net : ℕ → Network
net limit msg r = record {
  first = link (leb limit r.port);
  repair = record { connect = false; sent = false; resp = none };
  second = link false;
}

abbrev replica : Bytes → ℕ → ReplicaInfo
replica id port = record {
  id = id;
  host = codes "127.0.0.1";
  port = port;
  alive = true;
  lsn = 0;
  connected = false;
}

abbrev manager : Manager
manager = record {
  tablet = fresh;
  tablet_name = codes "a-m";
  replicas = replica (codes "n2") 5102 ∷ replica (codes "n3") 5103 ∷ [];
  running = true;
  is_primary = true;
  last_repl_lsn = 0;
}

-- One of two replicas is enough.
one_ack : (replicated_put (net 5103) whole whole row col val manager).0 ≡ ok
unfolding replicated_put forward_to_all forward_to_replica starts_with put get open_tablet
    may_contain
one_ack = refl

no_ack : (replicated_put (net 6000) whole whole row col val manager).0 ≡ quorum_unavailable
unfolding replicated_put forward_to_all forward_to_replica starts_with put get open_tablet
    may_contain
no_ack = refl

manager-IsIndexed : IsIndexed manager.tablet
manager-IsIndexed = fresh-IsIndexed

abbrev after_put : Manager
after_put = (replicated_put (net 5103) whole whole row col val manager).1

after_put-IsIndexed : IsIndexed after_put.tablet
after_put-IsIndexed = (replicated_put_lem (net 5103) whole row col val manager manager-IsIndexed).0

replicated_put_lem_example : (get row col after_put.tablet).0 ≡ (
    if is_ok (replicated_put (net 5103) whole whole row col val manager).0
      && is_cell row col row col
    then some val
    else (get row col manager.tablet).0)
replicated_put_lem_example =
    (replicated_put_lem (net 5103) whole row col val manager manager-IsIndexed).1 row col

replicated_cput_lem_example :
    IsIndexed (replicated_cput (net 6000) whole whole row col val (codes "11") after_put).1.tablet
replicated_cput_lem_example =
    (replicated_cput_lem (net 6000) whole row col val (codes "11") after_put after_put-IsIndexed).0

replicated_delete_lem_example :
    IsIndexed (replicated_delete (net 6000) whole whole row col after_put).1.tablet
replicated_delete_lem_example =
    (replicated_delete_lem (net 6000) whole row col after_put after_put-IsIndexed).0

forward_to_all-quorum_example :
    length manager.replicas + 1
    < 2 * (count_alive (forward_to_all (net 5103) (codes "x") manager).1.replicas + 1)
unfolding forward_to_all forward_to_replica starts_with
forward_to_all-quorum_example = (forward_to_all-quorum (net 5103) (codes "x") manager).0 refl

abbrev behind : Manager
behind = record manager { tablet = record fresh { lsn = 5; checkpoint_version = 3 } }

fresh-IsBounded : IsBounded fresh
unfolding open_tablet
fresh-IsBounded = record {
  rows = record { keys = tt; count = omega arith; sizes = tt };
  lsn = omega arith;
  version = omega arith;
}

sync_from_primary-build_sync_response_example :
    (sync_from_primary
      (λ n. whole)
      done
      (λ version lsn. some (build_sync_response version lsn fresh))
      behind).0
    ≡ true
unfolding open_tablet
sync_from_primary-build_sync_response_example =
    (sync_from_primary-build_sync_response (λ n. whole) fresh behind fresh-IsBounded
      (λ h. omega (arith, h)) λ h. omega (arith, h)).0
