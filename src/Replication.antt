-- ===== src/Replication.antt =====
-- kvstore/src/replication.h: one tablet's replication manager, with its replicas and the forwarding
-- of a message to them. Sockets are what the network answers, an argument of each call.
pub mod Quorum
pub mod Writes
pub mod Sync
use ncloud.Common.{
  ℕ, zero, suc, ◌+◌, ◌-◌, ◌/◌, ◌%◌, Option, none, some, List, [], ◌∷◌, ◌++◌, Bytes, codes, bytes_eq,
  length, drop, Bool, true, false, not, ltb, ◌==◌, ◌&&◌, ◌||◌, if◌then◌else◌,
}
use ncloud.Common.Decimal.{to_string}
use ncloud.Common.Search.{starts_with, find_behind}
use ncloud.Tablet.{Tablet}

-- `connected` says that `fd` is a descriptor. A replica has no alias outside the list.
pub record ReplicaInfo : Type 0 where
  pub id : Bytes
  pub host : Bytes
  pub port : ℕ
  pub alive : Bool
  pub lsn : ℕ
  pub connected : Bool

pub record Manager : Type 0 where
  pub tablet : Tablet
  pub tablet_name : Bytes
  pub replicas : List ReplicaInfo
  pub running : Bool
  pub is_primary : Bool
  pub last_repl_lsn : ℕ

unfoldable pub make_repl_put : Bytes → ℕ → Bytes → Bytes → Bytes → Bytes
make_repl_put name lsn row col val =
    codes "REPLICATE "
    ++ name
    ++ codes " "
    ++ to_string lsn
    ++ codes " PUT "
    ++ to_string (length row)
    ++ codes " "
    ++ to_string (length col)
    ++ codes " "
    ++ to_string (length val)
    ++ codes "\r\n"
    ++ row
    ++ col
    ++ val

unfoldable pub make_repl_delete : Bytes → ℕ → Bytes → Bytes → Bytes
make_repl_delete name lsn row col =
    codes "REPLICATE "
    ++ name
    ++ codes " "
    ++ to_string lsn
    ++ codes " DELETE "
    ++ to_string (length row)
    ++ codes " "
    ++ to_string (length col)
    ++ codes "\r\n"
    ++ row
    ++ col

-- What the network does with one message to one replica: whether a connection is made, the message
-- is sent, a second connection is made and the message is sent on it, and the line that is read
-- back. `stoull` is the library's, `none` where it throws.
pub record Link : Type 0 where
  pub connect : Bool
  pub sent : Bool
  pub reconnect : Bool
  pub sent_again : Bool
  pub ack : Option Bytes
  pub stoull : Bytes → Option ℕ

pub hang_up : ReplicaInfo → ReplicaInfo
hang_up r = record r { connected = false }

ack_lsn : Link → Option Bytes → ReplicaInfo → ReplicaInfo
ack_lsn l none r = r
ack_lsn l (some text) r = elim (l.stoull text) [ none ↦ r | some n ↦ record r { lsn = n } ]

read_ack : Link → Option Bytes → ReplicaInfo → Bool × ReplicaInfo
unfolding ack_lsn hang_up
read_ack l none r = (false, hang_up r)
read_ack l (some ack) r =
    if starts_with (codes "+OK") ack
    then (true, ack_lsn l (find_behind (codes "LSN=") ack) r)
    else (false, hang_up r)

unfoldable pub forward_to_replica : Link → ReplicaInfo → Bool × ReplicaInfo
unfolding read_ack hang_up
forward_to_replica l r =
    if r.connected || l.connect
    then if l.sent || (l.reconnect && l.sent_again)
      then read_ack l l.ack (record r { connected = true })
      else (false, hang_up r)
    else (false, r)

-- The repair of a replica that did not acknowledge: `BECOME_SECONDARY` on a connection of its own.
pub record Repair : Type 0 where
  pub connect : Bool
  pub sent : Bool
  pub resp : Option Bytes

repaired : Option Bytes → Bool
repaired none = false
repaired (some resp) = starts_with (codes "+OK") resp

pub resync_replica_from_self : Repair → ℕ → ReplicaInfo → Bool × ReplicaInfo
unfolding repaired
resync_replica_from_self p lsn r =
    if p.connect && p.sent && repaired p.resp then (true, record r { lsn = lsn }) else (false, r)

-- What the network does with a message to a replica, its repair and the second try.
pub record Attempts : Type 0 where
  pub first : Link
  pub repair : Repair
  pub second : Link

abbrev pub Network : Type 0
Network = Bytes → ReplicaInfo → Attempts

retry : Link → Bool × ReplicaInfo → Bool × ReplicaInfo
unfolding forward_to_replica
retry l (false, r) = (false, r)
retry l (true, r) = forward_to_replica l r

after_first : Attempts → ℕ → Bool × ReplicaInfo → Bool × ReplicaInfo
unfolding resync_replica_from_self retry
after_first a lsn (true, r) = (true, r)
after_first a lsn (false, r) = retry a.second (resync_replica_from_self a.repair lsn r)

mark : Bool × ReplicaInfo → ReplicaInfo
mark (ok, r) = record r { alive = ok }

-- The body of the loop, for one replica.
pub reach : Network → Bytes → ℕ → ReplicaInfo → ReplicaInfo
unfolding forward_to_replica after_first mark
reach net msg lsn r = let a = net msg r in mark (after_first a lsn (forward_to_replica a.first r))

pub count_alive : List ReplicaInfo → ℕ
count_alive [] = 0
count_alive (r ∷ rs) = let rest = count_alive rs in if r.alive then rest + 1 else rest

-- The loop: `acked`, and the replicas as it leaves them.
pub forward_loop : Network → Bytes → ℕ → List ReplicaInfo → ℕ × List ReplicaInfo
unfolding reach
forward_loop net msg lsn [] = (0, [])
forward_loop net msg lsn (r ∷ rs) =
    let after = reach net msg lsn r in
    let rest = forward_loop net msg lsn rs in
    ((if after.alive then rest.0 + 1 else rest.0), after ∷ rest.1)

pub required_remote_acks : ℕ → ℕ
required_remote_acks n = let quorum = (n + 1) / 2 + 1 in if ltb 0 quorum then quorum - 1 else 0

unfoldable pub forward_to_all : Network → Bytes → Manager → Bool × Manager
unfolding required_remote_acks forward_loop
forward_to_all net msg m =
    let required = required_remote_acks (length m.replicas) in
    if required == 0
    then (true, m)
    else let loop = forward_loop net msg m.tablet.lsn m.replicas in
      (not (ltb loop.0 required), record m { replicas = loop.1 })

unfoldable pub promote_to_primary : Manager → Manager
promote_to_primary m = record m { is_primary = true }

unfoldable pub clear_replicas : Manager → Manager
clear_replicas m = record m { replicas = [] }

unfoldable pub demote_to_secondary : Manager → Manager
unfolding clear_replicas
demote_to_secondary m = record (clear_replicas m) { is_primary = false }

unfoldable pub start : Manager → Manager
start m = record m { running = true; last_repl_lsn = m.tablet.lsn }

hang_up_all : List ReplicaInfo → List ReplicaInfo
unfolding hang_up
hang_up_all [] = []
hang_up_all (r ∷ rs) = hang_up r ∷ hang_up_all rs

unfoldable pub stop : Manager → Manager
unfolding hang_up_all
stop m = record m { running = false; replicas = hang_up_all m.replicas }

-- A known replica gets the new address and counts as alive; its connection is kept.
add_to : Bytes → Bytes → ℕ → List ReplicaInfo → List ReplicaInfo
add_to id host port [] =
    record { id = id; host = host; port = port; alive = true; lsn = 0; connected = false } ∷ []
add_to id host port (r ∷ rs) =
    let rest = add_to id host port rs in
    if bytes_eq r.id id then record r { host = host; port = port; alive = true } ∷ rs else r ∷ rest

unfoldable pub add_replica : Bytes → Bytes → ℕ → Manager → Manager
unfolding add_to
add_replica id host port m = record m { replicas = add_to id host port m.replicas }
