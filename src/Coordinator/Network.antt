-- ===== src/Coordinator/Network.antt =====
-- coordinator/src/coordinator.cc: the coordinator's state and its calls of the storage nodes, which
-- are the probes of `refresh_node_lsn_now` and the commands to the replication port.
pub mod Sent
use ncloud.Common.{
  ℕ, zero, suc, ◌+◌, Option, none, some, List, [], ◌∷◌, ◌++◌, Bytes, codes, Bool, true, false,
  if◌then◌else◌,
}
use ncloud.Common.Decimal.{to_string}
use ncloud.Common.Dict.{Dict, lookup, insert}
use ncloud.Common.Search.{starts_with}
use ncloud.Coordinator.{StorageNode, TabletGroup, Numbers, Ping, refresh_node_lsn_now}

-- What the coordinator tells a node on its replication port: the node and the tablet, and for a
-- secondary its primary, for a primary its replica.
pub data Command : Type 0 where
  become_primary : StorageNode → Bytes → Command
  become_secondary : StorageNode → StorageNode → Bytes → Command
  add_replica : StorageNode → StorageNode → Bytes → Command

unfoldable pub command_text : Command → Bytes
command_text (become_primary node tablet) = codes "BECOME_PRIMARY " ++ (tablet ++ codes "\r\n")
command_text (become_secondary node primary tablet) =
    codes "BECOME_SECONDARY "
    ++ (tablet
        ++ (codes " "
            ++ (primary.host ++ (codes " " ++ (to_string primary.repl_port ++ codes "\r\n")))))
command_text (add_replica primary replica tablet) =
    codes "ADD_REPLICA "
    ++ (tablet
        ++ (codes " "
            ++ (replica.id
                ++ (codes " "
                    ++ (replica.host
                        ++ (codes " " ++ (to_string replica.repl_port ++ codes "\r\n")))))))

-- The network: what a probe of a node meets, and the line with which a command is answered, `none`
-- without a connection or a line. Each call has its own number, so that no two need to agree.
pub record Net : Type 0 where
  pub numbers : Numbers
  pub probe : ℕ → StorageNode → Ping
  pub command : ℕ → Command → Option Bytes

-- `clock` counts the calls of the network, and `sent` has the commands, the newest first.
pub record State : Type 0 where
  pub nodes : Dict StorageNode
  pub tablets : List TabletGroup
  pub clock : ℕ
  pub sent : List Command

abbrev pub accepted : Option Bytes → Bool
accepted none = false
accepted (some reply) = starts_with (codes "+OK") reply

-- The attempts at one command, until one is accepted.
unfoldable pub attempts : Net → ℕ → Command → State → Bool × State
attempts net zero cmd s = (false, s)
attempts net (suc n) cmd s =
    let s' = record s { clock = s.clock + 1; sent = cmd ∷ s.sent } in
    let rest = attempts net n cmd s' in
    if accepted (net.command s.clock cmd) then (true, s') else rest

unfoldable pub promote_node : Net → StorageNode → Bytes → State → Bool × State
promote_node net node tablet = attempts net 3 (become_primary node tablet)

unfoldable pub demote_and_sync_node : Net → StorageNode → StorageNode → Bytes → State → Bool × State
demote_and_sync_node net node primary tablet = attempts net 3 (become_secondary node primary tablet)

unfoldable pub add_replica_to_primary :
    Net → StorageNode → StorageNode → Bytes → State → Bool × State
add_replica_to_primary net primary replica tablet =
    attempts net 3 (add_replica primary replica tablet)

-- A follower is told of its primary, and where it has the primary's table, the primary of it.
unfoldable pub attach : Net → StorageNode → Bytes → StorageNode → State → Bool × State
attach net primary tablet follower s =
    let synced = demote_and_sync_node net follower primary tablet s in
    let added = add_replica_to_primary net primary follower tablet synced.1 in
    if synced.0 then added else (false, synced.1)

-- The followers one after the other: whether all were attached, and those that were.
unfoldable pub attach_all :
    Net → StorageNode → Bytes → List StorageNode → State → List StorageNode × Bool × State
attach_all net primary tablet [] s = ([], true, s)
attach_all net primary tablet (f ∷ fs) s =
    let here = attach net primary tablet f s in
    let rest = attach_all net primary tablet fs here.1 in
    if here.0 then (f ∷ rest.0, rest.1, rest.2) else (rest.0, false, rest.2)

unfoldable pub rebuild_primary_replicas :
    Net → StorageNode → Bytes → List StorageNode → State → Bool × State
rebuild_primary_replicas net primary tablet followers s =
    let promoted = promote_node net primary tablet s in
    let attached = attach_all net primary tablet followers promoted.1 in
    if promoted.0 then (attached.1, attached.2) else (false, promoted.1)

-- A change of one node, if it is known.
unfoldable pub update_node :
    Bytes → (StorageNode → StorageNode) → Dict StorageNode → Dict StorageNode
update_node id f nodes = elim (lookup id nodes) [ none ↦ nodes | some n ↦ insert id (f n) nodes ]

unfoldable pub refreshed_from : StorageNode → StorageNode → StorageNode
refreshed_from node old = record old {
  missed = node.missed;
  alive = node.alive;
  was_down = node.was_down;
  lsn = node.lsn;
  tablet_lsns = node.tablet_lsns;
  process_id = node.process_id;
}

unfoldable pub cache_refreshed_node : StorageNode → State → State
unfolding refreshed_from
cache_refreshed_node node s = record s { nodes = update_node node.id (refreshed_from node) s.nodes }

unfoldable pub refreshed : Bool × StorageNode → State → Option StorageNode × State
refreshed (false, node) s = (none, s)
refreshed (true, node) s = (some node, cache_refreshed_node node s)

-- A fresh probe of a node, whose result is kept if the node answers.
unfoldable pub refresh : Net → StorageNode → State → Option StorageNode × State
unfolding refreshed
refresh net node s =
    refreshed (refresh_node_lsn_now net.numbers (net.probe s.clock node) node)
      (record s { clock = s.clock + 1 })

unfoldable pub keep_answer :
    Option StorageNode → List StorageNode × State → List StorageNode × State
keep_answer none r = r
keep_answer (some node) (nodes, s) = (node ∷ nodes, s)

-- Fresh probes of several nodes, with those that answer.
unfoldable pub refresh_all : Net → List StorageNode → State → List StorageNode × State
unfolding keep_answer
refresh_all net [] s = ([], s)
refresh_all net (n ∷ ns) s =
    let here = refresh net n s in keep_answer here.0 (refresh_all net ns here.1)

-- A node of the table that is alive.
unfoldable pub live : Option StorageNode → Option StorageNode
live none = none
live (some n) = if n.alive then some n else none
