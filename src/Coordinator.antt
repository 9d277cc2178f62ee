-- ===== src/Coordinator.antt =====
-- coordinator/src/coordinator.cc: the storage nodes as the coordinator sees them, and the failure
-- detector. `stoull` and `stoi` are the library's, `none` where they throw.
pub mod Detector
pub mod Network
pub mod Known
pub mod Lookup
pub mod Election
pub mod Failover
pub mod Recovery
pub mod Config
pub mod Initial
pub mod Status
pub mod Heartbeat
pub mod Wire
use ncloud.Common.{
  ℕ, zero, suc, ◌+◌, Option, none, some, List, [], ◌∷◌, Bytes, codes, length, Bool, true, false,
  not, ltb, leb, ◌==◌, ◌&&◌, ◌||◌, if◌then◌else◌, max, bytes_eq,
}
use ncloud.Common.Dict.{Dict, lookup, insert}
use ncloud.Common.Order.{below}
use ncloud.Common.Search.{starts_with, find_behind, split_first, split_last}

pub data NodeRole : Type 0 where
  primary secondary unknown : NodeRole

-- `last_seen`, which is only printed, is left out.
pub record StorageNode : Type 0 where
  pub id : Bytes
  pub host : Bytes
  pub port : ℕ
  pub repl_port : ℕ
  pub role : NodeRole
  pub alive : Bool
  pub was_down : Bool
  pub lsn : ℕ
  pub tablet_lsns : Dict ℕ
  pub process_id : ℕ
  pub missed : ℕ

pub record TabletGroup : Type 0 where
  pub name : Bytes
  pub row_start : Bytes
  pub row_end : Bytes
  pub node_ids : List Bytes

unfoldable pub covers : TabletGroup → Bytes → Bool
covers tg row =
    (bytes_eq tg.row_start [] || not (below row tg.row_start))
    && (bytes_eq tg.row_end [] || below row tg.row_end)

unfoldable pub find_tablet : Bytes → List TabletGroup → Option TabletGroup
unfolding covers
find_tablet row [] = none
find_tablet row (tg ∷ tgs) =
    let rest = find_tablet row tgs in if covers tg row then some tg else rest

unfoldable pub node_tablet_lsn : StorageNode → Bytes → ℕ
node_tablet_lsn node name = elim (lookup name node.tablet_lsns) [ none ↦ node.lsn | some n ↦ n ]

unfoldable pub known_lsn : Bytes → Option StorageNode → ℕ → ℕ
unfolding node_tablet_lsn
known_lsn name none so_far = so_far
known_lsn name (some node) so_far = max so_far (node_tablet_lsn node name)

unfoldable pub max_known : Bytes → Dict StorageNode → List Bytes → ℕ → ℕ
unfolding known_lsn
max_known name nodes [] so_far = so_far
max_known name nodes (id ∷ ids) so_far =
    max_known name nodes ids (known_lsn name (lookup id nodes) so_far)

unfoldable pub tablet_max_known_lsn : Dict StorageNode → TabletGroup → ℕ
unfolding max_known
tablet_max_known_lsn nodes tg = max_known tg.name nodes tg.node_ids 0

pub record Numbers : Type 0 where
  pub stoull : Bytes → Option ℕ
  pub stoi : Bytes → Option ℕ

set_lsn : Option ℕ → StorageNode → StorageNode
set_lsn none node = node
set_lsn (some n) node = record node { lsn = n }

-- One item of `TABLET_LSNS=`, a name and an LSN with a colon between them.
add_item : Numbers → Bytes → Dict ℕ → Dict ℕ
add_item num item parsed = elim (split_last 58 item) [
  | none ↦ parsed
  | some (name, text) ↦ elim (num.stoull text) [ none ↦ parsed | some n ↦ insert name n parsed ]
]

-- The items between the commas; each round takes at least one character.
parse_items : Numbers → ℕ → Bytes → Dict ℕ → Dict ℕ
unfolding add_item
parse_items num zero text parsed = parsed
parse_items num (suc fuel) [] parsed = parsed
parse_items num (suc fuel) (c ∷ text) parsed = elim (split_first 44 (c ∷ text)).1 [
  | none ↦ add_item num (split_first 44 (c ∷ text)).0 parsed
  | some rest ↦ parse_items num fuel rest (add_item num (split_first 44 (c ∷ text)).0 parsed)
]

set_tablet_lsns : Dict ℕ → StorageNode → StorageNode
set_tablet_lsns [] node = node
set_tablet_lsns (p ∷ parsed) node = record node { tablet_lsns = p ∷ parsed }

set_pid : Option ℕ → StorageNode → StorageNode
set_pid none node = node
set_pid (some n) node = if ltb 0 n then record node { process_id = n } else node

unfoldable pub parse_lsn : Numbers → Option Bytes → StorageNode → StorageNode
unfolding set_lsn
parse_lsn num none node = node
parse_lsn num (some text) node = set_lsn (num.stoull text) node

unfoldable pub parse_tablet_lsns : Numbers → Option Bytes → StorageNode → StorageNode
unfolding parse_items set_tablet_lsns
parse_tablet_lsns num none node = node
parse_tablet_lsns num (some text) node =
    let encoded = (split_first 32 text).0 in
    set_tablet_lsns (parse_items num (length encoded) encoded []) node

unfoldable pub parse_pid : Numbers → Option Bytes → StorageNode → StorageNode
unfolding set_pid
parse_pid num none node = node
parse_pid num (some text) node = set_pid (num.stoi text) node

unfoldable pub parse_ping_metadata : Numbers → StorageNode → Bytes → StorageNode
unfolding parse_lsn parse_tablet_lsns parse_pid
parse_ping_metadata num node resp = parse_pid num (find_behind (codes "PID=") resp) (
    parse_tablet_lsns num (find_behind (codes "TABLET_LSNS=") resp)
      (parse_lsn num (find_behind (codes "LSN=") resp) node))

-- What a ping meets: no connection, no line, or a line.
pub data Ping : Type 0 where
  no_connection no_line : Ping
  line : Bytes → Ping

pub record Pinged : Type 0 where
  pub just_failed : Bool
  pub process_restarted : Bool
  pub node : StorageNode

-- A ping that was not answered well; `failed` is its count of the misses.
miss : ℕ → StorageNode → Pinged
miss threshold n =
    let failed = n.missed + 1 in
    if n.alive && leb threshold failed
    then record {
      just_failed = true;
      process_restarted = false;
      node = record n { missed = failed; alive = false; was_down = true };
    }
    else record {
      just_failed = false;
      process_restarted = false;
      node = record n { missed = failed };
    }

pub answered : Numbers → Bytes → StorageNode → Pinged
unfolding parse_ping_metadata
answered num resp n =
    let after = parse_ping_metadata num (record n { missed = 0; alive = true }) resp in
    record {
      just_failed = false;
      process_restarted =
          n.alive
          && not n.was_down
          && ltb 0 n.process_id
          && ltb 0 after.process_id
          && not (n.process_id == after.process_id);
      node = record after {
        was_down = if not n.alive && n.was_down then false else after.was_down;
      };
    }

unfoldable pub ping_node : Numbers → ℕ → Ping → StorageNode → Pinged
unfolding miss answered
ping_node num threshold no_connection n = miss threshold n
ping_node num threshold no_line n = miss threshold n
ping_node num threshold (line resp) n =
    if starts_with (codes "+OK") resp then answered num resp n else miss threshold n

unfoldable pub refresh_node_lsn_now : Numbers → Ping → StorageNode → Bool × StorageNode
unfolding parse_ping_metadata
refresh_node_lsn_now num no_connection n = (false, n)
refresh_node_lsn_now num no_line n = (false, n)
refresh_node_lsn_now num (line resp) n =
    if starts_with (codes "+OK") resp
    then (
      true,
      parse_ping_metadata num (record n { missed = 0; alive = true; was_down = false }) resp,
    )
    else (false, n)
