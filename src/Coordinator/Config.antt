-- ===== src/Coordinator/Config.antt =====
-- coordinator/src/coordinator.cc: the configuration file and the roles that its tablets give.
use ncloud.Common.{
  ℕ, zero, suc, ◌^◌, length, Option, none, some, List, [], ◌∷◌, ◌++◌, map, Bytes, codes, true,
  false, ◌==◌, ◌||◌, if◌then◌else◌, bytes_eq,
}
use ncloud.Common.Decimal.{read_word, read_port, read_unsigned}
use ncloud.Common.Dict.{Dict, insert}
use ncloud.Http.Text.{tokens}
use ncloud.Coordinator.{NodeRole, primary, secondary, unknown, StorageNode, TabletGroup}
use ncloud.Coordinator.Failover.{set_role}

-- A node as it is made, with the three fields that a line gives.
abbrev new_node : Bytes → Bytes → ℕ → ℕ → StorageNode
new_node id host port repl_port = record {
  id = id;
  host = host;
  port = port;
  repl_port = repl_port;
  role = unknown;
  alive = true;
  was_down = false;
  lsn = 0;
  tablet_lsns = [];
  process_id = 0;
  missed = 0;
}

-- The second port, or the first where no `int` stands behind it.
repl_port_of : ℕ → Bytes → ℕ
repl_port_of port s = elim (read_unsigned (2 ^ 31) s) [ none ↦ port | some r ↦ (read_port s).0 ]

node_of_line : Bytes → StorageNode
unfolding repl_port_of
node_of_line rest =
    let id = read_word rest in
    let host = read_word id.1 in
    let port = read_port host.1 in new_node id.0 host.0 port.0 (repl_port_of port.0 port.1)

-- The words that are left; a word takes at least one character.
words : ℕ → Bytes → List Bytes
words zero s = []
words (suc fuel) s = elim (read_word s).0 [
  | [] ↦ []
  | c ∷ word ↦ (c ∷ word) ∷ words fuel (read_word s).1
]

-- `-` and `*` stand for no bound.
bound : Bytes → Bytes
bound word = if bytes_eq word (codes "-") || bytes_eq word (codes "*") then [] else word

tablet_of_line : ℕ → Bytes → TabletGroup
unfolding words bound
tablet_of_line fuel rest =
    let name = read_word rest in
    let start = read_word name.1 in
    let end = read_word start.1 in
    record {
      name = name.0;
      row_start = bound start.0;
      row_end = bound end.0;
      node_ids = words fuel end.1;
    }

abbrev Tables : Type 0
Tables = Dict StorageNode × List TabletGroup

config_line : Bytes → Bytes × Bytes → Tables → Tables
unfolding node_of_line tablet_of_line
config_line line (type, rest) (nodes, tablets) =
    if bytes_eq type (codes "node")
    then (insert (node_of_line rest).id (node_of_line rest) nodes, tablets)
    else if bytes_eq type (codes "tablet")
    then (nodes, tablets ++ (tablet_of_line (length line) rest ∷ []))
    else (nodes, tablets)

config_lines : List Bytes → Tables → Tables
unfolding config_line
config_lines [] t = t
config_lines ([] ∷ lines) t = config_lines lines t
config_lines ((c ∷ line) ∷ lines) t =
    config_lines lines (if c == b'#' then t else config_line (c ∷ line) (read_word (c ∷ line)) t)

-- The first node of a tablet is its primary, the others are secondaries.
set_roles : NodeRole → List Bytes → Dict StorageNode → Dict StorageNode
set_roles role [] nodes = nodes
set_roles role (id ∷ ids) nodes = set_roles secondary ids (set_role role id nodes)

assign_roles : List TabletGroup → Dict StorageNode → Dict StorageNode
unfolding set_roles
assign_roles [] nodes = nodes
assign_roles (tg ∷ tgs) nodes = assign_roles tgs (set_roles primary tg.node_ids nodes)

forget_role : Bytes × StorageNode → Bytes × StorageNode
forget_role (id, n) = (id, record n { role = unknown })

-- The roles that the tablets give, from nodes without one.
unfoldable pub initialize_roles_from_tablets :
    List TabletGroup → Dict StorageNode → Dict StorageNode
unfolding assign_roles forget_role
initialize_roles_from_tablets tgs nodes = assign_roles tgs (map forget_role nodes)

with_roles : Tables → Tables
with_roles (nodes, tablets) = (initialize_roles_from_tablets tablets nodes, tablets)

-- The tables of the file's text, or of a single node where there is no file.
unfoldable pub load_config : Option Bytes → Tables
unfolding config_lines with_roles
load_config none = (
  (
    codes "node1",
    record (new_node (codes "node1") (codes "127.0.0.1") 5000 5100) { role = primary },
  )
      ∷ [],
  record { name = codes "tablet0"; row_start = []; row_end = []; node_ids = codes "node1" ∷ [] }
      ∷ [],
)
load_config (some text) = with_roles (config_lines (tokens 10 [] text) ([], []))
