-- ===== src/Tests/Failover.antt =====
-- The lookup and the election of coordinator/src/coordinator.cc, at concrete inputs.
use ncloud.Common.{
  ◌≡◌, refl, none, some, [], ◌∷◌, map, Bytes, codes, Bool, true, false, All, bytes_eq,
}
use ncloud.Common.Dict.{Dict, lookup, insert}
use ncloud.Common.Search.{starts_with, find_behind}
use ncloud.Coordinator.{
  StorageNode, TabletGroup, secondary, Numbers, line, find_tablet, covers, refresh_node_lsn_now,
  parse_ping_metadata, parse_lsn, parse_tablet_lsns, parse_pid, node_tablet_lsn,
  tablet_max_known_lsn, max_known, known_lsn,
}
use ncloud.Coordinator.Known.{SamePlace}
use ncloud.Coordinator.Network.{
  Net, State, refresh, refreshed, refreshed_from, cache_refreshed_node, update_node, live,
}
use ncloud.Coordinator.Lookup.{handle_lookup, lookup_tablet, first_probe, primary_at, live_primary}
use ncloud.Coordinator.Lookup.Freshest.{Freshest, Probed, handle_lookup-Freshest}
use ncloud.Coordinator.Recovery.{handle_node_recovery}
use ncloud.Coordinator.Recovery.Justified.{Recovered, handle_node_recovery-Recovered}
use ncloud.Coordinator.Initial.{Ports, refresh_snapshot, planned, configure_round}
use ncloud.Coordinator.Initial.Freshest.{ChosenIn}
use ncloud.Coordinator.Initial.Rounds.{Outcome, configure_round-Chosen}
use ncloud.Coordinator.Failover.{handle_node_failure}
use ncloud.Coordinator.Network.Sent.{Promotes}
use ncloud.Coordinator.Failover.Justified.{Justified, handle_node_failure-Justified}

-- No number is read.
abbrev num : Numbers
num = record { stoull = λ text. none; stoi = λ text. none }

-- Every node answers without its LSN, and accepts what it is told.
abbrev pub net : Net
net = record {
  numbers = num;
  probe = λ n node. line (codes "+OK");
  command = λ n cmd. some (codes "+OK");
}

abbrev pub node : Bytes → Bool → StorageNode
node id alive = record {
  id = id;
  host = codes "127.0.0.1";
  port = 5000;
  repl_port = 5100;
  role = secondary;
  alive = alive;
  was_down = false;
  lsn = 12;
  tablet_lsns = [];
  process_id = 0;
  missed = 0;
}

abbrev pub tablet : TabletGroup
tablet = record {
  name = codes "t";
  row_start = [];
  row_end = [];
  node_ids = codes "a" ∷ codes "b" ∷ [];
}

-- `a`, the primary, is down, and `b` is alive.
abbrev a_down : State
a_down = record {
  nodes = (codes "a", node (codes "a") false) ∷ (codes "b", node (codes "b") true) ∷ [];
  tablets = tablet ∷ [];
  clock = 0;
  sent = [];
}

abbrev after : State
after = handle_node_failure net (codes "a") a_down

handle_node_failure-Justified_example :
    All (Promotes (Justified a_down.nodes a_down.tablets)) after.sent
handle_node_failure-Justified_example = handle_node_failure-Justified net (codes "a") a_down

-- `a` is alive, and `b`, which has the same LSN, is down.
abbrev pub a_alive : State
a_alive = record {
  nodes = (codes "a", node (codes "a") true) ∷ (codes "b", node (codes "b") false) ∷ [];
  tablets = tablet ∷ [];
  clock = 0;
  sent = [];
}

abbrev looked_up : State
looked_up = record a_alive { clock = 1 }

tablet_found : find_tablet (codes "row") a_alive.tablets ≡ some tablet
unfolding find_tablet covers bytes_eq
tablet_found = refl

pub a_found :
    handle_lookup net (codes "row") a_alive ≡ (primary_at (node (codes "a") true), looked_up)
unfolding handle_lookup find_tablet covers bytes_eq lookup_tablet first_probe live_primary live
    lookup insert refresh refreshed refresh_node_lsn_now starts_with parse_ping_metadata parse_lsn
    parse_tablet_lsns parse_pid find_behind cache_refreshed_node refreshed_from update_node
    node_tablet_lsn tablet_max_known_lsn max_known known_lsn
a_found = refl

handle_lookup-Freshest_example :
    (q : StorageNode) × (live_primary tablet a_alive.nodes ≡ some q)
    × SamePlace (node (codes "a") true) q
    × Freshest tablet looked_up.nodes (node (codes "a") true)
    × Probed net 0 q (node (codes "a") true)
handle_lookup-Freshest_example =
    handle_lookup-Freshest net (codes "row") a_alive looked_up tablet (node (codes "a") true)
      tablet_found a_found

-- `b` comes back while `a` is down.
abbrev b_back : State
b_back = handle_node_recovery net (codes "b") a_down

b_known : lookup (codes "b") a_down.nodes ≡ some (node (codes "b") true)
unfolding lookup bytes_eq
b_known = refl

handle_node_recovery-Recovered_example :
    All
      (Promotes (Recovered a_down.nodes (codes "b") (node (codes "b") true) a_down.tablets))
      b_back.sent
handle_node_recovery-Recovered_example =
    handle_node_recovery-Recovered net (codes "b") a_down (node (codes "b") true) b_known

-- Both nodes are alive, and every port is ready.
abbrev pub both : State
both = record a_down {
  nodes = (codes "a", node (codes "a") true) ∷ (codes "b", node (codes "b") true) ∷ [];
}

abbrev ready : Ports
ready = λ n p. true

abbrev probed : Dict StorageNode
probed = (refresh_snapshot net both.nodes both).0

configure_round-Chosen_example :
    Outcome net
      (ChosenIn probed (tablet ∷ []))
      (tablet ∷ [])
      probed
      (map (planned probed) (tablet ∷ []))
      (configure_round net ready (tablet ∷ []) both)
configure_round-Chosen_example = configure_round-Chosen net ready (tablet ∷ []) both refl
