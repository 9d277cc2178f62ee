-- ===== src/Coordinator/Heartbeat.antt =====
-- coordinator/src/coordinator.cc: one round of `heartbeat_loop`.
pub mod Pings
use ncloud.Common.{
  ℕ, ◌+◌, Option, none, some, List, [], ◌∷◌, map, Bytes, Bool, true, false, not, ◌&&◌, ◌||◌,
  if◌then◌else◌,
}
use ncloud.Common.Dict.{Dict, lookup}
use ncloud.Coordinator.{StorageNode, Pinged, ping_node}
use ncloud.Coordinator.Network.{Net, State, cache_refreshed_node}
use ncloud.Coordinator.Failover.{handle_node_failure}
use ncloud.Coordinator.Recovery.{handle_node_recovery}

-- The nodes that failed and those that are back, and the table with what the pings found.
pub record Beat : Type 0 where
  pub newly_dead : List Bytes
  pub newly_live : List Bytes
  pub state : State

-- A node that is no longer in the table is not reported.
report : Option StorageNode → Bool → Bytes → List Bytes → List Bytes
report none b id ids = ids
report (some n) b id ids = if b then id ∷ ids else ids

just_recovered : StorageNode → StorageNode → Bool
just_recovered before after = before.was_down && (after.alive && not after.was_down)

unfoldable pub ping_snapshot : Net → ℕ → List StorageNode → State → Beat
unfolding report just_recovered
ping_snapshot net threshold [] s = record { newly_dead = []; newly_live = []; state = s }
ping_snapshot net threshold (n ∷ ns) s =
    let p = ping_node net.numbers threshold (net.probe s.clock n) n in
    let rest =
      ping_snapshot net threshold ns
        (cache_refreshed_node p.node (record s { clock = s.clock + 1 })) in
    let known = lookup p.node.id s.nodes in
    record {
      newly_dead = report known p.just_failed p.node.id rest.newly_dead;
      newly_live =
          report known (just_recovered n p.node || p.process_restarted) p.node.id rest.newly_live;
      state = rest.state;
    }

fail_all : Net → List Bytes → State → State
fail_all net [] s = s
fail_all net (id ∷ ids) s = fail_all net ids (handle_node_failure net id s)

recover_all : Net → List Bytes → State → State
recover_all net [] s = s
recover_all net (id ∷ ids) s = recover_all net ids (handle_node_recovery net id s)

-- The pings of all nodes, and then what the failures and the recoveries ask for.
unfoldable pub heartbeat : Net → ℕ → State → State
unfolding fail_all recover_all
heartbeat net threshold s =
    let beat = ping_snapshot net threshold (map (λ (p : Bytes × StorageNode). p.1) s.nodes) s in
    recover_all net beat.newly_live (fail_all net beat.newly_dead beat.state)
