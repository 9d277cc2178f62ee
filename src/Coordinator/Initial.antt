-- ===== src/Coordinator/Initial.antt =====
-- coordinator/src/coordinator.cc: the roles that the coordinator gives the nodes when it starts,
-- `configure_initial_tablet_roles`. Whether a node's replication port accepts a connection is an
-- argument, with the number of the call.
pub mod Freshest
pub mod Steps
pub mod Rounds
use ncloud.Common.{
  ℕ, zero, suc, ◌+◌, Option, none, some, List, [], ◌∷◌, ◌++◌, map, Bytes, Bool, true, false, ltb,
  ◌&&◌, if◌then◌else◌,
}
use ncloud.Common.Dict.{Dict, lookup}
use ncloud.Coordinator.{StorageNode, TabletGroup, node_tablet_lsn}
use ncloud.Coordinator.Network.{Net, State, refresh, live, promote_node, attach}
use ncloud.Coordinator.Election.{contains}
use ncloud.Coordinator.Failover.{swap_first}
use ncloud.Coordinator.Config.{initialize_roles_from_tablets}

answer_or : StorageNode → Option StorageNode → StorageNode
answer_or n none = n
answer_or n (some m) = m

-- Fresh probes of the nodes that count as alive, kept in the copy and in the table.
unfoldable pub refresh_snapshot : Net → Dict StorageNode → State → Dict StorageNode × State
unfolding answer_or
refresh_snapshot net [] s = ([], s)
refresh_snapshot net ((id, n) ∷ nodes) s =
    let r : Option StorageNode × State = if n.alive then refresh net n s else (none, s) in
    let rest = refresh_snapshot net nodes r.1 in ((id, answer_or n r.0) ∷ rest.0, rest.1)

abbrev pub Ports : Type 0
Ports = ℕ → StorageNode → Bool

-- Whether all nodes are alive with their ports ready, and whether no live node's port is not.
abbrev Readiness : Type 0
Readiness = Bool × Bool × State

pub check_port : Ports → Option StorageNode → State → Readiness
check_port ports none s = (false, true, s)
check_port ports (some n) s =
    let ready = ports s.clock n in (ready, ready, record s { clock = s.clock + 1 })

-- Each node once.
pub check_ports : Ports → Dict StorageNode → List Bytes → List Bytes → State → Readiness
unfolding check_port
check_ports ports nodes done [] s = (true, true, s)
check_ports ports nodes done (id ∷ ids) s =
    let here : Readiness =
      if contains id done then (true, true, s) else check_port ports (live (lookup id nodes)) s in
    let rest = check_ports ports nodes (id ∷ done) ids here.2 in
    (here.0 && rest.0, here.1 && rest.1, rest.2)

unfoldable pub better : Bytes → Bytes → Option StorageNode → Option (Bytes × ℕ) → Option (Bytes × ℕ)
better name id none best = best
better name id (some n) none = some (id, node_tablet_lsn n name)
better name id (some n) (some (old, lsn)) =
    if ltb lsn (node_tablet_lsn n name) then some (id, node_tablet_lsn n name) else some (old, lsn)

-- The first of the live nodes with the largest LSN.
unfoldable pub best_node :
    Bytes → Dict StorageNode → List Bytes → Option (Bytes × ℕ) → Option (Bytes × ℕ)
unfolding better
best_node name nodes [] best = best
best_node name nodes (id ∷ ids) best =
    best_node name nodes ids (better name id (live (lookup id nodes)) best)

unfoldable pub planned_ids : List Bytes → Option (Bytes × ℕ) → List Bytes
planned_ids ids none = ids
planned_ids ids (some (id, lsn)) = swap_first id ids

unfoldable pub planned : Dict StorageNode → TabletGroup → TabletGroup
unfolding planned_ids
planned nodes tg = record tg {
  node_ids = planned_ids tg.node_ids (best_node tg.name nodes tg.node_ids none);
}

is_live : Option StorageNode → Bool
is_live none = false
is_live (some n) = true

pub all_live : Dict StorageNode → List Bytes → Bool
unfolding is_live
all_live nodes [] = true
all_live nodes (id ∷ ids) = is_live (live (lookup id nodes)) && all_live nodes ids

unfoldable pub promote_first : Net → Bytes → Option StorageNode → State → Bool × State
promote_first net name none s = (false, s)
promote_first net name (some n) s = promote_node net n name s

unfoldable pub promote_ids : Net → Dict StorageNode → Bytes → List Bytes → State → Bool × State
unfolding promote_first
promote_ids net nodes name [] s = (true, s)
promote_ids net nodes name (id ∷ ids) s = promote_first net name (live (lookup id nodes)) s

unfoldable pub promote_planned : Net → Dict StorageNode → List TabletGroup → State → Bool × State
unfolding promote_ids
promote_planned net nodes [] s = (true, s)
promote_planned net nodes (tg ∷ tgs) s =
    let here = promote_ids net nodes tg.name tg.node_ids s in
    let rest = promote_planned net nodes tgs here.1 in (here.0 && rest.0, rest.1)

-- The waiting for a port, which has no result.
pub wait_port : Ports → ℕ → Option StorageNode → State → State
wait_port ports n none s = s
wait_port ports zero (some p) s = s
wait_port ports (suc n) (some p) s =
    let s' = record s { clock = s.clock + 1 } in
    let later = wait_port ports n (some p) s' in if ports s.clock p then s' else later

pub first_live : Dict StorageNode → List Bytes → Option StorageNode
first_live nodes [] = none
first_live nodes (id ∷ ids) = live (lookup id nodes)

pub wait_ports : Ports → Dict StorageNode → List TabletGroup → State → State
unfolding wait_port first_live
wait_ports ports nodes [] s = s
wait_ports ports nodes (tg ∷ tgs) s =
    wait_ports ports nodes tgs (wait_port ports 20 (first_live nodes tg.node_ids) s)

pub attach_follower : Net → StorageNode → Bytes → Option StorageNode → State → Bool × State
attach_follower net p name none s = (false, s)
attach_follower net p name (some f) s = attach net p name f s

pub attach_followers :
    Net → Dict StorageNode → StorageNode → Bytes → List Bytes → State → Bool × State
unfolding attach_follower
attach_followers net nodes p name [] s = (true, s)
attach_followers net nodes p name (id ∷ ids) s =
    let here = attach_follower net p name (live (lookup id nodes)) s in
    let rest = attach_followers net nodes p name ids here.1 in (here.0 && rest.0, rest.1)

pub attach_first :
    Net → Dict StorageNode → Bytes → List Bytes → Option StorageNode → State → Bool × State
unfolding attach_followers
attach_first net nodes name ids none s = (false, s)
attach_first net nodes name ids (some p) s = attach_followers net nodes p name ids s

pub attach_tablet : Net → Dict StorageNode → Bytes → List Bytes → State → Bool × State
unfolding attach_first
attach_tablet net nodes name [] s = (true, s)
attach_tablet net nodes name (id ∷ ids) s =
    attach_first net nodes name ids (live (lookup id nodes)) s

pub attach_planned : Net → Dict StorageNode → List TabletGroup → State → Bool × State
unfolding attach_tablet
attach_planned net nodes [] s = (true, s)
attach_planned net nodes (tg ∷ tgs) s =
    let here = attach_tablet net nodes tg.name tg.node_ids s in
    let rest = attach_planned net nodes tgs here.1 in (here.0 && rest.0, rest.1)

pub installed_plan : List TabletGroup → State → State
installed_plan tgs s = record s { tablets = tgs; nodes = initialize_roles_from_tablets tgs s.nodes }

pub all_ids : List TabletGroup → List Bytes
all_ids [] = []
all_ids (tg ∷ tgs) = tg.node_ids ++ all_ids tgs

-- Behind the check of the ports, with whether everything was well so far.
unfoldable pub carry_out :
    Net → Ports → Dict StorageNode → List TabletGroup → Bool → State → Bool × State
unfolding promote_planned wait_ports attach_planned installed_plan
carry_out net ports nodes tgs ok s =
    let promoted = promote_planned net nodes tgs s in
    let all = ok && promoted.0 in
    let waited : State = if all then wait_ports ports nodes tgs promoted.1 else promoted.1 in
    let attached = attach_planned net nodes tgs waited in
    if all && attached.0 then (true, installed_plan tgs attached.1) else (false, attached.1)

-- One round: whether the roles are as planned.
unfoldable pub configure_round : Net → Ports → List TabletGroup → State → Bool × State
unfolding check_ports all_ids all_live carry_out
configure_round net ports tgs s =
    let fresh = refresh_snapshot net s.nodes s in
    let ready = check_ports ports fresh.0 [] (all_ids tgs) fresh.1 in
    if ready.1
    then carry_out net ports fresh.0 (map (planned fresh.0) tgs)
        (ready.0 && all_live fresh.0 (all_ids tgs)) ready.2
    else (false, ready.2)

pub configure_rounds : ℕ → Net → Ports → List TabletGroup → State → State
configure_rounds zero net ports tgs s = s
configure_rounds (suc n) net ports tgs s =
    let here = configure_round net ports tgs s in
    let rest = configure_rounds n net ports tgs here.1 in if here.0 then here.1 else rest

-- The tablets are those of the beginning in every round.
unfoldable pub configure_initial_tablet_roles : Net → Ports → State → State
unfolding configure_rounds
configure_initial_tablet_roles net ports s = configure_rounds 8 net ports s.tablets s
