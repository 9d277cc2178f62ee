-- ===== src/Coordinator/Recovery.antt =====
-- coordinator/src/coordinator.cc: `handle_node_recovery`, what the coordinator does with a node that
-- answers again. A plan's flags and LSNs are left out where its execution sets them anew.
pub mod Promotions
pub mod Justified
use ncloud.Common.{
  ℕ, Option, none, some, List, [], ◌∷◌, Bytes, bytes_eq, Bool, true, false, ltb, leb, not, ◌&&◌,
  ◌||◌, if◌then◌else◌, max,
}
use ncloud.Common.Dict.{Dict, lookup}
use ncloud.Coordinator.{NodeRole, secondary, unknown, StorageNode, TabletGroup, node_tablet_lsn}
use ncloud.Coordinator.Network.{
  Net, State, refresh, refresh_all, live, promote_node, attach, attach_all, update_node,
}
use ncloud.Coordinator.Election.{alive_except, contains}
use ncloud.Coordinator.Failover.{
  set_role, set_primary, set_secondaries, make_first, largest_lsn, ids_of,
}

-- The node that is back, the primary if it is alive, the other nodes that are, the first node's name
-- and the largest LSN that is known.
pub record RecoveryPlan : Type 0 where
  pub tablet_name : Bytes
  pub live_node : StorageNode
  pub primary_node : Option StorageNode
  pub followers : List StorageNode
  pub old_primary_id : Bytes
  pub max_known_lsn : ℕ

-- The largest LSN of a tablet's nodes that are alive.
pub alive_lsn : Bytes → Option StorageNode → ℕ → ℕ
alive_lsn name none so_far = so_far
alive_lsn name (some n) so_far = max so_far (node_tablet_lsn n name)

pub max_alive : Bytes → Dict StorageNode → List Bytes → ℕ → ℕ
unfolding alive_lsn
max_alive name nodes [] so_far = so_far
max_alive name nodes (id ∷ ids) so_far =
    max_alive name nodes ids (alive_lsn name (live (lookup id nodes)) so_far)

-- A node without a name counts as none.
named : Option StorageNode → Option StorageNode
named none = none
named (some n) = if bytes_eq n.id [] then none else some n

pub recovery_ids :
    Dict StorageNode → Bytes → StorageNode → TabletGroup → List Bytes → Option RecoveryPlan
unfolding named
recovery_ids nodes live_id n tg [] = none
recovery_ids nodes live_id n tg (first ∷ ids) =
    if contains live_id (first ∷ ids)
    then some (record {
      tablet_name = tg.name;
      live_node = n;
      primary_node = named (live (lookup first nodes));
      followers = alive_except nodes live_id live_id (first ∷ ids);
      old_primary_id = first;
      max_known_lsn = max_alive tg.name nodes (first ∷ ids) (node_tablet_lsn n tg.name);
    })
    else none

unfoldable pub recovery_plan :
    Dict StorageNode → Bytes → StorageNode → TabletGroup → Option RecoveryPlan
unfolding recovery_ids
recovery_plan nodes live_id n tg = recovery_ids nodes live_id n tg tg.node_ids

find_id : Bytes → List StorageNode → Option StorageNode
find_id id [] = none
find_id id (n ∷ ns) = let rest = find_id id ns in if bytes_eq n.id id then some n else rest

-- A primary that does not answer counts as down.
probed_primary : StorageNode → Option StorageNode × State → Option StorageNode × State
probed_primary p (none, s) = (some (record p { alive = false }), s)
probed_primary p (some q, s) = (some q, s)

primary_among : Net → StorageNode → Option StorageNode → State → Option StorageNode × State
unfolding probed_primary
primary_among net p none s = probed_primary p (refresh net p s)
primary_among net p (some f) s = (some f, s)

-- The primary as the fresh probes show it.
fresh_primary :
    Net
    → Bytes
    → RecoveryPlan
    → List StorageNode
    → Option StorageNode
    → State
    → Option StorageNode × State
unfolding primary_among find_id
fresh_primary net live_id plan fs none s =
    if not (bytes_eq plan.old_primary_id []) && not (bytes_eq plan.old_primary_id live_id)
    then (find_id plan.old_primary_id fs, s)
    else (none, s)
fresh_primary net live_id plan fs (some p) s = primary_among net p (find_id p.id fs) s

pub primary_lsn : Bytes → Option StorageNode → ℕ
primary_lsn name none = 0
primary_lsn name (some p) = node_tablet_lsn p name

pub data Verdict : Type 0 where
  wait promote : Verdict
  follow : StorageNode → Verdict

-- Whether the node has to wait for a fresher one, follows the primary, or becomes it.
unfoldable pub judge : Bytes → RecoveryPlan → ℕ → ℕ → Option StorageNode → Verdict
unfolding primary_lsn
judge live_id plan live_lsn known none = if ltb live_lsn known then wait else promote
judge live_id plan live_lsn known (some p) =
    let lsn = node_tablet_lsn p plan.tablet_name in
    if ltb live_lsn known && ltb lsn known
    then wait
    else if not (bytes_eq plan.old_primary_id live_id) && leb live_lsn lsn
    then follow p
    else promote

set_old_unknown : Bytes → Bytes → Dict StorageNode → Dict StorageNode
set_old_unknown old live_id nodes =
    if not (bytes_eq old []) && not (bytes_eq old live_id)
    then update_node old (λ n. if n.alive then n else record n { role = unknown }) nodes
    else nodes

pub recovered_primary : Bytes → RecoveryPlan → List StorageNode × Bool × State → State
unfolding set_old_unknown
recovered_primary live_id plan (fs, all, s) = record s {
  tablets = make_first plan.tablet_name live_id s.tablets;
  nodes =
      set_old_unknown plan.old_primary_id live_id
        (set_secondaries (ids_of fs) (set_primary live_id s.nodes));
}

pub promoted_live :
    Net → Bytes → RecoveryPlan → StorageNode → List StorageNode → Bool × State → State
unfolding recovered_primary
promoted_live net live_id plan n fs (false, s) = s
promoted_live net live_id plan n fs (true, s) =
    recovered_primary live_id plan (attach_all net n plan.tablet_name fs s)

pub followed : Bytes → Bool × State → State
followed live_id (false, s) = s
followed live_id (true, s) = record s {
  nodes = update_node live_id (λ n. record n { role = secondary; alive = true }) s.nodes;
}

pub act : Net → Bytes → RecoveryPlan → StorageNode → List StorageNode → Verdict → State → State
unfolding promoted_live followed
act net live_id plan n fs wait s = s
act net live_id plan n fs (follow p) s = followed live_id (attach net p plan.tablet_name n s)
act net live_id plan n fs promote s =
    promoted_live net live_id plan n fs (promote_node net n plan.tablet_name s)

-- The verdict on what the probes have shown.
pub with_primary :
    Net → Bytes → RecoveryPlan → StorageNode → List StorageNode → Option StorageNode × State → State
unfolding act
with_primary net live_id plan n fs (p, s) =
    let lsn = node_tablet_lsn n plan.tablet_name in
    let up : Option StorageNode = live p in
    let known =
      largest_lsn plan.tablet_name fs
        (max (max plan.max_known_lsn lsn) (primary_lsn plan.tablet_name up)) in
    act net live_id plan n fs (judge live_id plan lsn known up) s

pub with_followers : Net → Bytes → RecoveryPlan → StorageNode → List StorageNode × State → State
unfolding with_primary fresh_primary
with_followers net live_id plan n (fs, s) =
    with_primary net live_id plan n fs (fresh_primary net live_id plan fs plan.primary_node s)

pub with_live : Net → Bytes → RecoveryPlan → Option StorageNode × State → State
unfolding with_followers
with_live net live_id plan (none, s) = s
with_live net live_id plan (some n, s) =
    with_followers net live_id plan n (refresh_all net plan.followers s)

unfoldable pub run_recovery : Net → Bytes → Option RecoveryPlan → State → State
unfolding with_live
run_recovery net live_id none s = s
run_recovery net live_id (some plan) s = with_live net live_id plan (refresh net plan.live_node s)

-- The plans of the tablets, made from the tables as they are at first.
unfoldable pub run_recoveries :
    Net → Bytes → Dict StorageNode → StorageNode → List TabletGroup → State → State
run_recoveries net live_id nodes n [] s = s
run_recoveries net live_id nodes n (tg ∷ tgs) s =
    run_recoveries net live_id nodes n tgs
      (run_recovery net live_id (recovery_plan nodes live_id n tg) s)

pub recover_known : Net → Bytes → Option StorageNode → State → State
recover_known net live_id none s = s
recover_known net live_id (some n) s = run_recoveries net live_id s.nodes n s.tablets s

unfoldable pub handle_node_recovery : Net → Bytes → State → State
unfolding recover_known
handle_node_recovery net live_id s = recover_known net live_id (lookup live_id s.nodes) s
