-- ===== src/Coordinator/Failover.antt =====
-- coordinator/src/coordinator.cc: the plans of `handle_node_failure` carried out, with fresh probes.
pub mod Promotions
pub mod Justified
use ncloud.Common.{
  ℕ, Option, none, some, List, [], ◌∷◌, Bytes, bytes_eq, Bool, true, false, ltb, if◌then◌else◌, max,
  map,
}
use ncloud.Common.Dict.{Dict, lookup}
use ncloud.Coordinator.{
  NodeRole, primary, secondary, unknown, StorageNode, TabletGroup, node_tablet_lsn,
}
use ncloud.Coordinator.Network.{
  Net, State, refresh, refresh_all, promote_node, attach_all, rebuild_primary_replicas, update_node,
}
use ncloud.Coordinator.Election.{
  ElectionCandidate, Plan, no_plan, rebuild, elect, sort_candidates, plan_tablet,
}

unfoldable pub set_role : NodeRole → Bytes → Dict StorageNode → Dict StorageNode
set_role role id = update_node id (λ n. record n { role = role })

unfoldable pub set_primary : Bytes → Dict StorageNode → Dict StorageNode
set_primary id = update_node id (λ n. record n { role = primary; alive = true })

unfoldable pub set_secondaries : List Bytes → Dict StorageNode → Dict StorageNode
set_secondaries [] nodes = nodes
set_secondaries (id ∷ ids) nodes = set_secondaries ids (set_role secondary id nodes)

pub ids_of : List StorageNode → List Bytes
ids_of ns = map (λ (n : StorageNode). n.id) ns

alive_ids : List StorageNode → List Bytes
alive_ids [] = []
alive_ids (n ∷ ns) = let rest = alive_ids ns in if n.alive then n.id ∷ rest else rest

-- The roles of a tablet whose primary stays; without all followers, those that are alive count.
pub set_rebuilt : Bytes → StorageNode → List StorageNode → Bool × State → State
unfolding alive_ids ids_of
set_rebuilt dead p fs (all, s) =
    let healthy : List Bytes = if all then ids_of fs else alive_ids fs in
    record s { nodes = set_secondaries healthy (set_role unknown dead (set_primary p.id s.nodes)) }

pub rebuild_refreshed : Net → Bytes → Bytes → List StorageNode → Option StorageNode × State → State
unfolding set_rebuilt
rebuild_refreshed net dead name fs (none, s) = s
rebuild_refreshed net dead name fs (some p, s) =
    let followers = refresh_all net fs s in
    set_rebuilt dead p followers.0 (rebuild_primary_replicas net p name followers.0 followers.1)

unfoldable pub run_rebuild : Net → Bytes → Plan → State → State
unfolding rebuild_refreshed
run_rebuild net dead (rebuild name p fs) s = rebuild_refreshed net dead name fs (refresh net p s)
run_rebuild net dead (elect name cs largest) s = s
run_rebuild net dead no_plan s = s

pub largest_lsn : Bytes → List StorageNode → ℕ → ℕ
largest_lsn name [] largest = largest
largest_lsn name (n ∷ ns) largest = largest_lsn name ns (max largest (node_tablet_lsn n name))

pub keep_followers :
    Bytes → StorageNode → ℕ → List StorageNode × State → Option ElectionCandidate × ℕ × State
unfolding largest_lsn
keep_followers name p largest (fs, s) = (
  some (record { primary = p; followers = fs; lsn = node_tablet_lsn p name }),
  largest_lsn name fs (max largest (node_tablet_lsn p name)),
  s,
)

-- A candidate behind the probe of its node: its LSN and its followers are read anew.
pub refreshed_candidate :
    Net
    → Bytes
    → ElectionCandidate
    → ℕ
    → Option StorageNode × State
    → Option ElectionCandidate × ℕ × State
unfolding keep_followers
refreshed_candidate net name c largest (none, s) = (none, largest, s)
refreshed_candidate net name c largest (some p, s) =
    keep_followers name p largest (refresh_all net c.followers s)

pub keep_candidates :
    Option ElectionCandidate
    → List ElectionCandidate × ℕ × State
    → List ElectionCandidate × ℕ × State
keep_candidates none r = r
keep_candidates (some c) (cs, largest, s) = (c ∷ cs, largest, s)

-- The candidates that answer, and the largest LSN that is known then.
unfoldable pub refresh_candidates :
    Net → Bytes → List ElectionCandidate → ℕ → State → List ElectionCandidate × ℕ × State
unfolding refreshed_candidate keep_candidates
refresh_candidates net name [] largest s = ([], largest, s)
refresh_candidates net name (c ∷ cs) largest s =
    let here = refreshed_candidate net name c largest (refresh net c.primary s) in
    keep_candidates here.0 (refresh_candidates net name cs here.1 here.2)

-- The first candidate that has the largest LSN and accepts its promotion.
unfoldable pub pick_winner :
    Net → Bytes → ℕ → List ElectionCandidate → State → Option ElectionCandidate × State
pick_winner net name largest [] s = (none, s)
pick_winner net name largest (c ∷ cs) s =
    let stale = ltb c.lsn largest in
    let tried = promote_node net c.primary name s in
    let rest = pick_winner net name largest cs (if stale then s else tried.1) in
    if stale then rest else if tried.0 then (some c, tried.1) else rest

-- `x` in the place of the first `id`.
unfoldable pub replace_first : Bytes → Bytes → List Bytes → Option (List Bytes)
replace_first id x [] = none
replace_first id x (j ∷ ids) =
    let rest = replace_first id x ids in
    if bytes_eq j id then some (x ∷ ids) else elim rest [ none ↦ none | some r ↦ some (j ∷ r) ]

-- `std::swap` of the first node with the node of that name, where it is one of them.
unfoldable pub swap_first : Bytes → List Bytes → List Bytes
unfolding replace_first
swap_first id [] = []
swap_first id (x ∷ ids) =
    if bytes_eq x id
    then x ∷ ids
    else elim (replace_first id x ids) [ none ↦ x ∷ ids | some r ↦ id ∷ r ]

unfoldable pub make_first : Bytes → Bytes → List TabletGroup → List TabletGroup
make_first name id [] = []
make_first name id (tg ∷ tgs) =
    let rest = make_first name id tgs in
    if bytes_eq tg.name name
    then record tg { node_ids = swap_first id tg.node_ids } ∷ tgs
    else tg ∷ rest

-- The table of the tablets and the roles behind an election, if the winner is still known.
pub install : Bytes → Bytes → Bytes → List Bytes → Option StorageNode → State → State
install dead name id healthy none s = s
install dead name id healthy (some n) s = record s {
  tablets = make_first name id s.tablets;
  nodes = set_secondaries healthy (set_primary id (set_role unknown dead s.nodes));
}

pub installed : Bytes → Bytes → Bytes → List StorageNode × Bool × State → State
unfolding ids_of install
installed dead name id (fs, all, s) = install dead name id (ids_of fs) (lookup id s.nodes) s

pub reconfigure : Net → Bytes → Bytes → Option ElectionCandidate × State → State
unfolding installed
reconfigure net dead name (none, s) = s
reconfigure net dead name (some w, s) =
    installed dead name w.primary.id (attach_all net w.primary name w.followers s)

unfoldable pub run_election : Net → Bytes → Plan → State → State
unfolding reconfigure
run_election net dead (elect name cs largest) s =
    let fresh = refresh_candidates net name cs largest s in
    reconfigure net dead name (pick_winner net name fresh.1 (sort_candidates fresh.0) fresh.2)
run_election net dead (rebuild name p fs) s = s
run_election net dead no_plan s = s

unfoldable pub run_all : (Plan → State → State) → List Plan → State → State
run_all step [] s = s
run_all step (p ∷ ps) s = run_all step ps (step p s)

-- What is done about a node that is known: the plans are made from the tables as they are at first,
-- and the replica sets come before the elections.
pub fail_known : Net → Bytes → Option StorageNode → State → State
fail_known net dead none s = s
fail_known net dead (some n) s =
    let plans = map (plan_tablet s.nodes dead) s.tablets in
    run_all (run_election net dead) plans (run_all (run_rebuild net dead) plans s)

unfoldable pub handle_node_failure : Net → Bytes → State → State
unfolding fail_known
handle_node_failure net dead s = fail_known net dead (lookup dead s.nodes) s
