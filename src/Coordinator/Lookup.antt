-- ===== src/Coordinator/Lookup.antt =====
-- coordinator/src/coordinator.cc: `handle_lookup`, and `handle_read_lookup`, which does the same.
pub mod Freshest
use ncloud.Common.{Option, none, some, List, [], ◌∷◌, ◌++◌, Bytes, codes, ltb, if◌then◌else◌}
use ncloud.Common.Decimal.{to_string}
use ncloud.Common.Dict.{Dict, lookup}
use ncloud.Coordinator.{
  StorageNode, TabletGroup, find_tablet, node_tablet_lsn, tablet_max_known_lsn,
}
use ncloud.Coordinator.Network.{Net, State, refresh, live}

pub data Lookup : Type 0 where
  no_tablet primary_unavailable primary_stale : Lookup
  primary_at : StorageNode → Lookup

unfoldable pub lookup_response : Lookup → Bytes
lookup_response no_tablet = codes "-ERR no tablet for row\r\n"
lookup_response primary_unavailable = codes "-ERR primary unavailable\r\n"
lookup_response primary_stale = codes "-ERR primary stale; waiting for freshest replica\r\n"
lookup_response (primary_at p) =
    codes "+OK " ++ (p.host ++ (codes " " ++ (to_string p.port ++ codes " primary\r\n")))

-- The first node of a tablet, if it is alive.
unfoldable pub live_primary : TabletGroup → Dict StorageNode → Option StorageNode
live_primary tg nodes = elim tg.node_ids [ [] ↦ none | id ∷ ids ↦ live (lookup id nodes) ]

-- The test of the primary against the LSNs that are known then.
pub check_primary : TabletGroup → StorageNode → State → Lookup × State
check_primary tg p s =
    if ltb (node_tablet_lsn p tg.name) (tablet_max_known_lsn s.nodes tg)
    then (primary_stale, s)
    else (primary_at p, s)

-- Behind the second probe; without an answer the primary is judged as before.
pub second_probe : TabletGroup → StorageNode → Option StorageNode × State → Lookup × State
unfolding check_primary
second_probe tg p (none, s) = check_primary tg p s
second_probe tg p (some q, s) = check_primary tg q s

-- Behind the first probe.
unfoldable pub first_probe : Net → TabletGroup → Option StorageNode × State → Lookup × State
unfolding second_probe
first_probe net tg (none, s) = (primary_unavailable, s)
first_probe net tg (some p, s) =
    if ltb (node_tablet_lsn p tg.name) (tablet_max_known_lsn s.nodes tg)
    then second_probe tg p (refresh net p s)
    else (primary_at p, s)

unfoldable pub lookup_tablet : Net → TabletGroup → Option StorageNode → State → Lookup × State
unfolding first_probe
lookup_tablet net tg none s = (primary_unavailable, s)
lookup_tablet net tg (some p) s = first_probe net tg (refresh net p s)

unfoldable pub handle_lookup : Net → Bytes → State → Lookup × State
unfolding lookup_tablet
handle_lookup net row s = elim (find_tablet row s.tablets) [
  | none ↦ (no_tablet, s)
  | some tg ↦ lookup_tablet net tg (live_primary tg s.nodes) s
]
