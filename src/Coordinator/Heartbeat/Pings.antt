-- ===== src/Coordinator/Heartbeat/Pings.antt =====
-- coordinator/src/coordinator.cc: what the pings of a heartbeat leave and report.
use ncloud.Common.{
  ℕ, ◌+◌, ◌≤◌, ◌⊎◌, arith, codes, ◌≡◌, refl, Option, none, some, List, [], ◌∷◌, Bytes, Bool, true,
  false, if_elim, All, bytes_eq, inl, inr,
}
use ncloud.Common.Dict.{Dict, lookup, insert}
use ncloud.Common.Search.{starts_with}
use ncloud.Coordinator.{
  StorageNode, Numbers, Ping, no_connection, no_line, line, Pinged, ping_node, miss, answered,
}
use ncloud.Coordinator.Network.{Net, State, cache_refreshed_node, refreshed_from, update_node}
use ncloud.Coordinator.Detector.{IsWatched, ping_node-IsWatched}
use ncloud.Coordinator.Heartbeat.{report, ping_snapshot}

-- Every node of the table is watched.
abbrev pub Watched : ℕ → Dict StorageNode → Type 0
Watched threshold nodes = All (λ (p : Bytes × StorageNode). IsWatched threshold p.1) nodes

insert-Watched :
    (threshold : ℕ) (id : Bytes) (n : StorageNode) (nodes : Dict StorageNode)
    → IsWatched threshold n
    → Watched threshold nodes
    → Watched threshold (insert id n nodes)
unfolding insert
insert-Watched threshold id n [] h w = (h, tt)
insert-Watched threshold id n ((j, m) ∷ nodes) h w =
    if_elim (Watched threshold) (bytes_eq j id) ((j, n) ∷ nodes) ((j, m) ∷ insert id n nodes)
      (λ _. (h, w.1)) (λ _. (w.0, insert-Watched threshold id n nodes h w.1))

kept-Watched :
    (threshold : ℕ) (n : StorageNode) (o : Option StorageNode) (nodes : Dict StorageNode)
    → IsWatched threshold n
    → Watched threshold nodes
    → Watched threshold (elim o [ none ↦ nodes | some m ↦ insert n.id (refreshed_from n m) nodes ])
unfolding refreshed_from
kept-Watched threshold n none nodes h w = w
kept-Watched threshold n (some m) nodes h w =
    insert-Watched threshold n.id _ nodes (record { down = h.down; misses = h.misses }) w

cache_refreshed_node-Watched :
    (threshold : ℕ) (n : StorageNode) (s : State)
    → IsWatched threshold n
    → Watched threshold s.nodes
    → Watched threshold (cache_refreshed_node n s).nodes
unfolding cache_refreshed_node update_node
cache_refreshed_node-Watched threshold n s = kept-Watched threshold n (lookup n.id s.nodes) s.nodes

-- An alive node that misses at least as many pings as the threshold with this one.
abbrev pub Failing : ℕ → StorageNode → Bytes → Type 0
Failing threshold n id = (id ≡ n.id) × (n.alive ≡ true) × (threshold ≤ n.missed + 1)

abbrev pub FailingIn : ℕ → List StorageNode → Bytes → Type 0
FailingIn threshold [] id = ⊥
FailingIn threshold (n ∷ ns) id = Failing threshold n id ⊎ FailingIn threshold ns id

miss-Failing :
    (threshold : ℕ) (n : StorageNode)
    → (miss threshold n).just_failed ≡ true
    → Failing threshold n (miss threshold n).node.id
unfolding miss
miss-Failing threshold n h = (ground arith, ground (arith, h), ground (arith, h))

answered-just_failed :
    (num : Numbers) (resp : Bytes) (n : StorageNode) → (answered num resp n).just_failed ≡ false
unfolding answered
answered-just_failed num resp n = refl

ping_node-Failing :
    (num : Numbers) (threshold : ℕ) (p : Ping) (n : StorageNode)
    → (ping_node num threshold p n).just_failed ≡ true
    → Failing threshold n (ping_node num threshold p n).node.id
unfolding ping_node
ping_node-Failing num threshold no_connection n h = miss-Failing threshold n h
ping_node-Failing num threshold no_line n h = miss-Failing threshold n h
ping_node-Failing num threshold (line resp) n h =
    if_elim (λ (r : Pinged). r.just_failed ≡ true → Failing threshold n r.node.id)
      (starts_with (codes "+OK") resp) (answered num resp n) (miss threshold n)
      (λ e q. cc (q, answered-just_failed num resp n)) (λ e q. miss-Failing threshold n q) h

report-All :
    (P : Bytes → Type 0) (o : Option StorageNode) (b : Bool) (id : Bytes) (ids : List Bytes)
    → (b ≡ true → P id)
    → All P ids
    → All P (report o b id ids)
unfolding report
report-All P none b id ids h a = a
report-All P (some n) true id ids h a = (h refl, a)
report-All P (some n) false id ids h a = a

-- Behind the pings of a heartbeat every node is watched, as before: it counts as down, or it is alive
-- with fewer misses than the threshold. The nodes that are reported as failed were alive, and missed
-- as many pings as the threshold in a row.
pub ping_snapshot-Watched :
    (net : Net) (threshold : ℕ) (ns : List StorageNode) (s : State)
    → All (IsWatched threshold) ns
    → Watched threshold s.nodes
    → Watched threshold (ping_snapshot net threshold ns s).state.nodes
      × All (FailingIn threshold ns) (ping_snapshot net threshold ns s).newly_dead
unfolding ping_snapshot
ping_snapshot-Watched net threshold [] s h w = (w, tt)
ping_snapshot-Watched net threshold (n ∷ ns) s h w =
    let p = ping_node net.numbers threshold (net.probe s.clock n) n in
    let rest = ping_snapshot-Watched net threshold ns _ h.1 (
      cache_refreshed_node-Watched threshold p.node (record s { clock = s.clock + 1 })
        (ping_node-IsWatched net.numbers threshold (net.probe s.clock n) n h.0).0 w) in
    (
      rest.0,
      report-All (FailingIn threshold (n ∷ ns)) (lookup p.node.id s.nodes) p.just_failed p.node.id _
          (λ e. inl (ping_node-Failing net.numbers threshold (net.probe s.clock n) n e))
          (later _ rest.1),
    )
  where
    later :
        (ids : List Bytes)
        → All (FailingIn threshold ns) ids
        → All (FailingIn threshold (n ∷ ns)) ids
    later [] a = tt
    later (id ∷ ids) a = (inr a.0, later ids a.1)
