-- ===== src/Coordinator/Known.antt =====
-- coordinator/src/coordinator.cc: what `tablet_max_known_lsn` says of the replicas of a tablet, and
-- what a probe leaves of a node.
use ncloud.Common.{
  ℕ, ◌≤◌, ◌≡◌, refl, ◌∙◌, Option, none, some, List, [], ◌∷◌, Bytes, codes, Bool, true, false, arith,
  All, if_elim,
}
use ncloud.Common.Dict.{Dict, lookup}
use ncloud.Common.Search.{starts_with}
use ncloud.Coordinator.{
  StorageNode, TabletGroup, Numbers, Ping, no_connection, no_line, line, known_lsn, max_known,
  tablet_max_known_lsn, refresh_node_lsn_now, parse_ping_metadata,
}
use ncloud.Coordinator.Network.{Net, State, refresh, refreshed}
use ncloud.Coordinator.Detector.{parse_ping_metadata-SameState}

known_lsn-grows :
    (name : Bytes) (o : Option StorageNode) (so_far : ℕ) → so_far ≤ known_lsn name o so_far
unfolding known_lsn
known_lsn-grows name none so_far = omega arith
known_lsn-grows name (some n) so_far = omega arith

max_known-grows :
    (name : Bytes) (nodes : Dict StorageNode) (ids : List Bytes) (so_far : ℕ)
    → so_far ≤ max_known name nodes ids so_far
unfolding max_known
max_known-grows name nodes [] so_far = omega arith
max_known-grows name nodes (id ∷ ids) so_far = omega (
  arith,
  known_lsn-grows name (lookup id nodes) so_far,
  max_known-grows name nodes ids (known_lsn name (lookup id nodes) so_far),
)

known_lsn_mono :
    (name : Bytes) (o : Option StorageNode) (so_far : ℕ)
    → known_lsn name o 0 ≤ known_lsn name o so_far
unfolding known_lsn
known_lsn_mono name none so_far = omega arith
known_lsn_mono name (some n) so_far = omega arith

max_known-All :
    (name : Bytes) (nodes : Dict StorageNode) (ids : List Bytes) (so_far bound : ℕ)
    → max_known name nodes ids so_far ≤ bound
    → All (λ id. known_lsn name (lookup id nodes) 0 ≤ bound) ids
unfolding max_known
max_known-All name nodes [] so_far bound h = tt
max_known-All name nodes (id ∷ ids) so_far bound h = (
  omega (
    arith,
    known_lsn_mono name (lookup id nodes) so_far,
    h,
    max_known-grows name nodes ids (known_lsn name (lookup id nodes) so_far),
  ),
  max_known-All name nodes ids (known_lsn name (lookup id nodes) so_far) bound h,
)

-- A bound of the largest LSN that is known of a tablet bounds what is known of each replica.
pub tablet_max_known_lsn-All :
    (nodes : Dict StorageNode) (tg : TabletGroup) (bound : ℕ)
    → tablet_max_known_lsn nodes tg ≤ bound
    → All (λ id. known_lsn tg.name (lookup id nodes) 0 ≤ bound) tg.node_ids
unfolding tablet_max_known_lsn
tablet_max_known_lsn-All nodes tg bound h = max_known-All tg.name nodes tg.node_ids 0 bound h

-- The same machine at the same address, alive.
pub record SamePlace (p q : StorageNode) : Type 0 where
  pub id : p.id ≡ q.id
  pub host : p.host ≡ q.host
  pub port : p.port ≡ q.port
  pub alive : p.alive ≡ true

pub SamePlace-trans : (p q r : StorageNode) → SamePlace p q → SamePlace q r → SamePlace p r
SamePlace-trans p q r a b = record {
  id = a.id ∙ b.id;
  host = a.host ∙ b.host;
  port = a.port ∙ b.port;
  alive = a.alive;
}

answered-SamePlace :
    (num : Numbers) (resp : Bytes) (n : StorageNode)
    → SamePlace
        (parse_ping_metadata num (record n { missed = 0; alive = true; was_down = false }) resp)
        n
answered-SamePlace num resp n =
    let k =
      parse_ping_metadata-SameState num (record n { missed = 0; alive = true; was_down = false })
        resp in
    record { id = k.id; host = k.host; port = k.port; alive = k.alive }

-- A probe that is answered finds the node at its place, alive.
pub refresh_node_lsn_now-SamePlace :
    (num : Numbers) (ping : Ping) (n : StorageNode)
    → (refresh_node_lsn_now num ping n).0 ≡ true
    → SamePlace (refresh_node_lsn_now num ping n).1 n
unfolding refresh_node_lsn_now
refresh_node_lsn_now-SamePlace num no_connection n e = cc
refresh_node_lsn_now-SamePlace num no_line n e = cc
refresh_node_lsn_now-SamePlace num (line resp) n e =
    if_elim (λ (r : Bool × StorageNode). r.0 ≡ true → SamePlace r.1 n)
      (starts_with (codes "+OK") resp) _ (false, n) (λ _ _. answered-SamePlace num resp n)
      (λ _ e. cc) e

-- The answer of a probe is at the place of the node.
abbrev pub AtPlace : StorageNode → Option StorageNode × State → Type 0
AtPlace q (none, s) = Unit
AtPlace q (some p, s) = SamePlace p q

refreshed-AtPlace :
    (q : StorageNode) (r : Bool × StorageNode) (s : State)
    → (r.0 ≡ true → SamePlace r.1 q)
    → AtPlace q (refreshed r s)
unfolding refreshed
refreshed-AtPlace q (true, p) s h = h refl
refreshed-AtPlace q (false, p) s h = tt

pub refresh-AtPlace : (net : Net) (q : StorageNode) (s : State) → AtPlace q (refresh net q s)
unfolding refresh
refresh-AtPlace net q s =
    refreshed-AtPlace q (refresh_node_lsn_now net.numbers (net.probe s.clock q) q) _
      (refresh_node_lsn_now-SamePlace net.numbers (net.probe s.clock q) q)
