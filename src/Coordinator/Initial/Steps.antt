-- ===== src/Coordinator/Initial/Steps.antt =====
-- coordinator/src/coordinator.cc: what the steps of a round of the first roles
-- send and leave.
use ncloud.Common.{
  ℕ, zero, suc, ◌≡◌, refl, Option, none, some, List, [], ◌∷◌, Bytes, Bool, true, false, All,
  if_elim,
}
use ncloud.Common.Dict.{Dict, lookup}
use ncloud.Coordinator.{StorageNode, TabletGroup}
use ncloud.Coordinator.Network.{
  Net, State, Command, attempts, accepted, promote_node, demote_and_sync_node,
  add_replica_to_primary, attach, live, refresh, refreshed, cache_refreshed_node,
}
use ncloud.Coordinator.Network.Sent.{Sound, promote_node-Sound, attach-Sound, refresh-Sound}
use ncloud.Coordinator.Election.{contains}
use ncloud.Coordinator.Initial.{
  Ports, refresh_snapshot, check_port, check_ports, promote_first, promote_ids, promote_planned,
  wait_port, wait_ports, first_live, attach_follower, attach_followers, attach_first, attach_tablet,
  attach_planned,
}

module _ (net : Net) (P : StorageNode → Bytes → Type 0) (table : List TabletGroup) where
  -- The promotions that were sent are allowed, and the tablets are those of the table.
  abbrev pub Fine : State → Type 0
  Fine s = Sound net P s × (s.tablets ≡ table)

  attempts-tablets :
      (n : ℕ) (cmd : Command) (s : State)
      → s.tablets ≡ table
      → (attempts net n cmd s).1.tablets ≡ table
  unfolding attempts
  attempts-tablets zero cmd s h = h
  attempts-tablets (suc n) cmd s h =
      if_elim (λ (r : Bool × State). r.1.tablets ≡ table) (accepted (net.command s.clock cmd)) _ _
        (λ _. h) (λ _. attempts-tablets n cmd _ h)

  promote_node-Fine :
      (n : StorageNode) (name : Bytes) (s : State)
      → P n name
      → Fine s
      → Fine (promote_node net n name s).1
  unfolding promote_node
  promote_node-Fine n name s p f =
      (promote_node-Sound net P n name s p f.0, attempts-tablets 3 _ s f.1)

  attach-tablets :
      (p : StorageNode) (name : Bytes) (f : StorageNode) (s : State)
      → s.tablets ≡ table
      → (attach net p name f s).1.tablets ≡ table
  unfolding attach demote_and_sync_node add_replica_to_primary
  attach-tablets p name f s h =
      let synced = attempts-tablets 3 _ s h in
      if_elim (λ (r : Bool × State). r.1.tablets ≡ table) (demote_and_sync_node net f p name s).0 _
        _ (λ _. attempts-tablets 3 _ _ synced) (λ _. synced)

  attach-Fine :
      (p : StorageNode) (name : Bytes) (f : StorageNode) (s : State)
      → Fine s
      → Fine (attach net p name f s).1
  attach-Fine p name f s h = (attach-Sound net P p name f s h.0, attach-tablets p name f s h.1)

  refreshed-tablets :
      (r : Bool × StorageNode) (s : State) → s.tablets ≡ table → (refreshed r s).1.tablets ≡ table
  unfolding refreshed cache_refreshed_node
  refreshed-tablets (true, n) s h = h
  refreshed-tablets (false, n) s h = h

  refresh-Fine : (n : StorageNode) (s : State) → Fine s → Fine (refresh net n s).1
  unfolding refresh
  refresh-Fine n s h = (refresh-Sound net P n s h.0, refreshed-tablets _ _ h.1)

  pub refresh_snapshot-Fine :
      (nodes : Dict StorageNode) (s : State) → Fine s → Fine (refresh_snapshot net nodes s).1
  unfolding refresh_snapshot
  refresh_snapshot-Fine [] s h = h
  refresh_snapshot-Fine ((id, n) ∷ nodes) s h = refresh_snapshot-Fine nodes _ (
      if_elim (λ (r : Option StorageNode × State). Fine r.1) n.alive (refresh net n s) (none, s)
        (λ _. refresh-Fine n s h) (λ _. h))

  check_port-Fine :
      (ports : Ports) (o : Option StorageNode) (s : State) → Fine s → Fine (check_port ports o s).2
  unfolding check_port
  check_port-Fine ports none s h = h
  check_port-Fine ports (some n) s h = h

  pub check_ports-Fine :
      (ports : Ports) (nodes : Dict StorageNode) (done ids : List Bytes) (s : State)
      → Fine s
      → Fine (check_ports ports nodes done ids s).2
  unfolding check_ports
  check_ports-Fine ports nodes done [] s h = h
  check_ports-Fine ports nodes done (id ∷ ids) s h =
      check_ports-Fine ports nodes (id ∷ done) ids _ (
        if_elim (λ (r : Bool × Bool × State). Fine r.2) (contains id done) (true, true, s)
          (check_port ports (live (lookup id nodes)) s) (λ _. h)
          (λ _. check_port-Fine ports (live (lookup id nodes)) s h))

  wait_port-Fine :
      (ports : Ports) (n : ℕ) (o : Option StorageNode) (s : State)
      → Fine s
      → Fine (wait_port ports n o s)
  unfolding wait_port
  wait_port-Fine ports n none s h = h
  wait_port-Fine ports zero (some p) s h = h
  wait_port-Fine ports (suc n) (some p) s h =
      if_elim Fine (ports s.clock p) _ _ (λ _. h) (λ _. wait_port-Fine ports n (some p) _ h)

  module _ (nodes : Dict StorageNode) where
    -- What the first node of a tablet may be.
    abbrev pub Leads : TabletGroup → Type 0
    Leads tg = (n : StorageNode) → first_live nodes tg.node_ids ≡ some n → P n tg.name

    promote_first-Fine :
        (name : Bytes) (o : Option StorageNode) (s : State)
        → ((n : StorageNode) → o ≡ some n → P n name)
        → Fine s
        → Fine (promote_first net name o s).1
    unfolding promote_first
    promote_first-Fine name none s p h = h
    promote_first-Fine name (some n) s p h = promote_node-Fine n name s (p n refl) h

    promote_ids-Fine :
        (name : Bytes) (ids : List Bytes) (s : State)
        → ((n : StorageNode) → first_live nodes ids ≡ some n → P n name)
        → Fine s
        → Fine (promote_ids net nodes name ids s).1
    unfolding promote_ids first_live
    promote_ids-Fine name [] s p h = h
    promote_ids-Fine name (id ∷ ids) s p h = promote_first-Fine name _ s p h

    pub promote_planned-Fine :
        (tgs : List TabletGroup) (s : State)
        → All Leads tgs
        → Fine s
        → Fine (promote_planned net nodes tgs s).1
    unfolding promote_planned
    promote_planned-Fine [] s p h = h
    promote_planned-Fine (tg ∷ tgs) s p h =
        promote_planned-Fine tgs _ p.1 (promote_ids-Fine tg.name tg.node_ids s p.0 h)

    pub wait_ports-Fine :
        (ports : Ports) (tgs : List TabletGroup) (s : State)
        → Fine s
        → Fine (wait_ports ports nodes tgs s)
    unfolding wait_ports
    wait_ports-Fine ports [] s h = h
    wait_ports-Fine ports (tg ∷ tgs) s h =
        wait_ports-Fine ports tgs _ (wait_port-Fine ports 20 (first_live nodes tg.node_ids) s h)

    attach_follower-Fine :
        (p : StorageNode) (name : Bytes) (o : Option StorageNode) (s : State)
        → Fine s
        → Fine (attach_follower net p name o s).1
    unfolding attach_follower
    attach_follower-Fine p name none s h = h
    attach_follower-Fine p name (some f) s h = attach-Fine p name f s h

    attach_followers-Fine :
        (p : StorageNode) (name : Bytes) (ids : List Bytes) (s : State)
        → Fine s
        → Fine (attach_followers net nodes p name ids s).1
    unfolding attach_followers
    attach_followers-Fine p name [] s h = h
    attach_followers-Fine p name (id ∷ ids) s h =
        attach_followers-Fine p name ids _
          (attach_follower-Fine p name (live (lookup id nodes)) s h)

    attach_first-Fine :
        (name : Bytes) (ids : List Bytes) (o : Option StorageNode) (s : State)
        → Fine s
        → Fine (attach_first net nodes name ids o s).1
    unfolding attach_first
    attach_first-Fine name ids none s h = h
    attach_first-Fine name ids (some p) s h = attach_followers-Fine p name ids s h

    attach_tablet-Fine :
        (name : Bytes) (ids : List Bytes) (s : State)
        → Fine s
        → Fine (attach_tablet net nodes name ids s).1
    unfolding attach_tablet
    attach_tablet-Fine name [] s h = h
    attach_tablet-Fine name (id ∷ ids) s h = attach_first-Fine name ids (live (lookup id nodes)) s h

    pub attach_planned-Fine :
        (tgs : List TabletGroup) (s : State) → Fine s → Fine (attach_planned net nodes tgs s).1
    unfolding attach_planned
    attach_planned-Fine [] s h = h
    attach_planned-Fine (tg ∷ tgs) s h =
        attach_planned-Fine tgs _ (attach_tablet-Fine tg.name tg.node_ids s h)
