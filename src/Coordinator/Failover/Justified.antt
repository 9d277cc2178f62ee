-- ===== src/Coordinator/Failover/Justified.antt =====
-- coordinator/src/coordinator.cc: the promotions of `handle_node_failure` against the tables that it
-- starts from.
use ncloud.Common.{
  ◌≤◌, ◌≡◌, refl, ◌⊎◌, inl, inr, Option, none, some, List, [], ◌∷◌, Bytes, bytes_eq, All, if_elim,
  map,
}
use ncloud.Common.Dict.{Dict, lookup}
use ncloud.Coordinator.{StorageNode, TabletGroup, node_tablet_lsn, tablet_max_known_lsn}
use ncloud.Coordinator.Known.{SamePlace}
use ncloud.Coordinator.Network.{Net, State, live}
use ncloud.Coordinator.Lookup.{live_primary}
use ncloud.Coordinator.Election.{
  ElectionCandidate, plan_tablet, plan_ids, plan_with, election, contains,
}
use ncloud.Coordinator.Failover.{handle_node_failure}
use ncloud.Coordinator.Failover.Promotions.{Allowed, handle_node_failure-Sound}
use ncloud.Coordinator.Network.Sent.{Promotes}

-- A node that may serve a tablet as its primary, as far as the tables tell: it has all that is known
-- of the tablet, or it is the primary and is alive.
abbrev pub Entitled : Dict StorageNode → TabletGroup → StorageNode → Type 0
Entitled nodes tg n =
    (tablet_max_known_lsn nodes tg ≤ node_tablet_lsn n tg.name)
    ⊎ ((q : StorageNode) × (live_primary tg nodes ≡ some q) × SamePlace n q)

-- It is entitled to one of the tablets, which has the name.
abbrev pub Justified : Dict StorageNode → List TabletGroup → StorageNode → Bytes → Type 0
Justified nodes [] n name = ⊥
Justified nodes (tg ∷ tgs) n name =
    ((name ≡ tg.name) × Entitled nodes tg n) ⊎ Justified nodes tgs n name

module _ (net : Net) (nodes : Dict StorageNode) (dead : Bytes)
    (P : StorageNode → Bytes → Type 0) where
  election-Allowed :
      (tg : TabletGroup) (cs : List ElectionCandidate)
      → ((n : StorageNode) → Entitled nodes tg n → P n tg.name)
      → Allowed net P (election tg.name (tablet_max_known_lsn nodes tg) cs)
  unfolding election
  election-Allowed tg [] h = tt
  election-Allowed tg (c ∷ cs) h = λ n l. h n (inl l)

  plan_with-Allowed :
      (tg : TabletGroup) (first : Bytes) (ids : List Bytes) (o : Option StorageNode)
      → live_primary tg nodes ≡ o
      → ((n : StorageNode) → Entitled nodes tg n → P n tg.name)
      → Allowed net P (plan_with nodes dead tg first ids o)
  unfolding plan_with
  plan_with-Allowed tg first ids none e h = election-Allowed tg _ h
  plan_with-Allowed tg first ids (some p) e h =
      if_elim (Allowed net P) (bytes_eq first dead) _ _ (λ _. election-Allowed tg _ h)
        λ _ n same. h n (inr (p, e, same))

  live_primary-first :
      (tg : TabletGroup) (first : Bytes) (ids : List Bytes)
      → tg.node_ids ≡ first ∷ ids
      → live_primary tg nodes ≡ live (lookup first nodes)
  unfolding live_primary
  live_primary-first tg first ids e = rw (e, live_primary) refl

  plan_ids-Allowed :
      (tg : TabletGroup) (ids : List Bytes)
      → tg.node_ids ≡ ids
      → ((n : StorageNode) → Entitled nodes tg n → P n tg.name)
      → Allowed net P (plan_ids nodes dead tg ids)
  unfolding plan_ids
  plan_ids-Allowed tg [] e h = tt
  plan_ids-Allowed tg (first ∷ ids) e h =
      if_elim (Allowed net P) (contains dead (first ∷ ids)) _ _
        (λ _.
          plan_with-Allowed tg first ids (live (lookup first nodes))
            (live_primary-first tg first ids e) h)
        λ _. tt

  plans-Allowed :
      (tgs : List TabletGroup)
      → ((n : StorageNode) (name : Bytes) → Justified nodes tgs n name → P n name)
      → All (Allowed net P) (map (plan_tablet nodes dead) tgs)
  unfolding plan_tablet
  plans-Allowed [] h = tt
  plans-Allowed (tg ∷ tgs) h = (
    plan_ids-Allowed tg tg.node_ids refl (λ n e. h n tg.name (inl (refl, e))),
    plans-Allowed tgs (λ n name j. h n name (inr j)),
  )

-- Whatever the nodes answer, each promotion that a failure makes the coordinator send is of a node
-- whose LSN is at least the largest one that the tables had for a replica of the tablet, those that
-- are down included, or else of the tablet's primary, which was alive.
pub handle_node_failure-Justified :
    (net : Net) (dead : Bytes) (s : State)
    → All
        (Promotes (Justified s.nodes s.tablets))
        (handle_node_failure net dead (record s { sent = [] })).sent
handle_node_failure-Justified net dead s =
    handle_node_failure-Sound net (Justified s.nodes s.tablets) dead (record s { sent = [] })
      (plans-Allowed net s.nodes dead (Justified s.nodes s.tablets) s.tablets (λ n name j. j)) tt
