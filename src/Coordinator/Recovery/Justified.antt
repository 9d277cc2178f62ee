-- ===== src/Coordinator/Recovery/Justified.antt =====
-- coordinator/src/coordinator.cc: the promotions of `handle_node_recovery` against the tables that it
-- starts from.
use ncloud.Common.{
  ◌≤◌, ◌≡◌, refl, ◌⊎◌, inl, inr, none, some, List, [], ◌∷◌, Bytes, bytes_eq, true, All, if_elim,
}
use ncloud.Common.Dict.{Dict, lookup}
use ncloud.Coordinator.{StorageNode, TabletGroup, node_tablet_lsn}
use ncloud.Coordinator.Known.{SamePlace}
use ncloud.Coordinator.Network.{Net, State}
use ncloud.Coordinator.Election.{contains}
use ncloud.Coordinator.Network.Sent.{Promotes, Sound}
use ncloud.Coordinator.Recovery.{
  run_recoveries, recovery_plan, recovery_ids, recover_known, handle_node_recovery, max_alive,
}
use ncloud.Coordinator.Recovery.Promotions.{AllowedBy, run_recovery-Sound}

-- The names of a tablet's nodes begin with this one.
abbrev pub IsFirst : Bytes → List Bytes → Type 0
IsFirst id [] = ⊥
IsFirst id (j ∷ ids) = bytes_eq j id ≡ true

-- The node `n` is the one that `m` was when it came back, and has all that was known of the tablet
-- among the nodes that were alive, or it is the first of the tablet's nodes already.
abbrev pub Recovered :
    Dict StorageNode → Bytes → StorageNode → List TabletGroup → StorageNode → Bytes → Type 0
Recovered nodes live_id m [] n name = ⊥
Recovered nodes live_id m (tg ∷ tgs) n name =
    ((name ≡ tg.name)
      × SamePlace n m
      × ((max_alive tg.name nodes tg.node_ids (node_tablet_lsn m tg.name)
            ≤ node_tablet_lsn n tg.name)
          ⊎ IsFirst live_id tg.node_ids))
    ⊎ Recovered nodes live_id m tgs n name

module _ (net : Net) (P : StorageNode → Bytes → Type 0) (live_id : Bytes) (nodes : Dict StorageNode)
    (m : StorageNode) where
  recovery_ids-AllowedBy :
      (tg : TabletGroup) (ids : List Bytes)
      → ((n : StorageNode)
          → SamePlace n m
          → (max_alive tg.name nodes ids (node_tablet_lsn m tg.name) ≤ node_tablet_lsn n tg.name)
            ⊎ IsFirst live_id ids
          → P n tg.name)
      → AllowedBy net P live_id (recovery_ids nodes live_id m tg ids)
  unfolding recovery_ids
  recovery_ids-AllowedBy tg [] h = tt
  recovery_ids-AllowedBy tg (first ∷ ids) h =
      if_elim (AllowedBy net P live_id) (contains live_id (first ∷ ids)) _ none
        (λ _ n able. h n able.0 able.1) λ _. tt

  run_recoveries-Sound :
      (tgs : List TabletGroup) (s : State)
      → ((n : StorageNode) (name : Bytes) → Recovered nodes live_id m tgs n name → P n name)
      → Sound net P s
      → Sound net P (run_recoveries net live_id nodes m tgs s)
  unfolding run_recoveries recovery_plan
  run_recoveries-Sound [] s h v = v
  run_recoveries-Sound (tg ∷ tgs) s h v =
      run_recoveries-Sound tgs _ (λ n name r. h n name (inr r))
        (run_recovery-Sound net P live_id _ s
          (recovery_ids-AllowedBy tg tg.node_ids (λ n same o. h n tg.name (inl (refl, same, o)))) v)

-- Whatever the nodes answer, each promotion that a recovery makes the coordinator send is of the node
-- that came back, and for a tablet of which it has the largest LSN known of the nodes that were alive,
-- if it is not the first node of the tablet already.
pub handle_node_recovery-Recovered :
    (net : Net) (live_id : Bytes) (s : State) (m : StorageNode)
    → lookup live_id s.nodes ≡ some m
    → All
        (Promotes (Recovered s.nodes live_id m s.tablets))
        (handle_node_recovery net live_id (record s { sent = [] })).sent
unfolding handle_node_recovery recover_known
handle_node_recovery-Recovered net live_id s m e =
    rw (e, handle_node_recovery)
      (run_recoveries-Sound net (Recovered s.nodes live_id m s.tablets) live_id s.nodes m s.tablets
        (record s { sent = [] }) (λ n name r. r) tt)
