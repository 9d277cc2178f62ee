-- ===== src/Coordinator/Network/Sent.antt =====
-- coordinator/src/coordinator.cc: the promotions that the coordinator's calls send.
use ncloud.Common.{
  ℕ, ◌+◌, zero, suc, Option, none, some, List, [], ◌∷◌, Bytes, Bool, true, false, All, if_elim,
}
use ncloud.Coordinator.{StorageNode}
use ncloud.Coordinator.Network.{
  Net, State, Command, become_primary, become_secondary, add_replica, attempts, accepted,
  promote_node, demote_and_sync_node, add_replica_to_primary, attach, attach_all,
  rebuild_primary_replicas, refresh, refreshed, refresh_all, keep_answer, cache_refreshed_node,
}

-- A command that is no promotion, or the promotion of a node that `P` allows.
abbrev pub Promotes : (StorageNode → Bytes → Type 0) → Command → Type 0
Promotes P (become_primary n tablet) = P n tablet
Promotes P (become_secondary n p tablet) = Unit
Promotes P (add_replica p n tablet) = Unit

module _ (net : Net) (P : StorageNode → Bytes → Type 0) where
  -- Every promotion that was sent is allowed.
  abbrev pub Sound : State → Type 0
  Sound s = All (Promotes P) s.sent

  attempts-Sound :
      (n : ℕ) (cmd : Command) (s : State)
      → Promotes P cmd
      → Sound s
      → Sound (attempts net n cmd s).1
  unfolding attempts
  attempts-Sound zero cmd s c v = v
  attempts-Sound (suc n) cmd s c v =
      if_elim (λ (r : Bool × State). Sound r.1) (accepted (net.command s.clock cmd)) _ _
        (λ e. (c, v)) λ e. attempts-Sound n cmd _ c (c, v)

  pub promote_node-Sound :
      (n : StorageNode) (tablet : Bytes) (s : State)
      → P n tablet
      → Sound s
      → Sound (promote_node net n tablet s).1
  unfolding promote_node
  promote_node-Sound n tablet s c v = attempts-Sound 3 (become_primary n tablet) s c v

  pub attach-Sound :
      (p : StorageNode) (tablet : Bytes) (f : StorageNode) (s : State)
      → Sound s
      → Sound (attach net p tablet f s).1
  unfolding attach demote_and_sync_node add_replica_to_primary
  attach-Sound p tablet f s v =
      let synced = attempts-Sound 3 (become_secondary f p tablet) s tt v in
      if_elim (λ (r : Bool × State). Sound r.1) (attempts net 3 (become_secondary f p tablet) s).0 _
        _ (λ e. attempts-Sound 3 (add_replica p f tablet) _ tt synced) λ e. synced

  pub attach_all-Sound :
      (p : StorageNode) (tablet : Bytes) (fs : List StorageNode) (s : State)
      → Sound s
      → Sound (attach_all net p tablet fs s).2
  unfolding attach_all
  attach_all-Sound p tablet [] s v = v
  attach_all-Sound p tablet (f ∷ fs) s v =
      let rest = attach_all-Sound p tablet fs _ (attach-Sound p tablet f s v) in
      if_elim (λ (r : List StorageNode × Bool × State). Sound r.2) (attach net p tablet f s).0 _ _
        (λ e. rest) λ e. rest

  pub rebuild_primary_replicas-Sound :
      (p : StorageNode) (tablet : Bytes) (fs : List StorageNode) (s : State)
      → P p tablet
      → Sound s
      → Sound (rebuild_primary_replicas net p tablet fs s).1
  unfolding rebuild_primary_replicas
  rebuild_primary_replicas-Sound p tablet fs s c v =
      let promoted = promote_node-Sound p tablet s c v in
      if_elim (λ (r : Bool × State). Sound r.1) (promote_node net p tablet s).0 _ _
        (λ e. attach_all-Sound p tablet fs _ promoted) λ e. promoted

  refreshed-Sound : (r : Bool × StorageNode) (s : State) → Sound s → Sound (refreshed r s).1
  unfolding refreshed cache_refreshed_node
  refreshed-Sound (true, m) s v = v
  refreshed-Sound (false, m) s v = v

  pub refresh-Sound : (n : StorageNode) (s : State) → Sound s → Sound (refresh net n s).1
  unfolding refresh
  refresh-Sound n s v = refreshed-Sound _ (record s { clock = s.clock + 1 }) v

  keep_answer-Sound :
      (o : Option StorageNode) (r : List StorageNode × State)
      → Sound r.1
      → Sound (keep_answer o r).1
  unfolding keep_answer
  keep_answer-Sound none r v = v
  keep_answer-Sound (some n) r v = v

  pub refresh_all-Sound :
      (ns : List StorageNode) (s : State) → Sound s → Sound (refresh_all net ns s).1
  unfolding refresh_all
  refresh_all-Sound [] s v = v
  refresh_all-Sound (n ∷ ns) s v =
      keep_answer-Sound _ _ (refresh_all-Sound ns _ (refresh-Sound n s v))
