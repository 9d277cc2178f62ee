-- ===== src/Coordinator/Recovery/Promotions.antt =====
-- coordinator/src/coordinator.cc: which nodes `handle_node_recovery` tells to become a primary.
use ncloud.Common.{
  ℕ, ◌≤◌, ◌≡◌, ◌⊎◌, inl, inr, Option, none, some, List, [], Bytes, bytes_eq, Bool, true, false, ltb,
  leb, not, ◌&&◌, Bool-cases, arith, if_elim, max,
}
use ncloud.Coordinator.{StorageNode, node_tablet_lsn}
use ncloud.Coordinator.Known.{SamePlace, AtPlace, refresh-AtPlace}
use ncloud.Coordinator.Network.{Net, State}
use ncloud.Coordinator.Failover.{largest_lsn}
use ncloud.Coordinator.Failover.Promotions.{largest_lsn-grows}
use ncloud.Coordinator.Network.Sent.{
  Sound, promote_node-Sound, attach-Sound, attach_all-Sound, refresh-Sound, refresh_all-Sound,
}
use ncloud.Coordinator.Recovery.{
  RecoveryPlan, wait, promote, follow, judge, act, promoted_live, recovered_primary, followed,
  with_primary, with_followers, with_live, fresh_primary, primary_among, probed_primary, find_id,
  run_recovery,
}

-- The node may become the primary of the plan's tablet: it has all that is known of it, or is the
-- first of its nodes already.
abbrev pub Able : Bytes → RecoveryPlan → StorageNode → Type 0
Able live_id plan n =
    SamePlace n plan.live_node
    × ((plan.max_known_lsn ≤ node_tablet_lsn n plan.tablet_name)
        ⊎ (bytes_eq plan.old_primary_id live_id ≡ true))

-- Enough for the largest LSN that the probes leave known is enough for the plan's.
enough :
    (name : Bytes) (fs : List StorageNode) (known lsn other : ℕ) (A : Type 0)
    → (largest_lsn name fs (max (max known lsn) other) ≤ lsn) ⊎ A
    → (known ≤ lsn) ⊎ A
enough name fs known lsn other A (inl l) =
    inl (omega (arith, l, largest_lsn-grows name fs (max (max known lsn) other)))
enough name fs known lsn other A (inr a) = inr a

module _ (net : Net) (P : StorageNode → Bytes → Type 0) (live_id : Bytes) where
  followed-Sound : (r : Bool × State) → Sound net P r.1 → Sound net P (followed live_id r)
  unfolding followed
  followed-Sound (true, s) v = v
  followed-Sound (false, s) v = v

  promoted_live-Sound :
      (plan : RecoveryPlan) (n : StorageNode) (fs : List StorageNode) (r : Bool × State)
      → Sound net P r.1
      → Sound net P (promoted_live net live_id plan n fs r)
  unfolding promoted_live recovered_primary
  promoted_live-Sound plan n fs (false, s) v = v
  promoted_live-Sound plan n fs (true, s) v = attach_all-Sound net P n plan.tablet_name fs s v

  module _ (plan : RecoveryPlan) (n : StorageNode) (fs : List StorageNode) where
    promote-Sound :
        (s : State)
        → P n plan.tablet_name
        → Sound net P s
        → Sound net P (act net live_id plan n fs promote s)
    unfolding act
    promote-Sound s c v =
        promoted_live-Sound plan n fs _ (promote_node-Sound net P n plan.tablet_name s c v)

    follow-Sound :
        (p : StorageNode) (s : State)
        → Sound net P s
        → Sound net P (act net live_id plan n fs (follow p) s)
    unfolding act
    follow-Sound p s v = followed-Sound _ (attach-Sound net P p plan.tablet_name n s v)

    wait-Sound : (s : State) → Sound net P s → Sound net P (act net live_id plan n fs wait s)
    unfolding act
    wait-Sound s v = v

    judge-Sound :
        (lsn known : ℕ) (o : Option StorageNode) (s : State)
        → ((known ≤ lsn) ⊎ (bytes_eq plan.old_primary_id live_id ≡ true) → P n plan.tablet_name)
        → Sound net P s
        → Sound net P (act net live_id plan n fs (judge live_id plan lsn known o) s)
    unfolding judge
    judge-Sound lsn known none s h v =
        if_elim (λ w. Sound net P (act net live_id plan n fs w s)) (ltb lsn known) wait promote
          (λ e. wait-Sound s v) λ e. promote-Sound s (h (inl (ground (arith, e)))) v
    judge-Sound lsn known (some p) s h v =
        let theirs = node_tablet_lsn p plan.tablet_name in
        let first = bytes_eq plan.old_primary_id live_id in
        if_elim (λ w. Sound net P (act net live_id plan n fs w s))
          (ltb lsn known && ltb theirs known) wait _ (λ e. wait-Sound s v)
          λ e.
            if_elim (λ w. Sound net P (act net live_id plan n fs w s)) (not first && leb lsn theirs)
              (follow p) promote (λ d. follow-Sound p s v)
              λ d.
                promote-Sound s
                  (h (elim (Bool-cases first) [
                    | inl same ↦ inr same
                    | inr other ↦ inl (ground (arith, e, d, other))
                  ]))
                  v

  probed_primary-Sound :
      (p : StorageNode) (r : Option StorageNode × State)
      → Sound net P r.1
      → Sound net P (probed_primary p r).1
  unfolding probed_primary
  probed_primary-Sound p (none, s) v = v
  probed_primary-Sound p (some q, s) v = v

  primary_among-Sound :
      (p : StorageNode) (o : Option StorageNode) (s : State)
      → Sound net P s
      → Sound net P (primary_among net p o s).1
  unfolding primary_among
  primary_among-Sound p none s v = probed_primary-Sound p _ (refresh-Sound net P p s v)
  primary_among-Sound p (some f) s v = v

  fresh_primary-Sound :
      (plan : RecoveryPlan) (fs : List StorageNode) (o : Option StorageNode) (s : State)
      → Sound net P s
      → Sound net P (fresh_primary net live_id plan fs o s).1
  unfolding fresh_primary
  fresh_primary-Sound plan fs none s v =
      if_elim (λ (r : Option StorageNode × State). Sound net P r.1)
        (not (bytes_eq plan.old_primary_id []) && not (bytes_eq plan.old_primary_id live_id)) _ _
        (λ _. v) λ _. v
  fresh_primary-Sound plan fs (some p) s v = primary_among-Sound p (find_id p.id fs) s v

  with_primary-Sound :
      (plan : RecoveryPlan) (n : StorageNode) (fs : List StorageNode)
      (r : Option StorageNode × State)
      → (Able live_id plan n → P n plan.tablet_name)
      → SamePlace n plan.live_node
      → Sound net P r.1
      → Sound net P (with_primary net live_id plan n fs r)
  unfolding with_primary
  with_primary-Sound plan n fs (p, s) h w v =
      judge-Sound plan n fs (node_tablet_lsn n plan.tablet_name) _ _ s
        (λ o. h (w, enough plan.tablet_name fs plan.max_known_lsn _ _ _ o)) v

  with_followers-Sound :
      (plan : RecoveryPlan) (n : StorageNode) (r : List StorageNode × State)
      → (Able live_id plan n → P n plan.tablet_name)
      → SamePlace n plan.live_node
      → Sound net P r.1
      → Sound net P (with_followers net live_id plan n r)
  unfolding with_followers
  with_followers-Sound plan n (fs, s) h w v =
      with_primary-Sound plan n fs _ h w (fresh_primary-Sound plan fs plan.primary_node s v)

  with_live-Sound :
      (plan : RecoveryPlan) (r : Option StorageNode × State)
      → ((n : StorageNode) → Able live_id plan n → P n plan.tablet_name)
      → AtPlace plan.live_node r
      → Sound net P r.1
      → Sound net P (with_live net live_id plan r)
  unfolding with_live
  with_live-Sound plan (none, s) h w v = v
  with_live-Sound plan (some n, s) h w v =
      with_followers-Sound plan n _ (h n) w (refresh_all-Sound net P plan.followers s v)

  -- What a plan may promote.
  abbrev pub AllowedBy : Option RecoveryPlan → Type 0
  AllowedBy none = Unit
  AllowedBy (some plan) = (n : StorageNode) → Able live_id plan n → P n plan.tablet_name

  pub run_recovery-Sound :
      (o : Option RecoveryPlan) (s : State)
      → AllowedBy o
      → Sound net P s
      → Sound net P (run_recovery net live_id o s)
  unfolding run_recovery
  run_recovery-Sound none s h v = v
  run_recovery-Sound (some plan) s h v =
      with_live-Sound plan _ h (refresh-AtPlace net plan.live_node s)
        (refresh-Sound net P plan.live_node s v)
