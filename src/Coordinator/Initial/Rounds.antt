-- ===== src/Coordinator/Initial/Rounds.antt =====
-- coordinator/src/coordinator.cc: what one round of `configure_initial_tablet_roles` sends and leaves.
use ncloud.Common.{
  ◌≡◌, refl, sym, subst, ◌⊎◌, inl, inr, List, [], ◌∷◌, map, Bytes, Bool, true, false, ◌&&◌,
  if◌then◌else◌, All, if_elim,
}
use ncloud.Common.Dict.{Dict}
use ncloud.Coordinator.{StorageNode, TabletGroup}
use ncloud.Coordinator.Network.{Net, State}
use ncloud.Coordinator.Network.Sent.{Promotes, Sound}
use ncloud.Coordinator.Initial.{
  Ports, refresh_snapshot, check_ports, planned, promote_planned, wait_ports, attach_planned,
  installed_plan, carry_out, configure_round, all_ids, all_live,
}
use ncloud.Coordinator.Initial.Freshest.{ChosenIn, planned-Chosen}
use ncloud.Coordinator.Initial.Steps.{
  Fine, Leads, refresh_snapshot-Fine, check_ports-Fine, promote_planned-Fine, wait_ports-Fine,
  attach_planned-Fine,
}

module _ (net : Net) (P : StorageNode → Bytes → Type 0) (table : List TabletGroup)
    (nodes : Dict StorageNode) where
  -- The promotions are allowed, and the tablets are as planned after success and as before otherwise.
  abbrev pub Outcome : List TabletGroup → Bool × State → Type 0
  Outcome plan r =
      Sound net P r.1
      × (((r.0 ≡ true) × (r.1.tablets ≡ plan)) ⊎ ((r.0 ≡ false) × (r.1.tablets ≡ table)))

  carry_out-Outcome :
      (ports : Ports) (plan : List TabletGroup) (ok : Bool) (s : State)
      → All (Leads net P table nodes) plan
      → Fine net P table s
      → Outcome plan (carry_out net ports nodes plan ok s)
  unfolding carry_out installed_plan
  carry_out-Outcome ports plan ok s p h =
      let promoted = promote_planned net nodes plan s in
      let all = ok && promoted.0 in
      let waited : State = if all then wait_ports ports nodes plan promoted.1 else promoted.1 in
      let sent = promote_planned-Fine net P table nodes plan s p h in
      let ready =
        if_elim (Fine net P table) all (wait_ports ports nodes plan promoted.1) promoted.1
          (λ _. wait_ports-Fine net P table nodes ports plan promoted.1 sent) (λ _. sent) in
      let done = attach_planned-Fine net P table nodes plan waited ready in
      if_elim (Outcome plan) (all && (attach_planned net nodes plan waited).0) _ _
        (λ _. (done.0, inl (refl, refl))) (λ _. (done.0, inr (refl, done.1)))

-- The best live nodes of the tablets are what leads their plans.
planned-All :
    (net : Net) (table : List TabletGroup) (nodes : Dict StorageNode) (all tgs : List TabletGroup)
    → ((n : StorageNode) (name : Bytes) → ChosenIn nodes tgs n name → ChosenIn nodes all n name)
    → All (Leads net (ChosenIn nodes all) table nodes) (map (planned nodes) tgs)
unfolding planned
planned-All net table nodes all [] h = tt
planned-All net table nodes all (tg ∷ tgs) h = (
  λ n e. h n tg.name (inl (refl, planned-Chosen nodes tg n e)),
  planned-All net table nodes all tgs (λ n name c. h n name (inr c)),
)

-- A round that has sent nothing before promotes only live nodes with the largest LSN of the tablet
-- among its live ones, as just probed; it succeeds with the planned tablets, or it fails and leaves
-- the tablets as they were.
pub configure_round-Chosen :
    (net : Net) (ports : Ports) (tgs : List TabletGroup) (s : State)
    → s.sent ≡ []
    → let fresh = (refresh_snapshot net s.nodes s).0 in
      Outcome net
        (ChosenIn fresh tgs)
        s.tablets
        fresh
        (map (planned fresh) tgs)
        (configure_round net ports tgs s)
unfolding configure_round
configure_round-Chosen net ports tgs s e =
    let fresh = refresh_snapshot net s.nodes s in
    let P = ChosenIn fresh.0 tgs in
    let plan = map (planned fresh.0) tgs in
    let ready = check_ports ports fresh.0 [] (all_ids tgs) fresh.1 in
    let ok = ready.0 && all_live fresh.0 (all_ids tgs) in
    let start =
      refresh_snapshot-Fine net P s.tablets s.nodes s (subst (All (Promotes P)) (sym e) tt, refl) in
    let checked = check_ports-Fine net P s.tablets ports fresh.0 [] (all_ids tgs) fresh.1 start in
    let leads = planned-All net s.tablets fresh.0 tgs tgs (λ n name c. c) in
    if_elim (Outcome net P s.tablets fresh.0 plan) ready.1
      (carry_out net ports fresh.0 plan ok ready.2) (false, ready.2)
      (λ _. carry_out-Outcome net P s.tablets fresh.0 ports plan ok ready.2 leads checked)
      (λ _. (checked.0, inr (refl, checked.1)))
