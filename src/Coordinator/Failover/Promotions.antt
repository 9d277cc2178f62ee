-- ===== src/Coordinator/Failover/Promotions.antt =====
-- coordinator/src/coordinator.cc: which nodes `handle_node_failure` tells to become a primary.
use ncloud.Common.{
  ℕ, ◌≤◌, ◌≡◌, refl, Option, none, some, List, [], ◌∷◌, Bytes, false, ltb, arith, All, if_elim, map,
  max,
}
use ncloud.Common.Dict.{lookup}
use ncloud.Coordinator.{StorageNode, node_tablet_lsn}
use ncloud.Coordinator.Network.{Net, State, promote_node, refresh, refresh_all}
use ncloud.Coordinator.Known.{SamePlace, AtPlace, refresh-AtPlace}
use ncloud.Coordinator.Election.{
  ElectionCandidate, Plan, no_plan, rebuild, elect, sort_candidates, insert_candidate, plan_tablet,
}
use ncloud.Coordinator.Failover.{
  run_rebuild, rebuild_refreshed, set_rebuilt, largest_lsn, refreshed_candidate, keep_followers,
  keep_candidates, refresh_candidates, pick_winner, install, installed, reconfigure, run_election,
  run_all, fail_known, handle_node_failure,
}
use ncloud.Coordinator.Network.Sent.{
  Sound, promote_node-Sound, attach_all-Sound, rebuild_primary_replicas-Sound, refresh-Sound,
  refresh_all-Sound,
}

module _ (net : Net) (P : StorageNode → Bytes → Type 0) where
  rebuild_refreshed-Sound :
      (dead name : Bytes) (p : StorageNode) (fs : List StorageNode) (r : Option StorageNode × State)
      → ((n : StorageNode) → SamePlace n p → P n name)
      → AtPlace p r
      → Sound net P r.1
      → Sound net P (rebuild_refreshed net dead name fs r)
  unfolding rebuild_refreshed set_rebuilt
  rebuild_refreshed-Sound dead name p fs (none, s) h w v = v
  rebuild_refreshed-Sound dead name p fs (some q, s) h w v =
      rebuild_primary_replicas-Sound net P q name _ _ (h q w) (refresh_all-Sound net P fs s v)

  -- What a plan may promote.
  abbrev pub Allowed : Plan → Type 0
  Allowed no_plan = Unit
  Allowed (rebuild name p fs) = (n : StorageNode) → SamePlace n p → P n name
  Allowed (elect name cs largest) = (n : StorageNode) → largest ≤ node_tablet_lsn n name → P n name

  run_rebuild-Sound :
      (dead : Bytes) (plan : Plan) (s : State)
      → Allowed plan
      → Sound net P s
      → Sound net P (run_rebuild net dead plan s)
  unfolding run_rebuild
  run_rebuild-Sound dead no_plan s h v = v
  run_rebuild-Sound dead (elect name cs largest) s h v = v
  run_rebuild-Sound dead (rebuild name p fs) s h v =
      rebuild_refreshed-Sound dead name p fs (refresh net p s) h (refresh-AtPlace net p s)
        (refresh-Sound net P p s v)

-- The LSN that is noted for a candidate is its node's.
abbrev Measured : Bytes → ElectionCandidate → Type 0
Measured name c = c.lsn ≡ node_tablet_lsn c.primary name

insert_candidate-Measured :
    (name : Bytes) (c : ElectionCandidate) (cs : List ElectionCandidate)
    → Measured name c
    → All (Measured name) cs
    → All (Measured name) (insert_candidate c cs)
unfolding insert_candidate
insert_candidate-Measured name c [] m ms = (m, tt)
insert_candidate-Measured name c (d ∷ ds) m ms =
    if_elim (All (Measured name)) (ltb c.lsn d.lsn) _ _
      (λ e. (ms.0, insert_candidate-Measured name c ds m ms.1)) λ e. (m, ms)

sort_candidates-Measured :
    (name : Bytes) (cs : List ElectionCandidate)
    → All (Measured name) cs
    → All (Measured name) (sort_candidates cs)
unfolding sort_candidates
sort_candidates-Measured name [] ms = tt
sort_candidates-Measured name (c ∷ cs) ms =
    insert_candidate-Measured name c _ ms.0 (sort_candidates-Measured name cs ms.1)

pub largest_lsn-grows :
    (name : Bytes) (ns : List StorageNode) (largest : ℕ) → largest ≤ largest_lsn name ns largest
unfolding largest_lsn
largest_lsn-grows name [] largest = omega arith
largest_lsn-grows name (n ∷ ns) largest =
    omega (arith, largest_lsn-grows name ns (max largest (node_tablet_lsn n name)))

module _ (net : Net) (P : StorageNode → Bytes → Type 0) where
  -- The candidates are measured, no smaller LSN counts than before, and the promotions are allowed.
  record Fresh (name : Bytes) (least : ℕ) (r : List ElectionCandidate × ℕ × State) : Type 0 where
    measured : All (Measured name) r.0
    grown : least ≤ r.1
    sound : Sound net P r.2

  refreshed_candidate-Fresh :
      (name : Bytes) (c : ElectionCandidate) (cs : List ElectionCandidate) (least largest : ℕ)
      (r : Option StorageNode × State)
      → ((m : ℕ) (t : State)
          → least ≤ m
          → Sound net P t
          → Fresh name least (refresh_candidates net name cs m t))
      → least ≤ largest
      → Sound net P r.1
      → let here = refreshed_candidate net name c largest r in
        Fresh name least (keep_candidates here.0 (refresh_candidates net name cs here.1 here.2))
  unfolding refreshed_candidate keep_followers keep_candidates
  refreshed_candidate-Fresh name c cs least largest (none, s) rest g v = rest largest s g v
  refreshed_candidate-Fresh name c cs least largest (some p, s) rest g v =
      let fs = refresh_all net c.followers s in
      let known = largest_lsn name fs.0 (max largest (node_tablet_lsn p name)) in
      let others =
        rest known fs.1
          (omega (arith, g, largest_lsn-grows name fs.0 (max largest (node_tablet_lsn p name))))
          (refresh_all-Sound net P c.followers s v) in
      record { measured = (refl, others.measured); grown = others.grown; sound = others.sound }

  refresh_candidates-Fresh :
      (name : Bytes) (cs : List ElectionCandidate) (least largest : ℕ) (s : State)
      → least ≤ largest
      → Sound net P s
      → Fresh name least (refresh_candidates net name cs largest s)
  unfolding refresh_candidates
  refresh_candidates-Fresh name [] least largest s g v = record {
    measured = tt;
    grown = g;
    sound = v;
  }
  refresh_candidates-Fresh name (c ∷ cs) least largest s g v =
      refreshed_candidate-Fresh name c cs least largest (refresh net c.primary s)
        (λ m t. refresh_candidates-Fresh name cs least m t) g (refresh-Sound net P c.primary s v)

  pick_winner-Sound :
      (name : Bytes) (largest : ℕ) (cs : List ElectionCandidate) (s : State)
      → ((n : StorageNode) → largest ≤ node_tablet_lsn n name → P n name)
      → All (Measured name) cs
      → Sound net P s
      → Sound net P (pick_winner net name largest cs s).1
  unfolding pick_winner
  pick_winner-Sound name largest [] s h m v = v
  pick_winner-Sound name largest (c ∷ cs) s h m v =
      let stale = ltb c.lsn largest in
      let fresh : stale ≡ false → P c.primary name = λ e. h c.primary (ground (arith, m.0, e)) in
      let tried : stale ≡ false → Sound net P (promote_node net c.primary name s).1 =
        λ e. promote_node-Sound net P c.primary name s (fresh e) v in
      let rest =
        pick_winner-Sound name largest cs _ h m.1
          (if_elim (Sound net P) stale s (promote_node net c.primary name s).1 (λ _. v) tried) in
      if_elim (λ (r : Option ElectionCandidate × State). Sound net P r.1) stale _ _ (λ e. rest)
        λ e.
          if_elim (λ (r : Option ElectionCandidate × State). Sound net P r.1)
            (promote_node net c.primary name s).0 _ _ (λ _. tried e) λ _. rest

  install-Sound :
      (dead name id : Bytes) (healthy : List Bytes) (o : Option StorageNode) (s : State)
      → Sound net P s
      → Sound net P (install dead name id healthy o s)
  unfolding install
  install-Sound dead name id healthy none s v = v
  install-Sound dead name id healthy (some n) s v = v

  reconfigure-Sound :
      (dead name : Bytes) (r : Option ElectionCandidate × State)
      → Sound net P r.1
      → Sound net P (reconfigure net dead name r)
  unfolding reconfigure installed
  reconfigure-Sound dead name (none, s) v = v
  reconfigure-Sound dead name (some w, s) v =
      install-Sound dead name w.primary.id _ _ _
        (attach_all-Sound net P w.primary name w.followers s v)

  run_election-Sound :
      (dead : Bytes) (plan : Plan) (s : State)
      → Allowed net P plan
      → Sound net P s
      → Sound net P (run_election net dead plan s)
  unfolding run_election
  run_election-Sound dead no_plan s h v = v
  run_election-Sound dead (rebuild name p fs) s h v = v
  run_election-Sound dead (elect name cs largest) s h v =
      let fresh = refresh_candidates-Fresh name cs largest largest s (omega arith) v in
      let r = refresh_candidates net name cs largest s in
      reconfigure-Sound dead name _ (
        pick_winner-Sound name r.1 (sort_candidates r.0) r.2
          (λ n l. h n (omega (arith, l, fresh.grown)))
          (sort_candidates-Measured name r.0 fresh.measured) fresh.sound)

  run_all-Sound :
      (step : Plan → State → State) (plans : List Plan) (s : State)
      → ((p : Plan) (t : State) → Allowed net P p → Sound net P t → Sound net P (step p t))
      → All (Allowed net P) plans
      → Sound net P s
      → Sound net P (run_all step plans s)
  unfolding run_all
  run_all-Sound step [] s h a v = v
  run_all-Sound step (p ∷ ps) s h a v = run_all-Sound step ps (step p s) h a.1 (h p s a.0 v)

  fail_known-Sound :
      (dead : Bytes) (o : Option StorageNode) (s : State)
      → All (Allowed net P) (map (plan_tablet s.nodes dead) s.tablets)
      → Sound net P s
      → Sound net P (fail_known net dead o s)
  unfolding fail_known
  fail_known-Sound dead none s a v = v
  fail_known-Sound dead (some n) s a v =
      run_all-Sound (run_election net dead) _ _ (run_election-Sound dead) a
        (run_all-Sound (run_rebuild net dead) _ s (run_rebuild-Sound net P dead) a v)

  -- If the plans for the tablets are allowed, so is every promotion that is sent.
  pub handle_node_failure-Sound :
      (dead : Bytes) (s : State)
      → All (Allowed net P) (map (plan_tablet s.nodes dead) s.tablets)
      → Sound net P s
      → Sound net P (handle_node_failure net dead s)
  unfolding handle_node_failure
  handle_node_failure-Sound dead s a v = fail_known-Sound dead (lookup dead s.nodes) s a v
