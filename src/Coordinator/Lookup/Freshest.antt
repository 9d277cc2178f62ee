-- ===== src/Coordinator/Lookup/Freshest.antt =====
-- coordinator/src/coordinator.cc: what an answer of `handle_lookup` promises.
use ncloud.Common.{
  ℕ, ◌+◌, ◌≤◌, ◌≡◌, refl, ◌∙◌, sym, subst, Option, none, some, Bytes, Bool, true, false, ltb, arith,
  All, if_elim,
}
use ncloud.Common.Dict.{Dict, lookup}
use ncloud.Coordinator.{
  StorageNode, TabletGroup, find_tablet, node_tablet_lsn, known_lsn, tablet_max_known_lsn,
  refresh_node_lsn_now,
}
use ncloud.Coordinator.Known.{SamePlace, AtPlace, refresh-AtPlace, tablet_max_known_lsn-All}
use ncloud.Coordinator.Network.{Net, State, refresh, refreshed, cache_refreshed_node}
use ncloud.Coordinator.Lookup.{
  Lookup, primary_at, primary_stale, primary_unavailable, no_tablet, handle_lookup, lookup_tablet,
  first_probe, second_probe, check_primary, live_primary,
}

-- What is known of a tablet's replicas is no newer than what the node has.
abbrev pub Freshest : TabletGroup → Dict StorageNode → StorageNode → Type 0
Freshest tg nodes p =
    All (λ id. known_lsn tg.name (lookup id nodes) 0 ≤ node_tablet_lsn p tg.name) tg.node_ids

abbrev pub SameAddress : StorageNode → StorageNode → Type 0
SameAddress n q = (n.id ≡ q.id) × (n.host ≡ q.host) × (n.port ≡ q.port)

-- The node is what an answered probe of that address made of it, in a call from the first on.
abbrev pub Probed : Net → ℕ → StorageNode → StorageNode → Type 0
Probed net first q p =
    (k : ℕ) × (n : StorageNode) × (first ≤ k)
    × SameAddress n q
    × (refresh_node_lsn_now net.numbers (net.probe k n) n ≡ (true, p))

module _ (net : Net) (tg : TabletGroup) (first : ℕ) (q : StorageNode) where
  -- A lookup that ends with a node of the primary's place, probed, and with nothing fresher known.
  abbrev Good : Lookup × State → Type 0
  Good (primary_at p, s) = SamePlace p q × Freshest tg s.nodes p × Probed net first q p
  Good (no_tablet, s) = Unit
  Good (primary_unavailable, s) = Unit
  Good (primary_stale, s) = Unit

  -- What a probe gives, if it was answered.
  abbrev Found : Option StorageNode × State → Type 0
  Found (none, s) = Unit
  Found (some p, s) = SamePlace p q × Probed net first q p × (first ≤ s.clock)

  refresh-Found :
      (n : StorageNode) (s : State) → SameAddress n q → first ≤ s.clock → Found (refresh net n s)
  unfolding refresh refreshed cache_refreshed_node
  refresh-Found n s same le =
      go (refresh_node_lsn_now net.numbers (net.probe s.clock n) n) refl (refresh-AtPlace net n s)
    where
      go :
          (a : Bool × StorageNode)
          → refresh_node_lsn_now net.numbers (net.probe s.clock n) n ≡ a
          → AtPlace n (refreshed a (record s { clock = s.clock + 1 }))
          → Found (refreshed a (record s { clock = s.clock + 1 }))
      go (false, p) e at = tt
      go (true, p) e at = (
        record {
          id = at.id ∙ same.0;
          host = at.host ∙ same.1;
          port = at.port ∙ same.2;
          alive = at.alive;
        },
        (s.clock, n, le, same, e),
        omega (arith, le),
      )

  unstale :
      (p : StorageNode) (s : State)
      → ltb (node_tablet_lsn p tg.name) (tablet_max_known_lsn s.nodes tg) ≡ false
      → Freshest tg s.nodes p
  unstale p s e =
      tablet_max_known_lsn-All s.nodes tg (node_tablet_lsn p tg.name) (ground (arith, e))

  check_primary-Good :
      (p : StorageNode) (s : State)
      → SamePlace p q
      → Probed net first q p
      → Good (check_primary tg p s)
  unfolding check_primary
  check_primary-Good p s v w =
      if_elim Good (ltb (node_tablet_lsn p tg.name) (tablet_max_known_lsn s.nodes tg)) _ _ (λ e. tt)
        λ e. (v, unstale p s e, w)

  second_probe-Good :
      (p : StorageNode) (r : Option StorageNode × State)
      → SamePlace p q
      → Probed net first q p
      → Found r
      → Good (second_probe tg p r)
  unfolding second_probe
  second_probe-Good p (none, s) v w f = check_primary-Good p s v w
  second_probe-Good p (some p', s) v w f = check_primary-Good p' s f.0 f.1

  first_probe-Good : (r : Option StorageNode × State) → Found r → Good (first_probe net tg r)
  unfolding first_probe
  first_probe-Good (none, s) f = tt
  first_probe-Good (some p, s) f =
      if_elim Good (ltb (node_tablet_lsn p tg.name) (tablet_max_known_lsn s.nodes tg)) _ _
        (λ e.
          second_probe-Good p (refresh net p s) f.0 f.1
            (refresh-Found p s (f.0.id, f.0.host, f.0.port) f.2))
        λ e. (f.0, unstale p s e, f.1)

handle_lookup-found :
    (net : Net) (row : Bytes) (s : State) (tg : TabletGroup)
    → find_tablet row s.tablets ≡ some tg
    → handle_lookup net row s ≡ lookup_tablet net tg (live_primary tg s.nodes) s
unfolding handle_lookup
handle_lookup-found net row s tg found = rw (found, handle_lookup) refl

-- A lookup that answers with a node has the row's tablet, whose first node was alive; the answer is
-- that node at its place, as it is after it answered a probe of this lookup, and no replica of the
-- tablet is known with an LSN that is larger than its own.
pub handle_lookup-Freshest :
    (net : Net) (row : Bytes) (s s' : State) (tg : TabletGroup) (p : StorageNode)
    → find_tablet row s.tablets ≡ some tg
    → handle_lookup net row s ≡ (primary_at p, s')
    → (q : StorageNode) × (live_primary tg s.nodes ≡ some q)
      × SamePlace p q
      × Freshest tg s'.nodes p
      × Probed net s.clock q p
unfolding lookup_tablet
handle_lookup-Freshest net row s s' tg p found e =
    go (live_primary tg s.nodes) (sym (handle_lookup-found net row s tg found) ∙ e)
  where
    go :
        (o : Option StorageNode)
        → lookup_tablet net tg o s ≡ (primary_at p, s')
        → (q : StorageNode) × (o ≡ some q)
          × SamePlace p q
          × Freshest tg s'.nodes p
          × Probed net s.clock q p
    go none e = cc
    go (some q) e =
        let v = subst (Good net tg s.clock q) e (
          first_probe-Good net tg s.clock q _
            (refresh-Found net tg s.clock q q s (refl, refl, refl) (omega arith))) in
        (q, refl, v.0, v.1, v.2)
