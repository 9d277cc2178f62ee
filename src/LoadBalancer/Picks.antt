-- ===== src/LoadBalancer/Picks.antt =====
-- frontend_lb/src/load_balancer.cc: what `pick_alive_node` chooses.
use ncloud.Common.{
  ℕ, zero, suc, ◌+◌, ◌-◌, ◌%◌, ◌≤◌, ◌<◌, ◌≡◌, refl, ap, ◌∙◌, Option, none, some, List, [], ◌∷◌,
  length, get_elem?, Bool, true, false, if◌then◌else◌, arith, leb, leb→le, Bool-cases, inl, inr,
  ◌⊎◌,
}
use native.Mathlib.Nat.{mod-eq_of_lt, add-mod_left}
use ncloud.LoadBalancer.{FrontendNode, Balancer, pick_at, pick_from, pick_alive_node}

unfoldable pub found : Option FrontendNode → Bool
found none = false
found (some n) = true

-- What the loop has met: a node that is alive and in the list, and the next round begins at a node.
Picked : Balancer → Option FrontendNode × Balancer → Type 0
Picked b r =
    (r.1.nodes ≡ b.nodes)
    × ((n : FrontendNode)
        → r.0 ≡ some n
        → (n.alive ≡ true)
          × ((i : ℕ) × (get_elem? b.nodes i ≡ some n) × (r.1.rr_idx ≡ (i + 1) % length b.nodes)))

pick_at-Picked :
    (idx : ℕ) (o : Option FrontendNode) (b : Balancer) (rest : Option FrontendNode × Balancer)
    → get_elem? b.nodes idx ≡ o
    → Picked b rest
    → Picked b (pick_at idx o b rest)
unfolding pick_at Picked
pick_at-Picked idx none b rest e h = h
pick_at-Picked idx (some n) b rest e h = go n.alive refl
  where
    go :
        (a : Bool)
        → n.alive ≡ a
        → Picked b (if a then (some n, record b { rr_idx = (idx + 1) % length b.nodes }) else rest)
    go true k = (refl, λ m q. (ground (arith, k, q), (idx, e ∙ q, refl)))
    go false k = h

pick_from-Picked : (left step : ℕ) (b : Balancer) → Picked b (pick_from left step b)
unfolding pick_from Picked
pick_from-Picked zero step b = (refl, λ n q. absurd (ground (arith, q)))
pick_from-Picked (suc left) step b =
    pick_at-Picked ((b.rr_idx + step) % length b.nodes) _ b (pick_from left (step + 1) b) refl
      (pick_from-Picked left (step + 1) b)

pick_at-found :
    (idx : ℕ) (o : Option FrontendNode) (b : Balancer) (rest : Option FrontendNode × Balancer)
    → found rest.0 ≡ true
    → found (pick_at idx o b rest).0 ≡ true
unfolding pick_at found
pick_at-found idx none b rest h = h
pick_at-found idx (some n) b rest h = ground arith

pub le_cases : (a b : ℕ) → a ≤ b → (a ≡ b) ⊎ (a + 1 ≤ b)
le_cases a b h = omega arith

-- The loop stops at a node that is alive, if one of its steps meets one.
pick_from-found :
    (left step k : ℕ) (b : Balancer) (n : FrontendNode)
    → step ≤ k
    → k < step + left
    → get_elem? b.nodes ((b.rr_idx + k) % length b.nodes) ≡ some n
    → n.alive ≡ true
    → found (pick_from left step b).0 ≡ true
unfolding pick_from pick_at found
pick_from-found zero step k b n h h' e a = absurd (omega arith)
pick_from-found (suc left) step k b n h h' e a = elim (le_cases step k h) [
  | inl q ↦
      now ((b.rr_idx + step) % length b.nodes)
        (get_elem? b.nodes ((b.rr_idx + step) % length b.nodes)) (pick_from left (step + 1) b)
        (ap (λ j. get_elem? b.nodes ((b.rr_idx + j) % length b.nodes)) q ∙ e)
  | inr q ↦
      pick_at-found ((b.rr_idx + step) % length b.nodes) _ b (pick_from left (step + 1) b)
        (pick_from-found left (step + 1) k b n q (omega arith) e a)
]
  where
    now :
        (idx : ℕ) (o : Option FrontendNode) (rest : Option FrontendNode × Balancer)
        → o ≡ some n
        → found (pick_at idx o b rest).0 ≡ true
    now idx none rest q = absurd (ground (arith, q))
    now idx (some m) rest q = ground (arith, q, a)

-- Every node is met within as many steps as there are nodes.
pub step_to : (rr i n : ℕ) → rr < n → i < n → (k : ℕ) × (k < n) × ((rr + k) % n ≡ i)
step_to rr i n h h' = elim (Bool-cases (leb rr i)) [
  | inl e ↦ (
    i - rr,
    omega (arith, leb→le rr i e),
    ap (λ j. j % n) (sum rr i (leb→le rr i e)) ∙ mod-eq_of_lt h',
  )
  | inr e ↦ (
    n + i - rr,
    ground (arith, e),
    ap (λ j. j % n) (sum rr (n + i) (omega arith)) ∙ add-mod_left n i ∙ mod-eq_of_lt h',
  )
]
  where
    sum : (a c : ℕ) → a ≤ c → a + (c - a) ≡ c
    sum a c q = omega arith

pub in_range :
    (ns : List FrontendNode) (i : ℕ) (n : FrontendNode) → get_elem? ns i ≡ some n → i < length ns
in_range [] i n e = absurd (ground (arith, e))
in_range (m ∷ ns) zero n e = omega arith
in_range (m ∷ ns) (suc i) n e = omega (arith, in_range ns i n e)

-- With the next round at a node: a node is chosen if any is alive; a chosen node is alive and one
-- of the nodes, the next round begins behind it, and the nodes are as before.
pub pick_alive_node_lem :
    (b : Balancer)
    → b.rr_idx < length b.nodes
    → let r = pick_alive_node b in
      ((i : ℕ) (n : FrontendNode)
        → get_elem? b.nodes i ≡ some n
        → n.alive ≡ true
        → found r.0 ≡ true)
      × (r.1.nodes ≡ b.nodes)
      × ((n : FrontendNode)
          → r.0 ≡ some n
          → (n.alive ≡ true)
            × ((i : ℕ) × (get_elem? b.nodes i ≡ some n) × (r.1.rr_idx ≡ (i + 1) % length b.nodes)))
unfolding pick_alive_node Picked
pick_alive_node_lem b h =
    let p = pick_from-Picked (length b.nodes) 0 b in
    (
      λ i n e a.
          let k = step_to b.rr_idx i (length b.nodes) h (in_range b.nodes i n e) in
          pick_from-found (length b.nodes) 0 k.0 b n (omega arith) (omega (arith, k.1))
            (ap (get_elem? b.nodes) k.2 ∙ e) a,
      p.0,
      p.1,
    )
