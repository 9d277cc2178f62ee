-- ===== src/LoadBalancer/Fair.antt =====
-- frontend_lb/src/load_balancer.cc: the choice is fair.
use ncloud.Common.{
  ℕ, zero, suc, ◌+◌, ◌-◌, ◌%◌, ◌≤◌, ◌<◌, ◌≡◌, refl, ap, sym, ◌∙◌, Option, none, some, length,
  get_elem?, true, false, arith, inl, inr, if_elim,
}
use native.Mathlib.Nat.{mod-add-mod}
use ncloud.LoadBalancer.{FrontendNode, Balancer, pick_at, pick_from, pick_alive_node}
use ncloud.LoadBalancer.Picks.{le_cases, step_to, in_range}

-- The node at some steps from the beginning of the round.
abbrev at_step : Balancer → ℕ → Option FrontendNode
at_step b k = get_elem? b.nodes ((b.rr_idx + k) % length b.nodes)

-- The balancer when the node at a step has been chosen.
abbrev behind : Balancer → ℕ → Balancer
behind b k = record b { rr_idx = ((b.rr_idx + k) % length b.nodes + 1) % length b.nodes }

-- The choice is made at a step that comes no later than the given one.
abbrev FirstBy : Balancer → ℕ → Option FrontendNode × Balancer → Type 0
FirstBy b k r =
    (j : ℕ) × (j ≤ k) × (m : FrontendNode) × (at_step b j ≡ some m) × (r ≡ (some m, behind b j))

pick_at-FirstBy :
    (b : Balancer) (step k : ℕ) (o : Option FrontendNode) (rest : Option FrontendNode × Balancer)
    → at_step b step ≡ o
    → step ≤ k
    → (((m : FrontendNode) → o ≡ some m → m.alive ≡ false) → FirstBy b k rest)
    → FirstBy b k (pick_at ((b.rr_idx + step) % length b.nodes) o b rest)
unfolding pick_at
pick_at-FirstBy b step k none rest e le later = later (λ m q. cc q)
pick_at-FirstBy b step k (some n) rest e le later =
    if_elim (FirstBy b k) n.alive _ rest (λ _. (step, le, n, e, refl))
      (λ q. later (λ m p. cc (p, q)))

pick_from-FirstBy :
    (left step k : ℕ) (b : Balancer) (n : FrontendNode)
    → step ≤ k
    → k < step + left
    → at_step b k ≡ some n
    → n.alive ≡ true
    → FirstBy b k (pick_from left step b)
unfolding pick_from
pick_from-FirstBy zero step k b n h h' e a = absurd (omega (arith, h, h'))
pick_from-FirstBy (suc left) step k b n h h' e a =
    pick_at-FirstBy b step k _ (pick_from left (step + 1) b) refl h (λ dead.
      elim (le_cases step k h) [
        | inl q ↦ cc (dead n (ap (at_step b) q ∙ e), a)
        | inr q ↦ pick_from-FirstBy left (step + 1) k b n q (omega (arith, h')) e a
      ])

-- The balancer when so many clients have been served.
unfoldable pub served : ℕ → Balancer → Balancer
served zero b = b
served (suc k) b = served k (pick_alive_node b).1

-- From behind the step `j`, what was `d` steps away is fewer steps away.
mod_nearer : (rr j d n : ℕ) → j < d → (((rr + j) % n + 1) % n + (d - suc j)) % n ≡ (rr + d) % n
mod_nearer rr j d n h =
    mod-add-mod ((rr + j) % n + 1) n (d - suc j)
    ∙ ap (λ x. x % n) (assoc ((rr + j) % n) (d - suc j))
    ∙ mod-add-mod (rr + j) n (suc (d - suc j))
    ∙ ap (λ x. x % n) (total rr j d h)
  where
    assoc : (a c : ℕ) → a + 1 + c ≡ a + suc c
    assoc a c = omega arith

    total : (rr j d : ℕ) → j < d → rr + j + suc (d - suc j) ≡ rr + d
    total rr j d h = omega (arith, h)

-- The client after some others gets the node that is so many steps away.
abbrev Served : Balancer → ℕ → FrontendNode → Type 0
Served b d n = (k : ℕ) × (k ≤ d) × ((pick_alive_node (served k b)).0 ≡ some n)

pick_alive_node-near :
    (fuel d : ℕ) (b : Balancer) (n : FrontendNode)
    → d < fuel
    → d < length b.nodes
    → at_step b d ≡ some n
    → n.alive ≡ true
    → Served b d n
unfolding pick_alive_node served
pick_alive_node-near zero d b n h small e a = absurd (omega (arith, h))
pick_alive_node-near (suc fuel) d b n h small e a =
    let (j, le, m, first, r) =
      pick_from-FirstBy (length b.nodes) 0 d b n (omega arith) (omega (arith, small)) e a in
    elim (le_cases j d le) [
      | inl q ↦ (0, omega arith, ap (λ p. p.0) r ∙ sym first ∙ ap (at_step b) q ∙ e)
      | inr q ↦
          let less : j < d = omega (arith, q) in
          let (k, bound, found) =
            pick_alive_node-near fuel (d - suc j) (behind b j) n (omega (arith, h, less))
              (omega (arith, small))
              (ap (get_elem? b.nodes) (mod_nearer b.rr_idx j d (length b.nodes) less) ∙ e) a in
          (
            suc k,
            omega (arith, bound, less),
            ap (λ c. (pick_alive_node (served k c)).0) (ap (λ p. p.1) r) ∙ found,
          )
    ]

-- While the health of the nodes stays, every node that is alive is chosen for one of the next clients,
-- who are at most as many as there are nodes.
pub pick_alive_node-served :
    (b : Balancer) (i : ℕ) (n : FrontendNode)
    → b.rr_idx < length b.nodes
    → get_elem? b.nodes i ≡ some n
    → n.alive ≡ true
    → (k : ℕ) × (k < length b.nodes) × ((pick_alive_node (served k b)).0 ≡ some n)
pick_alive_node-served b i n h e a =
    let (d, small, there) = step_to b.rr_idx i (length b.nodes) h (in_range b.nodes i n e) in
    let (k, le, found) =
      pick_alive_node-near (suc d) d b n (omega arith) small (ap (get_elem? b.nodes) there ∙ e) a in
    (k, omega (arith, le, small), found)
