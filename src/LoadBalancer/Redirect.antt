-- ===== src/LoadBalancer/Redirect.antt =====
-- frontend_lb/src/load_balancer.cc: where a client is sent after the health of the nodes was checked.
use ncloud.Common.{
  ℕ, zero, suc, ◌<◌, ◌≡◌, ◌⊎◌, inl, inr, refl, ap, sym, subst, ◌∙◌, Option, none, some, List, [],
  ◌∷◌, map, Bytes, length, get_elem?, Bool, true, false, arith, Bool-cases,
}
use ncloud.LoadBalancer.{
  FrontendNode, Balancer, pick_alive_node, checked, health_check, redirected, redirect_to,
  page_not_found, extract_path_from_request, client_answer, handle_client, read_http_request_head,
}
use ncloud.LoadBalancer.Picks.{found, pick_alive_node_lem}

module _ (connects : Bytes → ℕ → Bool) where
  length-map-checked : (ns : List FrontendNode) → length (map (checked connects) ns) ≡ length ns
  length-map-checked [] = refl
  length-map-checked (n ∷ ns) = ap suc (length-map-checked ns)

  get_elem?-map :
      (ns : List FrontendNode) (i : ℕ) (n : FrontendNode)
      → get_elem? ns i ≡ some n
      → get_elem? (map (checked connects) ns) i ≡ some (checked connects n)
  get_elem?-map [] i n e = absurd (ground (arith, e))
  get_elem?-map (m ∷ ns) zero n e = cc e
  get_elem?-map (m ∷ ns) (suc i) n e = get_elem?-map ns i n e

  get_elem?-unmap :
      (ns : List FrontendNode) (i : ℕ) (n : FrontendNode)
      → get_elem? (map (checked connects) ns) i ≡ some n
      → (m : FrontendNode) × (get_elem? ns i ≡ some m) × (checked connects m ≡ n)
  get_elem?-unmap [] i n e = absurd (ground (arith, e))
  get_elem?-unmap (m ∷ ns) zero n e = (m, refl, cc e)
  get_elem?-unmap (m ∷ ns) (suc i) n e = get_elem?-unmap ns i n e

  -- The answer sends the client to a node of the balancer that accepts a connection.
  abbrev pub Sent : Balancer → Bytes → Bytes → Type 0
  Sent b req bytes =
      (i : ℕ) × (n : FrontendNode) × (get_elem? b.nodes i ≡ some n)
      × (connects n.host n.port ≡ true)
      × (bytes ≡ redirect_to n (extract_path_from_request req))

  -- No node accepts a connection, and the answer says that there is no page.
  abbrev pub Down : Balancer → Bytes → Type 0
  Down b bytes =
      ((i : ℕ) (n : FrontendNode) → get_elem? b.nodes i ≡ some n → connects n.host n.port ≡ false)
      × (bytes ≡ page_not_found)

  module _ (b : Balancer) (req : Bytes) (h : b.rr_idx < length b.nodes) where
    redirected_lem :
        (o : Option FrontendNode)
        → (pick_alive_node (health_check connects b)).0 ≡ o
        → Sent b req (redirected (extract_path_from_request req) o)
          ⊎ Down b (redirected (extract_path_from_request req) o)
    unfolding redirected health_check found redirect_to
    redirected_lem none e =
        let lem =
          pick_alive_node_lem (health_check connects b)
            (subst (λ k. b.rr_idx < k) (sym (length-map-checked b.nodes)) h) in
        inr (
          λ i n at. elim (Bool-cases (connects n.host n.port)) [
            | inl up ↦
                cc (lem.0 i (checked connects n) (get_elem?-map b.nodes i n at) up, ap found e)
            | inr down ↦ down
          ],
          refl,
        )
    redirected_lem (some n) e =
        let lem =
          pick_alive_node_lem (health_check connects b)
            (subst (λ k. b.rr_idx < k) (sym (length-map-checked b.nodes)) h) in
        let (up, place) = lem.2 n e in
        let (i, at, next) = place in
        let (m, there, same) = get_elem?-unmap b.nodes i n at in
        inl (
          i,
          m,
          there,
          ap (λ (c : FrontendNode). c.alive) same ∙ up,
          ap (λ (c : FrontendNode). redirect_to c (extract_path_from_request req)) (sym same),
        )

-- After a check of the nodes' health, a client with a whole request is sent to a node that accepts a
-- connection, or told that there is no page if no node does.
pub handle_client-health_check :
    (connects : Bytes → ℕ → Bool) (b : Balancer) (bytes req : Bytes)
    → b.rr_idx < length b.nodes
    → read_http_request_head bytes ≡ some req
    → Sent connects b req (handle_client bytes (health_check connects b)).0
      ⊎ Down connects b (handle_client bytes (health_check connects b)).0
unfolding handle_client client_answer
handle_client-health_check connects b bytes req h e = rw e (redirected_lem connects b req h _ refl)
