-- ===== src/KvClient/Settled.antt =====
-- frontend/src/kv_client.h: which answers a write can end with, and how often it is sent.
use ncloud.Common.{
  ℕ, zero, suc, ◌≡◌, refl, ap, sym, ◌∙◌, ◌⊎◌, inl, inr, Option, none, some, [], Bytes, Bool, true,
  false, ◌==◌, not, bytes_eq, bytes_eq_iff, arith, if_elim,
}
use ncloud.KvClient.{
  NodeInfo, KvWriteStatus, write_ok, quorum_unavailable, write_error, Network, KvClient, same_node,
  lookup_primary, install_target, found_target, find_target, refresh_target_for_row, Result, Op,
  write_answer, tried, looked_up, exec_attempts, exec_from, exec_row_write,
}

same_node-eq : (a b : NodeInfo) → same_node a b ≡ true → b ≡ a
unfolding same_node
same_node-eq a b h =
    let hosts : b.host ≡ a.host = sym ((bytes_eq_iff a.host b.host).0 (ground (arith, h))) in
    let ports : b.port ≡ a.port = ground (arith, h) in cc (hosts, ports)

module _ (N : Network) (row : Bytes) where
  -- The coordinator named the client's target for the row.
  abbrev pub Named : KvClient → Type 0
  Named c = (u : N.State) × ((lookup_primary N row u).0 ≡ some c.current)

  install_target-current :
      (node : NodeInfo) (c : KvClient) → (install_target N node c).current ≡ node
  unfolding install_target
  install_target-current node c =
      if_elim (λ (d : KvClient). d.current ≡ node) (same_node node c.current) _ _
        (λ e. same_node-eq node c.current e) (λ _. refl)

  install_target-use :
      (node : NodeInfo) (c : KvClient)
      → (install_target N node c).use_coordinator ≡ c.use_coordinator
  unfolding install_target
  install_target-use node c =
      if_elim (λ (d : KvClient). d.use_coordinator ≡ c.use_coordinator) (same_node node c.current) _
        _ (λ _. refl) (λ _. refl)

  -- What lookups leave: the same coordinator, and a named target if one was named or had been.
  abbrev Looked : KvClient → Bool × KvClient × N.State → Type 0
  Looked c r =
      (r.1.use_coordinator ≡ c.use_coordinator) × (r.0 ≡ true → Named r.1) × (Named c → Named r.1)

  found_target-Looked :
      (c : KvClient) (again : N.State → Bool × KvClient × N.State) (s : N.State)
      (a : Option NodeInfo × N.State)
      → (lookup_primary N row s).0 ≡ a.0
      → ((t : N.State) → Looked c (again t))
      → Looked c (found_target N c again a)
  unfolding found_target
  found_target-Looked c again s (none, t) e h = h t
  found_target-Looked c again s (some node, t) e h =
      let named : Named (install_target N node c) =
        (s, e ∙ ap some (sym (install_target-current node c))) in
      (install_target-use node c, (λ _. named), λ _. named)

  same-Looked : (c : KvClient) (s : N.State) → Looked c (false, c, s)
  same-Looked c s = (refl, (λ e. cc e), λ h. h)

  find_target-Looked : (n : ℕ) (c : KvClient) (s : N.State) → Looked c (find_target N n row c s)
  unfolding find_target
  find_target-Looked zero c s = same-Looked c s
  find_target-Looked (suc n) c s =
      found_target-Looked c (λ t. find_target N n row c t) s (lookup_primary N row s) refl
        (λ t. find_target-Looked n c t)

  refresh_target_for_row-Looked :
      (c : KvClient) (s : N.State) → Looked c (refresh_target_for_row N row c s)
  unfolding refresh_target_for_row
  refresh_target_for_row-Looked c s =
      if_elim (Looked c) (not c.use_coordinator) _ _ (λ _. same-Looked c s)
        (λ _.
          if_elim (Looked c) (bytes_eq c.coord_host []) _ _ (λ _. same-Looked c s)
            (λ _.
              if_elim (Looked c) (c.coord_port == 0) _ _ (λ _. same-Looked c s)
                (λ _. find_target-Looked 8 c s)))

  module _ (op : Op N) where
    -- The answer is that of the client's target, and the last thing that happened.
    abbrev pub Said : KvWriteStatus → KvClient → N.State → Type 0
    Said a c s = (t : N.State) × (op c.current t ≡ (a, s))

    abbrev pub Settled : Result N → Type 0
    Settled (write_ok, c, s) = Named c × Said write_ok c s
    Settled (quorum_unavailable, c, s) = Named c × Said quorum_unavailable c s
    Settled (write_error, c, s) = Named c

    write_answer-Settled :
        (c : KvClient) (retry : N.State → Result N) (t : N.State) (a : KvWriteStatus × N.State)
        → Named c
        → op c.current t ≡ a
        → ((u : N.State) → Settled (retry u))
        → Settled (write_answer N c retry a)
    unfolding write_answer
    write_answer-Settled c retry t (write_ok, s) n e h = (n, (t, e))
    write_answer-Settled c retry t (quorum_unavailable, s) n e h = (n, (t, e))
    write_answer-Settled c retry t (write_error, s) n e h = h s

    tried-Settled :
        (c : KvClient) (retry : N.State → Result N) (b : Bool × N.State)
        → Named c
        → ((u : N.State) → Settled (retry u))
        → Settled (tried N op c retry b)
    unfolding tried
    tried-Settled c retry (true, s) n h = write_answer-Settled c retry s (op c.current s) n refl h
    tried-Settled c retry (false, s) n h = h s

    looked_up-Settled :
        (next : KvClient → N.State → Result N) (c : KvClient) (s : N.State)
        → Named c
        → ((d : KvClient) (u : N.State) → Named d → Settled (next d u))
        → Settled (looked_up N row next c s)
    unfolding looked_up
    looked_up-Settled next c s n h =
        let r = refresh_target_for_row N row c s in
        if_elim (λ (d : KvClient × N.State). Settled (next d.0 d.1)) c.use_coordinator (r.1, r.2)
          (c, s) (λ _. h r.1 r.2 ((refresh_target_for_row-Looked c s).2 n)) (λ _. h c s n)

    exec_attempts-Settled :
        (n : ℕ) (c : KvClient) (s : N.State) → Named c → Settled (exec_attempts N n row op c s)
    unfolding exec_attempts
    exec_attempts-Settled zero c s h = h
    exec_attempts-Settled (suc n) c s h = tried-Settled c _ (N.borrow c.current s) h (λ t.
        looked_up-Settled (λ d u. exec_attempts N n row op d u) c t h
          (λ d u k. exec_attempts-Settled n d u k))

    -- The first search for a node of the row found none, and nothing happened behind it.
    abbrev pub Unnamed : KvClient → N.State → Result N → Type 0
    Unnamed c s r =
        ((refresh_target_for_row N row c s).0 ≡ false)
        × (r ≡ (
          quorum_unavailable,
          (refresh_target_for_row N row c s).1,
          (refresh_target_for_row N row c s).2,
        ))

    exec_from-Settled :
        (r : Bool × KvClient × N.State)
        → (r.0 ≡ true → Named r.1)
        → Settled (exec_from N row op r)
          ⊎ ((r.0 ≡ false) × (exec_from N row op r ≡ (quorum_unavailable, r.1, r.2)))
    unfolding exec_from
    exec_from-Settled (true, c, s) h = inl (exec_attempts-Settled 8 c s (h refl))
    exec_from-Settled (false, c, s) h = inr (refl, refl)

-- A write that uses the coordinator ends with success or with the lack of a quorum only as the last
-- thing that the node answered, and whatever it ends with, the coordinator has named that node for the
-- row; or the lookups before the first attempt named none, and nothing was sent to any.
pub exec_row_write-Settled :
    (N : Network) (row : Bytes) (op : Op N) (c : KvClient) (s : N.State)
    → c.use_coordinator ≡ true
    → Settled N row op (exec_row_write N row op c s)
      ⊎ Unnamed N row op c s (exec_row_write N row op c s)
unfolding exec_row_write
exec_row_write-Settled N row op c s h =
    let r = refresh_target_for_row N row c s in
    if_elim
      (λ (a : Bool × KvClient × N.State).
        Settled N row op (exec_from N row op a) ⊎ Unnamed N row op c s (exec_from N row op a))
      c.use_coordinator r (true, c, s)
      (λ _. exec_from-Settled N row op r (refresh_target_for_row-Looked N row c s).1)
      (λ e. cc (h, e))
