-- ===== src/KvClient/Attempts.antt =====
-- frontend/src/kv_client.h: a write is sent at most eight times.
use ncloud.Common.{
  ℕ, zero, suc, ◌+◌, ◌≤◌, Option, none, some, [], Bytes, Bool, true, false, ◌==◌, not, bytes_eq,
  arith, if_elim,
}
use ncloud.KvClient.{
  NodeInfo, KvWriteStatus, write_ok, quorum_unavailable, write_error, Network, KvClient,
  lookup_primary, found_target, find_target, refresh_target_for_row, Result, Op, write_answer,
  tried, looked_up, exec_attempts, exec_from, exec_row_write,
}

-- A count that only the operation raises, by at most one: how often it was sent.
pub record IsCount (N : Network) (op : Op N) : Type 0 where
  pub sent : N.State → ℕ
  pub sent-op : (node : NodeInfo) (s : N.State) → sent (op node s).1 ≤ suc (sent s)
  pub sent-borrow : (node : NodeInfo) (s : N.State) → sent (N.borrow node s).1 ≤ sent s
  pub sent-ask_coordinator :
      (bytes : Bytes) (s : N.State) → sent (N.ask_coordinator bytes s).1 ≤ sent s

module _ (N : Network) (row : Bytes) (op : Op N) (I : IsCount N op) where
  found_target-sent :
      (k : ℕ) (c : KvClient) (again : N.State → Bool × KvClient × N.State)
      (a : Option NodeInfo × N.State)
      → I.sent a.1 ≤ k
      → ((t : N.State) → I.sent t ≤ k → I.sent (again t).2 ≤ k)
      → I.sent (found_target N c again a).2 ≤ k
  unfolding found_target
  found_target-sent k c again (none, t) h later = later t h
  found_target-sent k c again (some node, t) h later = h

  lookup_primary-sent : (s : N.State) → I.sent (lookup_primary N row s).1 ≤ I.sent s
  unfolding lookup_primary
  lookup_primary-sent s = I.sent-ask_coordinator _ s

  find_target-sent :
      (k n : ℕ) (c : KvClient) (s : N.State) → I.sent s ≤ k → I.sent (find_target N n row c s).2 ≤ k
  unfolding find_target
  find_target-sent k zero c s h = h
  find_target-sent k (suc n) c s h =
      found_target-sent k c (λ t. find_target N n row c t) (lookup_primary N row s)
        (omega (arith, h, lookup_primary-sent s)) (λ t g. find_target-sent k n c t g)

  refresh-sent :
      (k : ℕ) (c : KvClient) (s : N.State)
      → I.sent s ≤ k
      → I.sent (refresh_target_for_row N row c s).2 ≤ k
  unfolding refresh_target_for_row
  refresh-sent k c s h =
      let P : Bool × KvClient × N.State → Type 0 = λ r. I.sent r.2 ≤ k in
      if_elim P (not c.use_coordinator) _ _ (λ _. h)
        (λ _.
          if_elim P (bytes_eq c.coord_host []) _ _ (λ _. h)
            (λ _. if_elim P (c.coord_port == 0) _ _ (λ _. h) (λ _. find_target-sent k 8 c s h)))

  -- The count of a result is at most the bound.
  abbrev Bounded : ℕ → Result N → Type 0
  Bounded m r = I.sent r.2 ≤ m

  write_answer-sent :
      (k m : ℕ) (c : KvClient) (retry : N.State → Result N) (a : KvWriteStatus × N.State)
      → I.sent a.1 ≤ k
      → k ≤ m
      → ((t : N.State) → I.sent t ≤ k → Bounded m (retry t))
      → Bounded m (write_answer N c retry a)
  unfolding write_answer
  write_answer-sent k m c retry (write_ok, s) h le later = omega (arith, h, le)
  write_answer-sent k m c retry (quorum_unavailable, s) h le later = omega (arith, h, le)
  write_answer-sent k m c retry (write_error, s) h le later = later s h

  tried-sent :
      (k m : ℕ) (c : KvClient) (retry : N.State → Result N) (b : Bool × N.State)
      → I.sent b.1 ≤ k
      → suc k ≤ m
      → ((t : N.State) → I.sent t ≤ suc k → Bounded m (retry t))
      → Bounded m (tried N op c retry b)
  unfolding tried
  tried-sent k m c retry (true, s) h le later =
      write_answer-sent (suc k) m c retry (op c.current s) (omega (arith, h, I.sent-op c.current s))
        le later
  tried-sent k m c retry (false, s) h le later = later s (omega (arith, h))

  looked_up-sent :
      (k m : ℕ) (next : KvClient → N.State → Result N) (c : KvClient) (s : N.State)
      → I.sent s ≤ k
      → ((d : KvClient) (t : N.State) → I.sent t ≤ k → Bounded m (next d t))
      → Bounded m (looked_up N row next c s)
  unfolding looked_up
  looked_up-sent k m next c s h later =
      let r = refresh_target_for_row N row c s in
      if_elim (λ (d : KvClient × N.State). Bounded m (next d.0 d.1)) c.use_coordinator (r.1, r.2)
        (c, s) (λ _. later r.1 r.2 (refresh-sent k c s h)) (λ _. later c s h)

  exec_attempts-sent :
      (n k : ℕ) (c : KvClient) (s : N.State)
      → I.sent s ≤ k
      → Bounded (k + n) (exec_attempts N n row op c s)
  unfolding exec_attempts
  exec_attempts-sent zero k c s h = omega (arith, h)
  exec_attempts-sent (suc n) k c s h =
      tried-sent k (k + suc n) c (λ t. looked_up N row (λ d u. exec_attempts N n row op d u) c t)
        (N.borrow c.current s) (omega (arith, h, I.sent-borrow c.current s)) (omega arith)
        (λ t g.
          looked_up-sent (suc k) (k + suc n) (λ d u. exec_attempts N n row op d u) c t g
            (λ d u q. le_plus n k _ (exec_attempts-sent n (suc k) d u q)))
    where
      le_plus : (n k m : ℕ) → m ≤ suc k + n → m ≤ k + suc n
      le_plus n k m h = omega (arith, h)

  exec_from-sent :
      (k : ℕ) (r : Bool × KvClient × N.State)
      → I.sent r.2 ≤ k
      → Bounded (k + 8) (exec_from N row op r)
  unfolding exec_from
  exec_from-sent k (true, c, s) h = exec_attempts-sent 8 k c s h
  exec_from-sent k (false, c, s) h = omega (arith, h)

-- Whatever is answered, a write is sent at most eight times.
pub exec_row_write-sent :
    (N : Network) (row : Bytes) (op : Op N) (I : IsCount N op) (c : KvClient) (s : N.State)
    → I.sent (exec_row_write N row op c s).2 ≤ I.sent s + 8
unfolding exec_row_write
exec_row_write-sent N row op I c s = exec_from-sent N row op I (I.sent s) _ (
    if_elim (λ (r : Bool × KvClient × N.State). I.sent r.2 ≤ I.sent s) c.use_coordinator
      (refresh_target_for_row N row c s) (true, c, s)
      (λ _. refresh-sent N row op I (I.sent s) c s (omega arith)) (λ _. omega arith))
