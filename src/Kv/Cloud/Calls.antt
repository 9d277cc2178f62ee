-- ===== src/Kv/Cloud/Calls.antt =====
-- The attempts of the client at a write, over a network that loses requests and answers.
use ncloud.Common.{
  ℕ, zero, suc, ◌^◌, ◌<◌, ◌≡◌, refl, sym, ◌∙◌, subst, Option, none, some, List, [], Bytes, Bool,
  true, false, not, if_elim, ltb, ltb→lt, length, bytes_eq, ◌==◌,
}
use ncloud.Server.{HostedTablet, Env, answered, handle_request}
use ncloud.Kv.Cloud.{
  Fate, lost, unanswered, delivered, Cloud, Weather, tick, arrived, handled, network, Local, view,
}
use ncloud.Kv.Cloud.Changed.{Changed, Changed-refl, Changed-trans, Changed-Old}
use ncloud.Kv.Cloud.Node.{Stored}
use ncloud.KvClient.{
  NodeInfo, KvWriteStatus, write_ok, quorum_unavailable, write_error, KvClient, success_reply,
  lookup_primary, found_target, find_target, refresh_target_for_row, Result, Op, write_answer,
  tried, looked_up, exec_attempts, exec_from, exec_row_write, exec_row, succeeded, request,
}

module _ (W : Weather) where
  found_target-hosted :
      (c : KvClient) (again : Cloud → Bool × KvClient × Cloud) (hs : List HostedTablet)
      (a : Option NodeInfo × Cloud)
      → a.1.hosted ≡ hs
      → ((t : Cloud) → t.hosted ≡ hs → (again t).2.hosted ≡ hs)
      → (found_target (network W) c again a).2.hosted ≡ hs
  unfolding found_target
  found_target-hosted c again hs (none, t) e h = h t e
  found_target-hosted c again hs (some node, t) e h = e

  pub lookup_primary-hosted :
      (row : Bytes) (s : Cloud) → (lookup_primary (network W) row s).1.hosted ≡ s.hosted
  unfolding lookup_primary tick
  lookup_primary-hosted row s = refl

  find_target-hosted :
      (n : ℕ) (row : Bytes) (c : KvClient) (hs : List HostedTablet) (s : Cloud)
      → s.hosted ≡ hs
      → (find_target (network W) n row c s).2.hosted ≡ hs
  unfolding find_target
  find_target-hosted zero row c hs s e = e
  find_target-hosted (suc n) row c hs s e =
      found_target-hosted c _ hs _ (lookup_primary-hosted row s ∙ e)
        (λ t e'. find_target-hosted n row c hs t e')

  -- Lookups at the coordinator leave the node alone.
  refresh_target_for_row-hosted :
      (row : Bytes) (c : KvClient) (s : Cloud)
      → (refresh_target_for_row (network W) row c s).2.hosted ≡ s.hosted
  unfolding refresh_target_for_row
  refresh_target_for_row-hosted row c s =
      let same = λ (r : Bool × KvClient × Cloud). r.2.hosted ≡ s.hosted in
      if_elim same (not c.use_coordinator) _ _ (λ _. refl)
        (λ _.
          if_elim same (bytes_eq c.coord_host []) _ _ (λ _. refl)
            (λ _.
              if_elim same (c.coord_port == 0) _ _ (λ _. refl)
                (λ _. find_target-hosted 8 row c s.hosted s refl)))

  module _ (row col : Bytes) (new : Option Bytes) (Old : Option Bytes → Type 0) where
    -- What a write leaves of the tablets that were there, and what its success says.
    pub record Wrote (hs : List HostedTablet) (a : KvWriteStatus) (s : Cloud) : Type 0 where
      pub local : Local s.hosted
      pub changed : Changed row col new Old (view hs) (view s.hosted)
      pub success : a ≡ write_ok → Old (view hs row col) × (view s.hosted row col ≡ new)

    -- The same of the call, whose success is a Boolean.
    pub record Called (hs : List HostedTablet) (r : Bool × KvClient × Cloud) : Type 0 where
      pub local : Local r.2.hosted
      pub changed : Changed row col new Old (view hs) (view r.2.hosted)
      pub success : r.0 ≡ true → Old (view hs row col) × (view r.2.hosted row col ≡ new)

    unwritten : (s : Cloud) → Local s.hosted → Wrote s.hosted write_error s
    unwritten s l = record {
      local = l;
      changed = Changed-refl row col new Old (view s.hosted);
      success = λ e. cc e;
    }

    Wrote-behind :
        (hs : List HostedTablet) (t : Cloud) (a : KvWriteStatus) (s : Cloud)
        → Changed row col new Old (view hs) (view t.hosted)
        → Wrote t.hosted a s
        → Wrote hs a s
    Wrote-behind hs t a s p w = record {
      local = w.local;
      changed = Changed-trans row col new Old (view hs) (view t.hosted) (view s.hosted) p w.changed;
      success = λ e. (
        Changed-Old row col new Old (view hs) (view t.hosted) p (w.success e).0,
        (w.success e).1,
      );
    }

    handled-Wrote :
        (f : Fate) (out rest : Bytes) (hs : List HostedTablet) (s : Cloud)
        → Local s.hosted
        → Stored row col new Old s.hosted (out, hs)
        → let r = handled f (answered out rest hs) s in Wrote s.hosted (success_reply r.0) r.1
    unfolding handled tick arrived success_reply
    handled-Wrote lost out rest hs s l w = record {
      local = l;
      changed = Changed-refl row col new Old (view s.hosted);
      success = λ e. cc e;
    }
    handled-Wrote unanswered out rest hs s l w = record {
      local = w.local;
      changed = w.changed;
      success = λ e. cc e;
    }
    handled-Wrote delivered out rest hs s l w = record {
      local = w.local;
      changed = w.changed;
      success =
          if_elim
            (λ (o : Option Bytes).
              success_reply o ≡ write_ok → Old (view s.hosted row col) × (view hs row col ≡ new))
            (ltb (length out) (2 ^ 32)) (some out) none (λ _ e. w.success e) (λ _ e. cc e);
    }

    -- A request that is handled as a write of the node's.
    pub request-Wrote :
        (bytes : Bytes) (f : Env → List HostedTablet → Bytes × List HostedTablet)
        → ((env : Env) (hs : List HostedTablet)
            → length bytes < 2 ^ 32
            → handle_request env bytes hs ≡ answered (f env hs).0 [] (f env hs).1)
        → ((env : Env) (hs : List HostedTablet) → Local hs → Stored row col new Old hs (f env hs))
        → (node : NodeInfo) (s : Cloud) → Local s.hosted
        → let r = request (network W) bytes success_reply node s in Wrote s.hosted r.0 r.1
    unfolding request success_reply tick
    request-Wrote bytes f h w node s l =
        if_elim (λ (r : Option Bytes × Cloud). Wrote s.hosted (success_reply r.0) r.1)
          (ltb (length bytes) (2 ^ 32))
          (handled (W.fate s.clock node) (handle_request (W.env s.clock) bytes s.hosted) s)
          (none, tick s)
          (λ e.
            subst
              (λ a.
                Wrote s.hosted (success_reply (handled (W.fate s.clock node) a s).0)
                  (handled (W.fate s.clock node) a s).1)
              (sym (h (W.env s.clock) s.hosted (ltb→lt (length bytes) (2 ^ 32) e)))
              (handled-Wrote (W.fate s.clock node) (f (W.env s.clock) s.hosted).0 []
                (f (W.env s.clock) s.hosted).1 s l (w (W.env s.clock) s.hosted l)))
          (λ _. record {
            local = l;
            changed = Changed-refl row col new Old (view s.hosted);
            success = λ e. cc e;
          })

    module _ (op : Op (network W))
        (w : (node : NodeInfo) (s : Cloud)
          → Local s.hosted
          → Wrote s.hosted (op node s).0 (op node s).1) where
      abbrev Ends : List HostedTablet → Result (network W) → Type 0
      Ends hs r = Wrote hs r.0 r.2

      write_answer-Wrote :
          (c : KvClient) (retry : Cloud → Result (network W)) (hs : List HostedTablet)
          (a : KvWriteStatus × Cloud)
          → Wrote hs a.0 a.1
          → ((t : Cloud) → Local t.hosted → Ends t.hosted (retry t))
          → Ends hs (write_answer (network W) c retry a)
      unfolding write_answer
      write_answer-Wrote c retry hs (write_ok, s) v h = v
      write_answer-Wrote c retry hs (quorum_unavailable, s) v h = v
      write_answer-Wrote c retry hs (write_error, s) v h =
          Wrote-behind hs s (retry s).0 (retry s).2 v.changed (h s v.local)

      tried-Wrote :
          (c : KvClient) (retry : Cloud → Result (network W)) (b : Bool × Cloud)
          → Local b.1.hosted
          → ((t : Cloud) → Local t.hosted → Ends t.hosted (retry t))
          → Ends b.1.hosted (tried (network W) op c retry b)
      unfolding tried
      tried-Wrote c retry (true, s) l h =
          write_answer-Wrote c retry s.hosted (op c.current s) (w c.current s l) h
      tried-Wrote c retry (false, s) l h = h s l

      moved :
          (r : Result (network W)) (s t : Cloud)
          → t.hosted ≡ s.hosted
          → Ends t.hosted r
          → Ends s.hosted r
      moved r s t e v = subst (λ hs. Ends hs r) e v

      looked_up-Wrote :
          (next : KvClient → Cloud → Result (network W)) (c : KvClient) (s : Cloud)
          → Local s.hosted
          → ((d : KvClient) (t : Cloud) → Local t.hosted → Ends t.hosted (next d t))
          → Ends s.hosted (looked_up (network W) row next c s)
      unfolding looked_up
      looked_up-Wrote next c s l h =
          let r = refresh_target_for_row (network W) row c s in
          let e = refresh_target_for_row-hosted row c s in
          if_elim (λ (d : KvClient × Cloud). Ends s.hosted (next d.0 d.1)) c.use_coordinator
            (r.1, r.2) (c, s)
            (λ _. moved (next r.1 r.2) s r.2 e (h r.1 r.2 (subst Local (sym e) l))) (λ _. h c s l)

      exec_attempts-Wrote :
          (n : ℕ) (c : KvClient) (s : Cloud)
          → Local s.hosted
          → Ends s.hosted (exec_attempts (network W) n row op c s)
      unfolding exec_attempts tick
      exec_attempts-Wrote zero c s l = unwritten s l
      exec_attempts-Wrote (suc n) c s l =
          tried-Wrote c _ (W.connects s.clock c.current, tick s) l
            (λ t l'.
              looked_up-Wrote (λ d u. exec_attempts (network W) n row op d u) c t l'
                (λ d u k. exec_attempts-Wrote n d u k))

      exec_from-Wrote :
          (r : Bool × KvClient × Cloud)
          → Local r.2.hosted
          → Ends r.2.hosted (exec_from (network W) row op r)
      unfolding exec_from
      exec_from-Wrote (true, c, s) l = exec_attempts-Wrote 8 c s l
      exec_from-Wrote (false, c, s) l = record {
        local = l;
        changed = Changed-refl row col new Old (view s.hosted);
        success = λ e. cc e;
      }

      exec_row_write-Wrote :
          (c : KvClient) (s : Cloud)
          → Local s.hosted
          → Ends s.hosted (exec_row_write (network W) row op c s)
      unfolding exec_row_write
      exec_row_write-Wrote c s l =
          let r = refresh_target_for_row (network W) row c s in
          let e = refresh_target_for_row-hosted row c s in
          if_elim (λ (a : Bool × KvClient × Cloud). Ends s.hosted (exec_from (network W) row op a))
            c.use_coordinator r (true, c, s)
            (λ _.
              moved (exec_from (network W) row op r) s r.2 e
                (exec_from-Wrote r (subst Local (sym e) l)))
            (λ _. exec_from-Wrote (true, c, s) l)

      succeeded-Called :
          (hs : List HostedTablet) (r : Result (network W))
          → Ends hs r
          → Called hs (succeeded (network W) r)
      unfolding succeeded
      succeeded-Called hs (write_ok, c, s) v = record {
        local = v.local;
        changed = v.changed;
        success = λ _. v.success refl;
      }
      succeeded-Called hs (quorum_unavailable, c, s) v = record {
        local = v.local;
        changed = v.changed;
        success = λ e. cc e;
      }
      succeeded-Called hs (write_error, c, s) v = record {
        local = v.local;
        changed = v.changed;
        success = λ e. cc e;
      }

      pub exec_row-Called :
          (c : KvClient) (s : Cloud)
          → Local s.hosted
          → Called s.hosted (exec_row (network W) row op c s)
      unfolding exec_row
      exec_row-Called c s l = succeeded-Called s.hosted _ (exec_row_write-Wrote c s l)
