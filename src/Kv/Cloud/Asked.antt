-- ===== src/Kv/Cloud/Asked.antt =====
-- The attempts of the client at a read, over a network that loses requests and answers.
use ncloud.Common.{
  ℕ, zero, suc, ◌^◌, ◌≡◌, refl, sym, ap, ◌∙◌, subst, Option, none, some, List, [], append-nil,
  Bytes, Bool, true, false, if_elim, ltb, ltb→lt, length,
}
use ncloud.Protocol.{send_get}
use ncloud.Server.{HostedTablet, answered, handle_request, on_row, get_row}
use ncloud.Server.Requests.{get_request}
use ncloud.Kv.{KvReadStatus, found, not_found, unavailable, Tells}
use ncloud.Kv.Cloud.{
  Fate, lost, unanswered, delivered, Cloud, Weather, tick, arrived, handled, network, Local, view,
}
use ncloud.Kv.Cloud.Reads.{Looked, on_row-Looked}
use ncloud.Kv.Cloud.Calls.{lookup_primary-hosted}
use ncloud.Kv.Cloud.Sizes.{send_get-Fits}
use ncloud.KvClient.{
  NodeInfo, KvClient, get_reply, lookup_primary, with_target, resolve, read_answer, read_tried,
  get_attempts, get_status,
}

module _ (W : Weather) (row col : Bytes) where
  -- What a read leaves of the tablets that were there, and what its answer says.
  pub record Told (hs : List HostedTablet) (a : KvReadStatus) (s : Cloud) : Type 0 where
    pub local : Local s.hosted
    pub same : (i j : Bytes) → view s.hosted i j ≡ view hs i j
    pub tells : Tells a (view hs row col)

  handled-Told :
      (f : Fate) (out rest : Bytes) (hs : List HostedTablet) (s : Cloud)
      → Local s.hosted
      → Looked s.hosted row col (out, hs)
      → let r = handled f (answered out rest hs) s in Told s.hosted (get_reply r.0) r.1
  unfolding handled tick arrived get_reply
  handled-Told lost out rest hs s l w = record { local = l; same = λ i j. refl; tells = tt }
  handled-Told unanswered out rest hs s l w = record { local = w.local; same = w.same; tells = tt }
  handled-Told delivered out rest hs s l w = record {
    local = w.local;
    same = w.same;
    tells =
        if_elim (λ (o : Option Bytes). Tells (get_reply o) (view s.hosted row col))
          (ltb (length out) (2 ^ 32)) (some out) none
          (λ e. w.tells (ltb→lt (length out) (2 ^ 32) e)) (λ _. tt);
  }

  ask-Told :
      (node : NodeInfo) (s : Cloud)
      → Local s.hosted
      → let r = (network W).ask node (send_get row col) s in Told s.hosted (get_reply r.0) r.1
  unfolding get_reply tick
  ask-Told node s l =
      let f = W.fate s.clock node in
      let env = W.env s.clock in
      let served = on_row row (get_row row col) s.hosted in
      let bytes = send_get row col in
      if_elim (λ (r : Option Bytes × Cloud). Told s.hosted (get_reply r.0) r.1)
        (ltb (length bytes) (2 ^ 32)) (handled f (handle_request env bytes s.hosted) s)
        (none, tick s)
        (λ e.
          let fits = send_get-Fits row col (ltb→lt (length bytes) (2 ^ 32) e) in
          let h : handle_request env bytes s.hosted ≡ answered served.0 [] served.1 =
            ap (λ b. handle_request env b s.hosted) (sym (append-nil bytes))
            ∙ get_request env row col [] s.hosted fits.0 fits.1 in
          subst (λ a. Told s.hosted (get_reply (handled f a s).0) (handled f a s).1) (sym h)
            (handled-Told f served.0 [] served.1 s l (on_row-Looked row col s.hosted l)))
        (λ _. record { local = l; same = λ i j. refl; tells = tt })

  abbrev Ends : List HostedTablet → KvReadStatus × KvClient × Cloud → Type 0
  Ends hs r = Told hs r.0 r.2

  Told-behind :
      (hs : List HostedTablet) (t : Cloud) (a : KvReadStatus) (s : Cloud)
      → ((i j : Bytes) → view t.hosted i j ≡ view hs i j)
      → Told t.hosted a s
      → Told hs a s
  Told-behind hs t a s e w = record {
    local = w.local;
    same = λ i j. w.same i j ∙ e i j;
    tells = subst (Tells a) (e row col) w.tells;
  }

  read_answer-Told :
      (c : KvClient) (again : Cloud → KvReadStatus × KvClient × Cloud) (hs : List HostedTablet)
      (a : KvReadStatus × Cloud)
      → Told hs a.0 a.1
      → ((t : Cloud) → Local t.hosted → Ends t.hosted (again t))
      → Ends hs (read_answer (network W) c again a)
  unfolding read_answer
  read_answer-Told c again hs (found val, s) w h = w
  read_answer-Told c again hs (not_found, s) w h = w
  read_answer-Told c again hs (unavailable, s) w h =
      Told-behind hs s (again s).0 (again s).2 w.same (h s w.local)

  read_tried-Told :
      (c : KvClient) (again : Cloud → KvReadStatus × KvClient × Cloud) (b : Bool × Cloud)
      → Local b.1.hosted
      → ((t : Cloud) → Local t.hosted → Ends t.hosted (again t))
      → Ends b.1.hosted (read_tried (network W) (send_get row col) c again b)
  unfolding read_tried
  read_tried-Told c again (false, s) l h = h s l
  read_tried-Told c again (true, s) l h =
      read_answer-Told c again s.hosted _ (ask-Told c.current s l) h

  with_target-hosted :
      (c : KvClient) (a : Option NodeInfo × Cloud)
      → (with_target (network W) c a).1.hosted ≡ a.1.hosted
  unfolding with_target
  with_target-hosted c (none, s) = refl
  with_target-hosted c (some node, s) = refl

  resolve-hosted : (c : KvClient) (s : Cloud) → (resolve (network W) row c s).1.hosted ≡ s.hosted
  unfolding resolve
  resolve-hosted c s =
      if_elim (λ (d : KvClient × Cloud). d.1.hosted ≡ s.hosted) c.use_coordinator _ _
        (λ _.
          with_target-hosted c (lookup_primary (network W) row s) ∙ lookup_primary-hosted W row s)
        (λ _. refl)

  resolved :
      (f : KvClient → Cloud → KvReadStatus × KvClient × Cloud) (c : KvClient) (s : Cloud)
      → Local s.hosted
      → ((d : KvClient) (t : Cloud) → Local t.hosted → Ends t.hosted (f d t))
      → Ends s.hosted (f (resolve (network W) row c s).0 (resolve (network W) row c s).1)
  resolved f c s l h =
      let e = resolve-hosted c s in
      subst (λ hs. Ends hs (f (resolve (network W) row c s).0 (resolve (network W) row c s).1)) e
        (h _ _ (subst Local (sym e) l))

  get_attempts-Told :
      (n : ℕ) (c : KvClient) (s : Cloud)
      → Local s.hosted
      → Ends s.hosted (get_attempts (network W) n row col c s)
  unfolding get_attempts tick
  get_attempts-Told zero c s l = record { local = l; same = λ i j. refl; tells = tt }
  get_attempts-Told (suc n) c s l =
      read_tried-Told c _ (W.connects s.clock c.current, tick s) l
        (λ t l'.
          resolved (get_attempts (network W) n row col) c t l' (λ d u k. get_attempts-Told n d u k))

  pub get_status-Told :
      (c : KvClient) (s : Cloud)
      → Local s.hosted
      → Ends s.hosted (get_status (network W) row col c s)
  unfolding get_status
  get_status-Told c s l =
      resolved (get_attempts (network W) 8 row col) c s l (λ d u k. get_attempts-Told 8 d u k)
