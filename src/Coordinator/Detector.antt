-- ===== src/Coordinator/Detector.antt =====
-- The failure detector of coordinator/src/coordinator.cc: `ping_node` over many pings.
use ncloud.Common.{
  ℕ, ◌+◌, ◌<◌, ◌≡◌, refl, ◌∙◌, Option, none, some, List, [], ◌∷◌, Bytes, codes, true, false, not,
  ltb, if◌then◌else◌, ◌&&◌, arith, if_elim, All, length, ap,
}
use ncloud.Common.Dict.{Dict}
use ncloud.Common.Search.{starts_with, find_behind}
use ncloud.Coordinator.{
  StorageNode, Numbers, Ping, no_connection, no_line, line, Pinged, ping_node, miss, answered,
  parse_ping_metadata, parse_lsn, parse_tablet_lsns, parse_pid, set_lsn, set_tablet_lsns, set_pid,
}

-- Reading a reply leaves the node's address and the detector's state alone.
pub record SameState (a b : StorageNode) : Type 0 where
  pub id : a.id ≡ b.id
  pub host : a.host ≡ b.host
  pub port : a.port ≡ b.port
  pub alive : a.alive ≡ b.alive
  pub was_down : a.was_down ≡ b.was_down
  pub missed : a.missed ≡ b.missed

other_fields-SameState :
    (n : StorageNode) (l : ℕ) (t : Dict ℕ) (p : ℕ)
    → SameState (record n { lsn = l; tablet_lsns = t; process_id = p }) n
other_fields-SameState n l t p = record {
  id = refl;
  host = refl;
  port = refl;
  alive = refl;
  was_down = refl;
  missed = refl;
}

parse_lsn-SameState :
    (num : Numbers) (o : Option Bytes) (n : StorageNode) → SameState (parse_lsn num o n) n
unfolding parse_lsn set_lsn
parse_lsn-SameState num none n = other_fields-SameState n n.lsn n.tablet_lsns n.process_id
parse_lsn-SameState num (some text) n = go (num.stoull text)
  where
    go : (o : Option ℕ) → SameState (set_lsn o n) n
    go none = other_fields-SameState n n.lsn n.tablet_lsns n.process_id
    go (some k) = other_fields-SameState n k n.tablet_lsns n.process_id

set_tablet_lsns-SameState : (d : Dict ℕ) (n : StorageNode) → SameState (set_tablet_lsns d n) n
unfolding set_tablet_lsns
set_tablet_lsns-SameState [] n = other_fields-SameState n n.lsn n.tablet_lsns n.process_id
set_tablet_lsns-SameState (p ∷ d) n = other_fields-SameState n n.lsn (p ∷ d) n.process_id

parse_tablet_lsns-SameState :
    (num : Numbers) (o : Option Bytes) (n : StorageNode) → SameState (parse_tablet_lsns num o n) n
unfolding parse_tablet_lsns
parse_tablet_lsns-SameState num none n = other_fields-SameState n n.lsn n.tablet_lsns n.process_id
parse_tablet_lsns-SameState num (some text) n = set_tablet_lsns-SameState _ n

parse_pid-SameState :
    (num : Numbers) (o : Option Bytes) (n : StorageNode) → SameState (parse_pid num o n) n
unfolding parse_pid set_pid
parse_pid-SameState num none n = other_fields-SameState n n.lsn n.tablet_lsns n.process_id
parse_pid-SameState num (some text) n = go (num.stoi text)
  where
    go : (o : Option ℕ) → SameState (set_pid o n) n
    go none = other_fields-SameState n n.lsn n.tablet_lsns n.process_id
    go (some k) =
        if_elim (λ a. SameState a n) (ltb 0 k) _ n
          (λ e. other_fields-SameState n n.lsn n.tablet_lsns k)
          λ e. other_fields-SameState n n.lsn n.tablet_lsns n.process_id

pub parse_ping_metadata-SameState :
    (num : Numbers) (n : StorageNode) (resp : Bytes) → SameState (parse_ping_metadata num n resp) n
unfolding parse_ping_metadata
parse_ping_metadata-SameState num n resp =
    let a = parse_lsn-SameState num (find_behind (codes "LSN=") resp) n in
    let b =
      parse_tablet_lsns-SameState num (find_behind (codes "TABLET_LSNS=") resp)
        (parse_lsn num (find_behind (codes "LSN=") resp) n) in
    let c = parse_pid-SameState num (find_behind (codes "PID=") resp) (
      parse_tablet_lsns num (find_behind (codes "TABLET_LSNS=") resp)
        (parse_lsn num (find_behind (codes "LSN=") resp) n)) in
    record {
      id = c.id ∙ b.id ∙ a.id;
      host = c.host ∙ b.host ∙ a.host;
      port = c.port ∙ b.port ∙ a.port;
      alive = c.alive ∙ b.alive ∙ a.alive;
      was_down = c.was_down ∙ b.was_down ∙ a.was_down;
      missed = c.missed ∙ b.missed ∙ a.missed;
    }

-- A node counts as down, or is alive with fewer misses than the threshold.
pub record IsWatched (threshold : ℕ) (n : StorageNode) : Type 0 where
  pub down : n.was_down ≡ not n.alive
  pub misses : (if n.alive then n.missed else 0) < threshold

module _ (num : Numbers) (threshold : ℕ) (n : StorageNode) where
  answered-IsWatched :
      (resp : Bytes)
      → IsWatched threshold n
      → IsWatched threshold (answered num resp n).node
        × ((answered num resp n).node.alive ≡ true)
        × ((answered num resp n).node.missed ≡ 0)
  unfolding answered
  answered-IsWatched resp v =
      let k = parse_ping_metadata-SameState num (record n { missed = 0; alive = true }) resp in
      (
        record {
          down = ground (arith, k.alive, k.was_down, v.down);
          misses = rw (k.alive, k.missed) (ground (arith, v.misses));
        },
        k.alive,
        k.missed,
      )

  miss_lem :
      IsWatched threshold n
      → IsWatched threshold (miss threshold n).node
        × ((miss threshold n).just_failed ≡ (n.alive && not (miss threshold n).node.alive))
        × ((miss threshold n).node.missed ≡ n.missed + 1)
        × ((miss threshold n).node.alive ≡ (n.alive && ltb (n.missed + 1) threshold))
  unfolding miss
  miss_lem v = (
    record { down = ground (arith, v.down, v.misses); misses = ground (arith, v.misses) },
    ground arith,
    ground arith,
    ground arith,
  )

-- A ping without a good answer.
abbrev pub Unanswered : Ping → Type 0
Unanswered no_connection = Unit
Unanswered no_line = Unit
Unanswered (line resp) = starts_with (codes "+OK") resp ≡ false

Unanswered-miss :
    (num : Numbers) (threshold : ℕ) (p : Ping) (n : StorageNode)
    → Unanswered p
    → ping_node num threshold p n ≡ miss threshold n
unfolding ping_node
Unanswered-miss num threshold no_connection n h = refl
Unanswered-miss num threshold no_line n h = refl
Unanswered-miss num threshold (line resp) n h = rw h refl

-- A ping keeps a node watched: it counts as down, or is alive with fewer misses than the threshold;
-- and a failure is reported by exactly those pings that make an alive node count as down.
pub ping_node-IsWatched :
    (num : Numbers) (threshold : ℕ) (p : Ping) (n : StorageNode)
    → IsWatched threshold n
    → IsWatched threshold (ping_node num threshold p n).node
      × ((ping_node num threshold p n).just_failed
          ≡ (n.alive && not (ping_node num threshold p n).node.alive))
unfolding ping_node
ping_node-IsWatched num threshold no_connection n v =
    ((miss_lem num threshold n v).0, (miss_lem num threshold n v).1)
ping_node-IsWatched num threshold no_line n v =
    ((miss_lem num threshold n v).0, (miss_lem num threshold n v).1)
ping_node-IsWatched num threshold (line resp) n v =
    if_elim
      (λ (r : Pinged). IsWatched threshold r.node × (r.just_failed ≡ (n.alive && not r.node.alive)))
      (starts_with (codes "+OK") resp) _ _
      (λ e. let k = answered-IsWatched num threshold n resp v in (k.0, reported resp k.1))
      λ e. ((miss_lem num threshold n v).0, (miss_lem num threshold n v).1)
  where
    reported :
        (resp : Bytes)
        → (answered num resp n).node.alive ≡ true
        → (answered num resp n).just_failed ≡ (n.alive && not (answered num resp n).node.alive)
    reported resp h = ground (arith, h)

-- The heartbeats of one node, one behind the other.
unfoldable pub ping_all : Numbers → ℕ → List Ping → StorageNode → StorageNode
ping_all num threshold [] n = n
ping_all num threshold (p ∷ ps) n = ping_all num threshold ps (ping_node num threshold p n).node

-- A watched node whose pings stay without a good answer is alive as long as its misses, those of
-- before with these, are fewer than the threshold, and counts as down from then on.
pub ping_all-Unanswered :
    (num : Numbers) (threshold : ℕ) (ps : List Ping) (n : StorageNode)
    → All Unanswered ps
    → IsWatched threshold n
    → ((ping_all num threshold ps n).alive ≡ (n.alive && ltb (n.missed + length ps) threshold))
      × ((ping_all num threshold ps n).missed ≡ n.missed + length ps)
unfolding ping_all
ping_all-Unanswered num threshold [] n h v = (ground (arith, v.misses), ground arith)
ping_all-Unanswered num threshold (p ∷ ps) n h v =
    rw (ping_all, Unanswered-miss num threshold p n h.0)
      (let k = miss_lem num threshold n v in
        let rest = ping_all-Unanswered num threshold ps (miss threshold n).node h.1 k.0 in
        (ground (arith, rest.0, k.2, k.3), ground (arith, rest.1, k.2)))

-- A good answer makes any watched node alive, with no misses, however long it was down.
pub ping_node-recovers :
    (num : Numbers) (threshold : ℕ) (resp : Bytes) (n : StorageNode)
    → IsWatched threshold n
    → starts_with (codes "+OK") resp ≡ true
    → let r = ping_node num threshold (line resp) n in
      (r.node.alive ≡ true) × (r.node.missed ≡ 0) × (r.node.was_down ≡ false)
unfolding ping_node
ping_node-recovers num threshold resp n v h =
    rw h (let k = answered-IsWatched num threshold n resp v in (k.1, k.2, k.0.down ∙ ap not k.1))
