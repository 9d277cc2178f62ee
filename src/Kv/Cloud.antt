-- ===== src/Kv/Cloud.antt =====
-- The client of frontend/src/kv_client.h against one storage node of kvstore/src/server.cc, as a
-- storage of the frontend. The network between them is the environment's: each request is lost, or it
-- is handled, with an answer that arrives or not; and no message has 2 ^ 32 bytes or more.
pub mod Changed
pub mod Node
pub mod Writes
pub mod Calls
pub mod Reads
pub mod Asked
pub mod Sizes
pub mod Lawful
use ncloud.Common.{
  ℕ, ◌+◌, ◌^◌, Option, none, some, List, [], ◌∷◌, Bytes, Bool, true, false, ltb, if◌then◌else◌,
  length, All, ◌≡◌,
}
use ncloud.Rows.{cell}
use ncloud.Tablet.Cells.{IsIndexed}
use ncloud.Server.{Env, HostedTablet, Served, closed, answered, handle_request, row_in_range}
use ncloud.KvClient.{NodeInfo, Network}

pub data Fate : Type 0 where
  lost unanswered delivered : Fate

-- The calls are counted, and `hosted` are the tablets of the node.
pub record Cloud : Type 0 where
  pub clock : ℕ
  pub hosted : List HostedTablet

-- What becomes of each call: of a connection, of a request and in the server, and what the
-- coordinator answers.
pub record Weather : Type 0 where
  pub connects : ℕ → NodeInfo → Bool
  pub fate : ℕ → NodeInfo → Fate
  pub env : ℕ → Env
  pub coordinator : ℕ → Bytes → Option Bytes

pub tick : Cloud → Cloud
tick s = record s { clock = s.clock + 1 }

pub arrived : Bytes → Option Bytes
arrived out = if ltb (length out) (2 ^ 32) then some out else none

pub handled : Fate → Served → Cloud → Option Bytes × Cloud
unfolding tick arrived
handled lost r s = (none, tick s)
handled unanswered closed s = (none, tick s)
handled unanswered (answered out rest hs) s = (none, record { clock = s.clock + 1; hosted = hs })
handled delivered closed s = (none, tick s)
handled delivered (answered out rest hs) s =
    (arrived out, record { clock = s.clock + 1; hosted = hs })

abbrev pub network : Weather → Network
network W = record {
  State = Cloud;
  borrow = λ node s. (W.connects s.clock node, tick s);
  ask = λ node bytes s.
      if ltb (length bytes) (2 ^ 32)
      then handled (W.fate s.clock node) (handle_request (W.env s.clock) bytes s.hosted) s
      else (none, tick s);
  ask_coordinator = λ bytes s. (W.coordinator s.clock bytes, tick s);
}

-- The tablets have no replicas, and their filters cover their rows.
abbrev pub Local : List HostedTablet → Type 0
Local hs = All (λ h. (h.replicated ≡ false) × IsIndexed h.manager.tablet) hs

-- The cell that the tablet of its row has.
pub view : List HostedTablet → Bytes → Bytes → Option Bytes
view [] i j = none
view (h ∷ hs) i j =
    if row_in_range i h.row_start h.row_end then cell i j h.manager.tablet.rows else view hs i j
