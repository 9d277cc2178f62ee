-- ===== src/Coordinator/Wire/Replies.antt =====
-- How a client of the key-value store reads the coordinator's answer to a lookup.
use ncloud.Common.{
  ℕ, zero, suc, ◌+◌, ◌^◌, ◌≤◌, ◌<◌, ◌≡◌, refl, ap, ◌∙◌, Option, none, some, [], ◌∷◌, ◌++◌,
  append_assoc, Bytes, codes, length, length-append, All, All-append, arith,
}
use ncloud.Common.Decimal.{to_string, read_word, skip_space, read_port}
use ncloud.Common.Decimal.Printed.{length-to_string, NoSpace, read_until_space-append}
use ncloud.Common.Decimal.Ports.{read_port-to_string}
use ncloud.Common.Search.{starts_with}
use ncloud.Protocol.{read_line}
use ncloud.Protocol.Lines.{InLine, read_line-append, to_string-InLine}
use ncloud.Server.Control.Replicate.{InLine-NoSpace}
use ncloud.Coordinator.{StorageNode}
use ncloud.Coordinator.Lookup.{
  Lookup, primary_at, primary_stale, primary_unavailable, no_tablet, lookup_response,
}
use ncloud.KvClient.{NodeInfo, lookup_reply, lookup_line, node_of}

-- The node that a lookup names.
abbrev pub named_node : Lookup → Option NodeInfo
named_node (primary_at p) = some record { host = p.host; port = p.port }
named_node no_tablet = none
named_node primary_unavailable = none
named_node primary_stale = none

-- A node that is named has a place that can be written: a host of one word, and a port.
abbrev pub Addressed : Lookup → Type 0
Addressed (primary_at p) =
    All NoSpace p.host
    × (0 < length p.host)
    × (length p.host ≤ 8000)
    × (0 < p.port)
    × (p.port < 2 ^ 31)
Addressed no_tablet = Unit
Addressed primary_unavailable = Unit
Addressed primary_stale = Unit

node_of_pos :
    (c port : ℕ) (host : Bytes)
    → 0 < port
    → node_of (c ∷ host) port ≡ some record { host = c ∷ host; port = port }
unfolding node_of
node_of_pos c zero host h = absurd (omega (arith, h))
node_of_pos c (suc port) host h = refl

-- The port behind the host, with the blank before it.
read_behind :
    (port : ℕ) → port < 2 ^ 31 → (read_port (32 ∷ (to_string port ++ codes " primary"))).0 ≡ port
unfolding read_port skip_space
read_behind port h =
    ap (λ (r : ℕ × Bytes). r.0) (read_port-to_string port (codes " primary") h refl)

read_word-place :
    (c : ℕ) (host s : Bytes)
    → All NoSpace (c ∷ host)
    → read_word ((c ∷ host) ++ (32 ∷ s)) ≡ (c ∷ host, 32 ∷ s)
unfolding read_word skip_space
read_word-place c host s h = rw h.0 (read_until_space-append (c ∷ host) s h)

place : Bytes → ℕ → Bytes
place host port = host ++ (32 ∷ (to_string port ++ codes " primary"))

lookup_line-place :
    (host : Bytes) (port : ℕ)
    → All NoSpace host
    → 0 < length host
    → 0 < port
    → port < 2 ^ 31
    → lookup_line (some (codes "+OK " ++ place host port, []))
      ≡ some record { host = host; port = port }
unfolding lookup_line starts_with place
lookup_line-place [] port h some_host pos small = absurd (omega (arith, some_host))
lookup_line-place (c ∷ host) port h some_host pos small =
    ap (λ (r : Bytes × Bytes). node_of r.0 (read_port r.1).0)
      (read_word-place c host (to_string port ++ codes " primary") h)
    ∙ ap (node_of (c ∷ host)) (read_behind port small)
    ∙ node_of_pos c port host pos

response_shape :
    (p : StorageNode)
    → lookup_response (primary_at p) ≡ (codes "+OK " ++ place p.host p.port) ++ (13 ∷ 10 ∷ [])
unfolding lookup_response place
response_shape p = simp append_assoc

place-InLine : (host : Bytes) (port : ℕ) → All NoSpace host → All InLine (place host port)
unfolding place
place-InLine host port h = All-append InLine host _ (InLine-NoSpace host h) (
  refl,
  All-append InLine (to_string port) (codes " primary") (to_string-InLine port)
      (refl, (refl, (refl, (refl, (refl, (refl, (refl, (refl, tt)))))))),
)

length-place : (host : Bytes) (port : ℕ) → length (place host port) ≤ length host + 29
unfolding place
length-place host port = omega (
  arith,
  length-append host (32 ∷ (to_string port ++ codes " primary")),
  length-append (to_string port) (codes " primary"),
  length-to_string port,
)

reply :
    (p : StorageNode)
    → Addressed (primary_at p)
    → lookup_reply (some (lookup_response (primary_at p)))
      ≡ some record { host = p.host; port = p.port }
unfolding lookup_reply
reply p (words, some_host, short, pos, small) =
    ap (λ b. lookup_line (read_line b)) (response_shape p)
    ∙ ap lookup_line (
        read_line-append (codes "+OK " ++ place p.host p.port) []
          (refl, (refl, (refl, (refl, place-InLine p.host p.port words))))
          (omega (arith, length-place p.host p.port, short)))
    ∙ lookup_line-place p.host p.port words some_host pos small

pub lookup_reply-lookup_response :
    (l : Lookup) → Addressed l → lookup_reply (some (lookup_response l)) ≡ named_node l
unfolding lookup_reply lookup_response lookup_line read_line starts_with
lookup_reply-lookup_response (primary_at p) a = reply p a
lookup_reply-lookup_response no_tablet a = refl
lookup_reply-lookup_response primary_unavailable a = refl
lookup_reply-lookup_response primary_stale a = refl
