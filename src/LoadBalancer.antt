-- ===== src/LoadBalancer.antt =====
-- frontend_lb/src/load_balancer.cc: the configuration, the check of the frontends' health, the choice
-- of one, round robin over those that are alive, and the answer that sends a client there.
pub mod Picks
pub mod Fair
pub mod Redirect
use ncloud.Common.{
  ℕ, zero, suc, ◌+◌, ◌%◌, Option, none, some, List, [], ◌∷◌, ◌++◌, map, Bytes, codes, length,
  get_elem?, Bool, true, false, ◌==◌, if◌then◌else◌,
}
use ncloud.Common.Decimal.{to_string, read_word, read_port}
use ncloud.Common.Search.{starts_with}
use ncloud.Common.{bytes_eq}
use ncloud.Http.Text.{tokens}

pub record FrontendNode : Type 0 where
  pub id : Bytes
  pub host : Bytes
  pub port : ℕ
  pub alive : Bool

pub record Balancer : Type 0 where
  pub nodes : List FrontendNode
  pub rr_idx : ℕ

unfoldable pub pick_at :
    ℕ
    → Option FrontendNode
    → Balancer
    → Option FrontendNode × Balancer
    → Option FrontendNode × Balancer
pick_at idx none b rest = rest
pick_at idx (some n) b rest =
    if n.alive then (some n, record b { rr_idx = (idx + 1) % length b.nodes }) else rest

-- The loop, with the steps that are left of it. Every index is of a node.
unfoldable pub pick_from : ℕ → ℕ → Balancer → Option FrontendNode × Balancer
unfolding pick_at
pick_from zero step b = (none, b)
pick_from (suc left) step b =
    let rest = pick_from left (step + 1) b in
    let idx = (b.rr_idx + step) % length b.nodes in pick_at idx (get_elem? b.nodes idx) b rest

unfoldable pub pick_alive_node : Balancer → Option FrontendNode × Balancer
unfolding pick_from
pick_alive_node b = pick_from (length b.nodes) 0 b

-- A line with an id, a host and a port that is positive.
node_line : Bytes × Bytes → Option FrontendNode
node_line ([], rest) = none
node_line (c ∷ id, rest) = elim (read_word rest).0 [
  | [] ↦ none
  | d ∷ host ↦ elim (read_port (read_word rest).1).0 [
    | zero ↦ none
    | suc port ↦ some record { id = c ∷ id; host = d ∷ host; port = suc port; alive = false }
  ]
]

push_node : Option FrontendNode → Option (List FrontendNode) → Option (List FrontendNode)
push_node none nodes = none
push_node (some n) none = none
push_node (some n) (some nodes) = some (n ∷ nodes)

-- The nodes of the lines; `none` is the exception on a bad one.
load_nodes : List Bytes → Option (List FrontendNode)
unfolding node_line push_node
load_nodes [] = some []
load_nodes ([] ∷ lines) = load_nodes lines
load_nodes ((c ∷ line) ∷ lines) =
    let rest = load_nodes lines in
    let type = read_word (c ∷ line) in
    if c == b'#'
    then rest
    else if bytes_eq type.0 (codes "frontend")
    then push_node (node_line (read_word type.1)) rest
    else rest

some_nodes : Option (List FrontendNode) → Option Balancer
some_nodes none = none
some_nodes (some []) = none
some_nodes (some (n ∷ nodes)) = some record { nodes = n ∷ nodes; rr_idx = 0 }

-- The balancer of a file's text; `none` where the source throws.
unfoldable pub load_config : Option Bytes → Option Balancer
unfolding load_nodes some_nodes
load_config none = none
load_config (some text) = some_nodes (load_nodes (tokens 10 [] text))

abbrev pub checked : (Bytes → ℕ → Bool) → FrontendNode → FrontendNode
checked connects n = record n { alive = connects n.host n.port }

-- One round of the loop, with the addresses that accept a connection.
unfoldable pub health_check : (Bytes → ℕ → Bool) → Balancer → Balancer
health_check connects b = record b { nodes = map (checked connects) b.nodes }

push_byte : ℕ → Option Bytes → Option Bytes
push_byte c none = none
push_byte c (some head) = some (c ∷ head)

-- The bytes up to an empty line, where its four bytes begin within the number.
unfoldable pub read_head : ℕ → Bytes → Option Bytes
unfolding push_byte
read_head zero s = none
read_head (suc left) [] = none
read_head (suc left) (c ∷ s) =
    let later = read_head left s in
    if starts_with (codes "\r\n\r\n") (c ∷ s) then some (codes "\r\n\r\n") else push_byte c later

-- At most 8192 bytes.
unfoldable pub read_http_request_head : Bytes → Option Bytes
read_http_request_head s = read_head 8189 s

path_of : Bytes → Bytes → Bytes
path_of [] path = codes "/"
path_of (m ∷ method) [] = codes "/"
path_of (m ∷ method) (p ∷ path) = p ∷ path

unfoldable pub extract_path_from_request : Bytes → Bytes
unfolding path_of
extract_path_from_request req = path_of (read_word req).0 (read_word (read_word req).1).0

unfoldable pub page_not_found : Bytes
page_not_found =
    codes
      "HTTP/1.1 404 Not Found\r\nContent-Type: text/plain; charset=utf-8\r\nContent-Length: 15\r\nConnection: close\r\n\r\nPage Not Found\n"

unfoldable pub redirect_to : FrontendNode → Bytes → Bytes
redirect_to n path =
    codes "HTTP/1.1 307 Temporary Redirect\r\nLocation: http://"
    ++ (n.host
        ++ (b':'
            ∷ (to_string n.port
                ++ (path ++ codes "\r\nContent-Length: 0\r\nConnection: close\r\n\r\n"))))

pub redirected : Bytes → Option FrontendNode → Bytes
redirected path none = page_not_found
redirected path (some n) = redirect_to n path

-- What a client's bytes are answered with; nothing if they have no whole head.
unfoldable pub client_answer : Option Bytes → Balancer → Bytes × Balancer
unfolding redirected
client_answer none b = ([], b)
client_answer (some req) b =
    let picked = pick_alive_node b in
    (redirected (extract_path_from_request req) picked.0, picked.1)

unfoldable pub handle_client : Bytes → Balancer → Bytes × Balancer
unfolding client_answer
handle_client bytes b = client_answer (read_http_request_head bytes) b
