-- ===== src/Tests/LoadBalancer.antt =====
-- The load balancer of frontend_lb/src/load_balancer.cc at concrete inputs.
use ncloud.Common.{
  ℕ, ◌<◌, ◌≡◌, ◌⊎◌, refl, some, [], ◌∷◌, Bool, true, false, ◌==◌, Bytes, codes, arith, bytes_eq,
}
use ncloud.Common.Decimal.{read_word, read_port, read_digits}
use ncloud.Common.Search.{starts_with}
use ncloud.Http.Text.{tokens}
use ncloud.LoadBalancer.{
  FrontendNode, Balancer, pick_alive_node, health_check, handle_client, load_config, read_head,
  read_http_request_head,
}
use ncloud.LoadBalancer.Fair.{served, pick_alive_node-served}
use ncloud.LoadBalancer.Redirect.{Sent, Down, handle_client-health_check}

abbrev frontend : ℕ → Bool → FrontendNode
frontend port up = record { id = codes "fe"; host = codes "127.0.0.1"; port = port; alive = up }

-- The round begins at the last node, and the two others are alive.
abbrev balancer : Balancer
balancer = record {
  nodes = frontend 8081 true ∷ frontend 8082 true ∷ frontend 8083 false ∷ [];
  rr_idx = 2;
}

-- The second node is the next but one to be chosen.
pick_alive_node-served_example :
    (k : ℕ) × (k < 3) × ((pick_alive_node (served k balancer)).0 ≡ some (frontend 8082 true))
pick_alive_node-served_example =
    pick_alive_node-served balancer 1 (frontend 8082 true) (omega arith) refl refl

abbrev request : Bytes
request = codes "GET /home HTTP/1.1\r\n\r\n"

whole_request : read_http_request_head request ≡ some request
unfolding read_http_request_head read_head starts_with
whole_request = refl

-- Only the last node accepts a connection.
abbrev last_up : Bytes → ℕ → Bool
last_up host port = port == 8083

handle_client-health_check_example :
    Sent last_up balancer request (handle_client request (health_check last_up balancer)).0
    ⊎ Down last_up balancer (handle_client request (health_check last_up balancer)).0
handle_client-health_check_example =
    handle_client-health_check last_up balancer request request (omega arith) whole_request

config_read :
    load_config (some (codes "# nodes\nfrontend fe1 127.0.0.1 8081\n\nfrontend fe2 127.0.0.1 8082"))
    ≡ some (record {
      nodes =
          record { id = codes "fe1"; host = codes "127.0.0.1"; port = 8081; alive = false }
          ∷ record { id = codes "fe2"; host = codes "127.0.0.1"; port = 8082; alive = false }
          ∷ [];
      rr_idx = 0;
    })
unfolding load_config tokens read_word read_port read_digits bytes_eq
config_read = refl
