-- ===== src/Tests/Wire.antt =====
-- The requests to the coordinator and its heartbeat, coordinator/src/coordinator.cc, at concrete inputs.
use ncloud.Common.{sym, subst, arith, ◌≡◌, refl, none, [], ◌∷◌, codes, true, All, bytes_eq}
use ncloud.Common.Dict.{lookup, insert}
use ncloud.Common.Decimal.{read_word, skip_space, read_until_space, to_string}
use ncloud.Protocol.{read_line}
use ncloud.KvClient.{Network, lookup_primary}
use ncloud.Http.Message.{json_str, json_chars, json_char}
use ncloud.Coordinator.{no_connection, ping_node}
use ncloud.Coordinator.Network.{Net, State, cache_refreshed_node, update_node}
use ncloud.Coordinator.Status.{handle_tablets}
use ncloud.Coordinator.Lookup.{Lookup, handle_lookup}
use ncloud.Coordinator.Heartbeat.{ping_snapshot}
use ncloud.Coordinator.Heartbeat.Pings.{Watched, FailingIn, ping_snapshot-Watched}
use ncloud.Coordinator.Wire.{Desk, handle_client, answer_op}
use ncloud.Coordinator.Wire.Replies.{named_node, Addressed}
use ncloud.Coordinator.Wire.Resolved.{served_by, lookup_primary-handle_client}
use ncloud.Tests.Failover.{net, node, tablet, a_alive, a_found, both}

abbrev desk : Desk
desk = record { net = net; roles_configured = true }

abbrev wire : Network
wire = served_by desk (λ n s. (true, s)) (λ n bytes s. (none, s))

a_Addressed : Addressed (handle_lookup net (codes "row") a_alive).0
a_Addressed =
    subst (λ (r : Lookup × State). Addressed r.0) (sym a_found)
      (
        (refl, (refl, (refl, (refl, (refl, (refl, (refl, (refl, (refl, tt))))))))),
        omega arith,
        omega arith,
        omega arith,
        omega arith,
      )

lookup_primary-handle_client_example : lookup_primary wire (codes "row") a_alive ≡ (
  named_node (handle_lookup net (codes "row") a_alive).0,
  (handle_lookup net (codes "row") a_alive).1,
)
lookup_primary-handle_client_example =
    lookup_primary-handle_client desk (λ n s. (true, s)) (λ n bytes s. (none, s)) (codes "row")
      a_alive (omega arith) a_Addressed

-- Two requests on one connection, and a line that is none.
two_requests :
    (handle_client desk (codes "PING\r\nREADY\r\nHELP\r\n") a_alive).0
    ≡ codes "+OK\r\n+OK\r\n-ERR unknown op\r\n"
unfolding handle_client answer_op read_line read_word skip_space read_until_space bytes_eq
two_requests = refl

tablets_text :
    handle_tablets ((codes "b", node (codes "b") true) ∷ []) (tablet ∷ [])
    ≡ codes
        "+OK 146\r\n[{\"name\":\"t\",\"row_start\":\"\",\"row_end\":\"\",\"replicas\":[{\"id\":\"b\",\"host\":\"127.0.0.1\",\"port\":5000,\"repl_port\":5100,\"alive\":true,\"role\":\"secondary\"}]}]"
unfolding handle_tablets json_str json_chars json_char to_string lookup bytes_eq
tablets_text = refl

-- No node answers.
abbrev silent : Net
silent = record net { probe = λ n p. no_connection }

both-Watched : Watched 1 both.nodes
both-Watched = (
  record { down = refl; misses = omega arith },
  (record { down = refl; misses = omega arith }, tt),
)

ping_snapshot-Watched_example :
    Watched 1
      (ping_snapshot silent 1 (node (codes "a") true ∷ node (codes "b") true ∷ []) both).state.nodes
    × All
        (FailingIn 1 (node (codes "a") true ∷ node (codes "b") true ∷ []))
        (ping_snapshot silent 1
          (node (codes "a") true ∷ node (codes "b") true ∷ [])
          both).newly_dead
ping_snapshot-Watched_example =
    ping_snapshot-Watched silent 1 (node (codes "a") true ∷ node (codes "b") true ∷ []) both
      both-Watched both-Watched

both_fail :
    (ping_snapshot silent 1 (node (codes "a") true ∷ node (codes "b") true ∷ []) both).newly_dead
    ≡ codes "a" ∷ codes "b" ∷ []
unfolding ping_snapshot ping_node cache_refreshed_node update_node lookup insert bytes_eq
both_fail = refl
