-- ===== src/Coordinator/Wire.antt =====
-- coordinator/src/coordinator.cc: `handle_client`, the requests on one connection. A write
-- reaches the peer.
pub mod Replies
pub mod Resolved
use ncloud.Common.{
  ℕ, zero, suc, ◌^◌, length, Option, none, some, [], ◌∷◌, ◌++◌, Bytes, codes, Bool, ◌||◌,
  if◌then◌else◌, bytes_eq,
}
use ncloud.Common.Decimal.{read_word, extract}
use ncloud.Codec.{read_exact}
use ncloud.Protocol.{read_line}
use ncloud.Coordinator.Status.{handle_status, handle_tablets}
use ncloud.Coordinator.Network.{Net, State}
use ncloud.Coordinator.Lookup.{handle_lookup, lookup_response}

-- What is outside: the nodes, and whether the first roles are done, `roles_configured_`.
pub record Desk : Type 0 where
  pub net : Net
  pub roles_configured : Bool

-- The answer and the bytes that are still unread; `none` ends the connection.
abbrev pub Reply : Type 0
Reply = Option (Bytes × Bytes) × State

-- What is replied, with that of the requests behind.
pub replied : (Bytes → State → Bytes × State) → Reply → Bytes × State
replied next (none, s) = ([], s)
replied next (some (out, rest), s) = let more = next rest s in (out ++ more.0, more.1)

module _ (desk : Desk) where
  pub answer_row : Option (Bytes × Bytes) → State → Reply
  answer_row none s = (none, s)
  answer_row (some (row, rest)) s =
      let r = handle_lookup desk.net row s in (some (lookup_response r.0, rest), r.1)

  -- A line's first word, the line behind it and the bytes behind the line.
  unfoldable pub answer_op : Bytes → Bytes → Bytes → State → Reply
  unfolding answer_row
  answer_op op line rest s =
      if bytes_eq op (codes "LOOKUP") || bytes_eq op (codes "READLOOKUP")
      then answer_row (read_exact (extract (2 ^ 32) (some line)).0 rest) s
      else if bytes_eq op (codes "STATUS") || bytes_eq op (codes "NODES")
      then (some (handle_status s.nodes, rest), s)
      else if bytes_eq op (codes "TABLETS")
      then (some (handle_tablets s.nodes s.tablets, rest), s)
      else if bytes_eq op (codes "READY")
      then (
        some (if desk.roles_configured then codes "+OK\r\n" else codes "-ERR not ready\r\n", rest),
        s,
      )
      else if bytes_eq op (codes "PING")
      then (some (codes "+OK\r\n", rest), s)
      else (some (codes "-ERR unknown op\r\n", rest), s)

  pub answer_line : Option (Bytes × Bytes) → State → Reply
  unfolding answer_op
  answer_line none s = (none, s)
  answer_line (some ([], rest)) s = (some ([], rest), s)
  answer_line (some (c ∷ line, rest)) s =
      let op = read_word (c ∷ line) in answer_op op.0 op.1 rest s

  -- The requests, and all that is written.
  pub client_loop : ℕ → Bytes → State → Bytes × State
  unfolding answer_line replied
  client_loop zero bytes s = ([], s)
  client_loop (suc fuel) bytes s = replied (client_loop fuel) (answer_line (read_line bytes) s)

  -- Each request takes at least one byte.
  unfoldable pub handle_client : Bytes → State → Bytes × State
  unfolding client_loop
  handle_client bytes s = client_loop (length bytes) bytes s
