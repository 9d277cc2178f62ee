-- ===== src/KvClient.antt =====
-- frontend/src/kv_client.h: a request is sent to the node that the coordinator names for its row, and
-- sent again while it fails. What the peers answer is the network's; waits and time-outs are left out.
pub mod Settled
pub mod Attempts
use ncloud.Common.{
  ℕ, zero, suc, ◌-◌, ◌^◌, Option, none, some, [], ◌∷◌, ◌++◌, Bytes, codes, length, drop, Bool, true,
  false, ltb, ◌==◌, ◌&&◌, not, if◌then◌else◌, bytes_eq, min,
}
use ncloud.Common.Decimal.{to_string, read_word, read_port, read_unsigned}
use ncloud.Common.Search.{starts_with}
use ncloud.Codec.{read_exact}
use ncloud.Protocol.{
  KvResponse, read_line, read_response, send_put, send_get, send_cput, send_delete,
}
use ncloud.Kv.{KvReadStatus, found, not_found, unavailable}

pub record NodeInfo : Type 0 where
  pub host : Bytes
  pub port : ℕ

pub data KvWriteStatus : Type 0 where
  write_ok quorum_unavailable write_error : KvWriteStatus

-- What a request meets: whether there is a connection to a node, the bytes that the node answers, and
-- those that the coordinator answers; `none` where nothing can be written.
pub record Network : Type 1 where
  pub State : Type 0
  pub borrow : NodeInfo → State → Bool × State
  pub ask : NodeInfo → Bytes → State → Option Bytes × State
  pub ask_coordinator : Bytes → State → Option Bytes × State

pub record KvClient : Type 0 where
  pub current : NodeInfo
  pub coord_host : Bytes
  pub coord_port : ℕ
  pub use_coordinator : Bool

unfoldable pub same_node : NodeInfo → NodeInfo → Bool
same_node a b = bytes_eq a.host b.host && a.port == b.port

unfoldable pub node_of : Bytes → ℕ → Option NodeInfo
node_of [] port = none
node_of (c ∷ host) zero = none
node_of (c ∷ host) (suc port) = some record { host = c ∷ host; port = suc port }

-- The answer `+OK host port role`.
unfoldable pub lookup_line : Option (Bytes × Bytes) → Option NodeInfo
unfolding node_of
lookup_line none = none
lookup_line (some (line, rest)) =
    if starts_with (codes "+OK ") line
    then node_of (read_word (drop 4 line)).0 (read_port (read_word (drop 4 line)).1).0
    else none

unfoldable pub lookup_reply : Option Bytes → Option NodeInfo
unfolding lookup_line
lookup_reply none = none
lookup_reply (some bytes) = lookup_line (read_line bytes)

write_status : KvResponse → KvWriteStatus
write_status r =
    if r.ok
    then write_ok
    else if bytes_eq r.error (codes "no quorum")
    then quorum_unavailable
    else write_error

unfoldable pub status_reply : Option Bytes → KvWriteStatus
unfolding write_status
status_reply none = write_error
status_reply (some bytes) = write_status (read_response bytes).0

-- The answers of `put`, `cput` and `del`, which tell success from all else.
unfoldable pub success_reply : Option Bytes → KvWriteStatus
success_reply none = write_error
success_reply (some bytes) = if (read_response bytes).0.ok then write_ok else write_error

unfoldable pub value_reply : Bytes → Option (ℕ × Bytes) → KvReadStatus
value_reply rest none = unavailable
value_reply rest (some (n, s)) = elim (read_exact n rest) [
  | none ↦ unavailable
  | some (val, behind) ↦ found val
]

unfoldable pub get_line : Option (Bytes × Bytes) → KvReadStatus
unfolding value_reply
get_line none = unavailable
get_line (some (line, rest)) =
    if starts_with (codes "+OK ") line
    then value_reply rest (read_unsigned (2 ^ 32) (drop 4 line))
    else if bytes_eq line (codes "-ERR not found")
    then not_found
    else unavailable

-- `do_get_once`.
unfoldable pub get_reply : Option Bytes → KvReadStatus
unfolding get_line
get_reply none = unavailable
get_reply (some bytes) = get_line (read_line bytes)

module _ (N : Network) where
  unfoldable pub lookup_primary : Bytes → N.State → Option NodeInfo × N.State
  unfolding lookup_reply
  lookup_primary row s =
      let r =
        N.ask_coordinator (codes "LOOKUP " ++ (to_string (length row) ++ (13 ∷ 10 ∷ row))) s in
      (lookup_reply r.0, r.1)

  unfoldable pub install_target : NodeInfo → KvClient → KvClient
  install_target node c = if same_node node c.current then c else record c { current = node }

  -- The lookups until one names a node.
  unfoldable pub found_target :
      KvClient
      → (N.State → Bool × KvClient × N.State)
      → Option NodeInfo × N.State
      → Bool × KvClient × N.State
  found_target c again (none, s) = again s
  found_target c again (some node, s) = (true, install_target node c, s)

  unfoldable pub find_target : ℕ → Bytes → KvClient → N.State → Bool × KvClient × N.State
  unfolding found_target
  find_target zero row c s = (false, c, s)
  find_target (suc n) row c s = found_target c (λ t. find_target n row c t) (lookup_primary row s)

  unfoldable pub refresh_target_for_row : Bytes → KvClient → N.State → Bool × KvClient × N.State
  unfolding find_target
  refresh_target_for_row row c s =
      if not c.use_coordinator
      then (false, c, s)
      else if bytes_eq c.coord_host []
      then (false, c, s)
      else if c.coord_port == 0
      then (false, c, s)
      else find_target 8 row c s

  abbrev pub Result : Type 0
  Result = KvWriteStatus × KvClient × N.State

  -- One request over a connection to a node.
  abbrev pub Op : Type 0
  Op = NodeInfo → N.State → KvWriteStatus × N.State

  -- A definite answer ends the attempts.
  unfoldable pub write_answer : KvClient → (N.State → Result) → KvWriteStatus × N.State → Result
  write_answer c retry (write_ok, s) = (write_ok, c, s)
  write_answer c retry (quorum_unavailable, s) = (quorum_unavailable, c, s)
  write_answer c retry (write_error, s) = retry s

  unfoldable pub tried : Op → KvClient → (N.State → Result) → Bool × N.State → Result
  unfolding write_answer
  tried op c retry (true, s) = write_answer c retry (op c.current s)
  tried op c retry (false, s) = retry s

  -- The row is looked up again before the next attempt, which is made whether that gave a node or not.
  unfoldable pub looked_up : Bytes → (KvClient → N.State → Result) → KvClient → N.State → Result
  looked_up row next c s =
      let r = refresh_target_for_row row c s in
      let d : KvClient × N.State = if c.use_coordinator then (r.1, r.2) else (c, s) in next d.0 d.1

  -- The attempts of `exec_row_write`, and of `exec_row` with an operation that has no third answer.
  unfoldable pub exec_attempts : ℕ → Bytes → Op → KvClient → N.State → Result
  unfolding tried looked_up
  exec_attempts zero row op c s = (write_error, c, s)
  exec_attempts (suc n) row op c s =
      tried op c (λ t. looked_up row (λ d u. exec_attempts n row op d u) c t) (N.borrow c.current s)

  unfoldable pub exec_from : Bytes → Op → Bool × KvClient × N.State → Result
  unfolding exec_attempts
  exec_from row op (false, c, s) = (quorum_unavailable, c, s)
  exec_from row op (true, c, s) = exec_attempts 8 row op c s

  unfoldable pub exec_row_write : Bytes → Op → KvClient → N.State → Result
  unfolding exec_from
  exec_row_write row op c s =
      exec_from row op (if c.use_coordinator then refresh_target_for_row row c s else (true, c, s))

  unfoldable pub succeeded : Result → Bool × KvClient × N.State
  succeeded (write_ok, c, s) = (true, c, s)
  succeeded (quorum_unavailable, c, s) = (false, c, s)
  succeeded (write_error, c, s) = (false, c, s)

  unfoldable pub exec_row : Bytes → Op → KvClient → N.State → Bool × KvClient × N.State
  unfolding succeeded
  exec_row row op c s = succeeded (exec_row_write row op c s)

  -- A request whose answer is read in the given way.
  unfoldable pub request : Bytes → (Option Bytes → KvWriteStatus) → Op
  request bytes read node s = let r = N.ask node bytes s in (read r.0, r.1)

  unfoldable pub put_status : Bytes → Bytes → Bytes → KvClient → N.State → Result
  unfolding status_reply
  put_status row col val c s = exec_row_write row (request (send_put row col val) status_reply) c s

  unfoldable pub exec_put : Bytes → Bytes → Bytes → KvClient → N.State → Bool × KvClient × N.State
  unfolding success_reply
  exec_put row col val c s = exec_row row (request (send_put row col val) success_reply) c s

  unfoldable pub exec_cput :
      Bytes → Bytes → Bytes → Bytes → KvClient → N.State → Bool × KvClient × N.State
  unfolding success_reply
  exec_cput row col v1 v2 c s = exec_row row (request (send_cput row col v1 v2) success_reply) c s

  unfoldable pub exec_del : Bytes → Bytes → KvClient → N.State → Bool × KvClient × N.State
  unfolding success_reply
  exec_del row col c s = exec_row row (request (send_delete row col) success_reply) c s

  abbrev Reading : Type 0
  Reading = KvReadStatus × KvClient × N.State

  -- One lookup, whose node is taken if there is one.
  unfoldable pub with_target : KvClient → Option NodeInfo × N.State → KvClient × N.State
  with_target c (none, s) = (c, s)
  with_target c (some node, s) = (install_target node c, s)

  unfoldable pub resolve : Bytes → KvClient → N.State → KvClient × N.State
  unfolding with_target
  resolve row c s =
      let r = with_target c (lookup_primary row s) in if c.use_coordinator then r else (c, s)

  unfoldable pub read_answer : KvClient → (N.State → Reading) → KvReadStatus × N.State → Reading
  read_answer c again (found val, s) = (found val, c, s)
  read_answer c again (not_found, s) = (not_found, c, s)
  read_answer c again (unavailable, s) = again s

  unfoldable pub read_tried : Bytes → KvClient → (N.State → Reading) → Bool × N.State → Reading
  unfolding read_answer get_reply
  read_tried bytes c again (false, s) = again s
  read_tried bytes c again (true, s) =
      let r = N.ask c.current bytes s in read_answer c again (get_reply r.0, r.1)

  unfoldable pub get_attempts : ℕ → Bytes → Bytes → KvClient → N.State → Reading
  unfolding read_tried resolve
  get_attempts zero row col c s = (unavailable, c, s)
  get_attempts (suc n) row col c s =
      read_tried (send_get row col) c
        (λ t. get_attempts n row col (resolve row c t).0 (resolve row c t).1) (N.borrow c.current s)

  unfoldable pub get_status : Bytes → Bytes → KvClient → N.State → Reading
  unfolding get_attempts resolve
  get_status row col c s = get_attempts 8 row col (resolve row c s).0 (resolve row c s).1
