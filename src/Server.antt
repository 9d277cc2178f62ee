-- ===== src/Server.antt =====
-- kvstore/src/server.cc: the tablets of a storage node, and the handling of one request. A request
-- is read from the bytes that the client has sent; the bytes of the answer are taken to be written.
pub mod Requests
pub mod Wire
pub mod ReadBack
pub mod Control
use ncloud.Common.{
  ℕ, zero, suc, ◌+◌, ◌^◌, ◌%◌, Option, none, some, List, [], ◌∷◌, ◌++◌, Bytes, codes, bytes_eq,
  length, Bool, true, false, not, ltb, ◌==◌, ◌&&◌, ◌||◌, if◌then◌else◌, ◌>>=◌, max, min,
}
use ncloud.Common.Decimal.{to_string, read_unsigned, read_word}
use ncloud.Common.Order.{below}
use ncloud.Codec.{read_exact}
use ncloud.Tablet.{Tablet, Write, Outcome, put, get, cput, del}
use ncloud.Tablet.Checkpoint.{CheckpointIo, checkpoint_locked}
use ncloud.Replication.{Manager, Network}
use ncloud.Replication.Writes.{
  KvPutStatus, ok, quorum_unavailable, mismatch, error, replicated_put, replicated_cput,
  replicated_delete,
}
use ncloud.Protocol.{read_line, ok_response, ok_value_response, err_response}

-- `replicated` says that `repl` is not null. The tablet stands in its manager also without one.
pub record HostedTablet : Type 0 where
  pub name : Bytes
  pub row_start : Bytes
  pub row_end : Bytes
  pub replicated : Bool
  pub manager : Manager

unfoldable pub row_in_range : Bytes → Bytes → Bytes → Bool
row_in_range row first last =
    if not (bytes_eq first []) && below row first
    then false
    else if not (bytes_eq last []) && not (below row last)
    then false
    else true

-- What the environment gives a request: the network of the replicas, the log's answers to the write
-- and to its roll-back, the checkpoint of each tablet, the process number, and the page of `DUMP`.
pub record Env : Type 0 where
  pub net : Network
  pub log : Write
  pub undo_log : Write
  pub checkpoint : Bytes → CheckpointIo
  pub pid : ℕ
  pub dump : Bytes → List HostedTablet → Bytes

-- `find_hosted_for_row` and the handling by the tablet that is found, in its place.
unfoldable pub on_row :
    Bytes → (HostedTablet → Bytes × HostedTablet) → List HostedTablet → Bytes × List HostedTablet
unfolding row_in_range
on_row row f [] = (err_response (codes "row not hosted on this server"), [])
on_row row f (h ∷ hs) =
    let rest = on_row row f hs in
    if row_in_range row h.row_start h.row_end then ((f h).0, (f h).1 ∷ hs) else (rest.0, h ∷ rest.1)

-- The answer to a replicated write, with the text for all other failures.
status_response : Bytes → KvPutStatus × Manager → HostedTablet → Bytes × HostedTablet
status_response text (ok, m) h = (ok_response, record h { manager = m })
status_response text (quorum_unavailable, m) h =
    (err_response (codes "no quorum"), record h { manager = m })
status_response text (mismatch, m) h = (err_response text, record h { manager = m })
status_response text (error, m) h = (err_response text, record h { manager = m })

unfoldable pub local_response : Bytes → Outcome × Tablet → HostedTablet → Bytes × HostedTablet
local_response text (o, t) h = (
  (if o.ok then ok_response else err_response text),
  record h { manager = record h.manager { tablet = t } },
)

unfoldable pub put_row : Env → Bytes → Bytes → Bytes → HostedTablet → Bytes × HostedTablet
unfolding status_response local_response
put_row env row col val h =
    if h.replicated
    then status_response (codes "PUT failed")
        (replicated_put env.net env.log env.undo_log row col val h.manager) h
    else local_response (codes "PUT failed") (put env.log row col val h.manager.tablet) h

unfoldable pub get_response : Option Bytes × Tablet → HostedTablet → Bytes × HostedTablet
get_response (none, t) h =
    (err_response (codes "not found"), record h { manager = record h.manager { tablet = t } })
get_response (some val, t) h =
    (ok_value_response val, record h { manager = record h.manager { tablet = t } })

unfoldable pub get_row : Bytes → Bytes → HostedTablet → Bytes × HostedTablet
unfolding get_response
get_row row col h = get_response (get row col h.manager.tablet) h

unfoldable pub cput_row : Env → Bytes → Bytes → Bytes → Bytes → HostedTablet → Bytes × HostedTablet
unfolding status_response local_response
cput_row env row col v1 v2 h =
    if h.replicated
    then status_response (codes "value mismatch")
        (replicated_cput env.net env.log env.undo_log row col v1 v2 h.manager) h
    else local_response (codes "value mismatch") (cput env.log row col v1 v2 h.manager.tablet) h

unfoldable pub delete_row : Env → Bytes → Bytes → HostedTablet → Bytes × HostedTablet
unfolding status_response local_response
delete_row env row col h =
    if h.replicated
    then status_response (codes "DELETE failed")
        (replicated_delete env.net env.log env.undo_log row col h.manager) h
    else local_response (codes "DELETE failed") (del env.log row col h.manager.tablet) h

-- What a request ends with: the connection is closed, or there is an answer, with what is still
-- unread and the tablets as they are then.
pub data Served : Type 0 where
  closed : Served
  answered : Bytes → Bytes → List HostedTablet → Served

answer : Bytes → Bytes × List HostedTablet → Served
answer rest (out, hs) = answered out rest hs

-- The parts of a payload, one behind the other.
read_two : ℕ → ℕ → Bytes → Option (Bytes × Bytes × Bytes)
read_two a b s = do (x, s₁) ← read_exact a s; (y, s₂) ← read_exact b s₁; some (x, y, s₂)

read_three : ℕ → ℕ → ℕ → Bytes → Option (Bytes × Bytes × Bytes × Bytes)
read_three a b c s = do
  (x, s₁) ← read_exact a s
  (y, s₂) ← read_exact b s₁
  (z, s₃) ← read_exact c s₂
  some (x, y, z, s₃)

read_four : ℕ → ℕ → ℕ → ℕ → Bytes → Option (Bytes × Bytes × Bytes × Bytes × Bytes)
read_four a b c d s = do
  (x, s₁) ← read_exact a s
  (y, s₂) ← read_exact b s₁
  (z, s₃) ← read_exact c s₂
  (t, s₄) ← read_exact d s₃
  some (x, y, z, t, s₄)

-- The payload of the lengths in the header; `none` for the lengths is a malformed header.
put_fields : Env → Option (ℕ × ℕ × ℕ) → Bytes → List HostedTablet → Served
unfolding answer read_three
put_fields env none s hs = answered (err_response (codes "malformed PUT header")) s hs
put_fields env (some (rowlen, collen, vallen)) s hs = elim (read_three rowlen collen vallen s) [
  | none ↦ closed
  | some (row, col, val, rest) ↦ answer rest (on_row row (put_row env row col val) hs)
]

three_lengths : Bytes → Option (ℕ × ℕ × ℕ)
three_lengths args = do
  (a, s₁) ← read_unsigned (2 ^ 32) args
  (b, s₂) ← read_unsigned (2 ^ 32) s₁
  (c, s₃) ← read_unsigned (2 ^ 32) s₂
  some (a, b, c)

two_lengths : Bytes → Option (ℕ × ℕ)
two_lengths args = do
  (a, s₁) ← read_unsigned (2 ^ 32) args
  (b, s₂) ← read_unsigned (2 ^ 32) s₁
  some (a, b)

four_lengths : Bytes → Option (ℕ × ℕ × ℕ × ℕ)
four_lengths args = do
  (a, s₁) ← read_unsigned (2 ^ 32) args
  (b, s₂) ← read_unsigned (2 ^ 32) s₁
  (c, s₃) ← read_unsigned (2 ^ 32) s₂
  (d, s₄) ← read_unsigned (2 ^ 32) s₃
  some (a, b, c, d)

-- A request with a row and a column: GET and DELETE.
pair_fields :
    Bytes
    → (Bytes → Bytes → HostedTablet → Bytes × HostedTablet)
    → Option (ℕ × ℕ)
    → Bytes
    → List HostedTablet
    → Served
unfolding answer read_two
pair_fields text f none s hs = answered (err_response text) s hs
pair_fields text f (some (rowlen, collen)) s hs = elim (read_two rowlen collen s) [
  | none ↦ closed
  | some (row, col, rest) ↦ answer rest (on_row row (f row col) hs)
]

cput_fields : Env → Option (ℕ × ℕ × ℕ × ℕ) → Bytes → List HostedTablet → Served
unfolding answer read_four
cput_fields env none s hs = answered (err_response (codes "malformed CPUT header")) s hs
cput_fields env (some (rowlen, collen, v1len, v2len)) s hs =
    elim (read_four rowlen collen v1len v2len s) [
      | none ↦ closed
      | some (row, col, v1, v2, rest) ↦ answer rest (on_row row (cput_row env row col v1 v2) hs)
    ]

max_lsn : List HostedTablet → ℕ
max_lsn [] = 0
max_lsn (h ∷ hs) = max h.manager.tablet.lsn (max_lsn hs)

tablet_lsns : Bytes → List HostedTablet → Bytes
tablet_lsns so_far [] = so_far
tablet_lsns so_far (h ∷ hs) =
    let comma : Bytes = if bytes_eq so_far [] then [] else codes "," in
    tablet_lsns (so_far ++ (comma ++ (h.name ++ (codes ":" ++ to_string h.manager.tablet.lsn)))) hs

unfoldable pub ping_response : ℕ → List HostedTablet → Bytes
unfolding max_lsn tablet_lsns
ping_response pid hs =
    codes "+OK LSN="
    ++ (to_string (max_lsn hs)
        ++ (codes " PID="
            ++ (to_string pid
                ++ (codes " TABLETS="
                    ++ (to_string (length hs)
                        ++ (codes " TABLET_LSNS=" ++ (tablet_lsns [] hs ++ codes "\r\n")))))))

total_rows : List HostedTablet → ℕ
total_rows [] = 0
total_rows (h ∷ hs) = length h.manager.tablet.rows + total_rows hs

total_ops : List HostedTablet → ℕ
total_ops [] = 0
total_ops (h ∷ hs) = (h.manager.tablet.op_count + total_ops hs) % 2 ^ 64

stats_response : List HostedTablet → Bytes
unfolding max_lsn total_rows total_ops
stats_response hs =
    let body : Bytes =
      codes "rows="
      ++ (to_string (total_rows hs)
          ++ (codes " ops="
              ++ (to_string (total_ops hs)
                  ++ (codes " lsn="
                      ++ (to_string (max_lsn hs)
                          ++ (codes " tablets=" ++ (to_string (length hs) ++ codes "\r\n"))))))) in
    codes "+OK " ++ (to_string (length body) ++ (codes "\r\n" ++ body))

checkpoint_one : Env → HostedTablet → Bool × HostedTablet
checkpoint_one env h =
    let r = checkpoint_locked (env.checkpoint h.name) h.manager.tablet in
    (r.0, record h { manager = record h.manager { tablet = r.1 } })

-- Every tablet is checkpointed, whatever became of those before it.
unfoldable pub checkpoint_all : Env → List HostedTablet → Bool × List HostedTablet
unfolding checkpoint_one
checkpoint_all env [] = (true, [])
checkpoint_all env (h ∷ hs) =
    let here = checkpoint_one env h in
    let rest = checkpoint_all env hs in (here.0 && rest.0, here.1 ∷ rest.1)

checkpointed : Bytes → Bool × List HostedTablet → Served
checkpointed s (true, hs) = answered ok_response s hs
checkpointed s (false, hs) = answered (err_response (codes "checkpoint failed")) s hs

-- The operation of a line with its arguments.
pub dispatch : Env → Bytes → Bytes → Bytes → List HostedTablet → Served
unfolding put_fields pair_fields cput_fields checkpointed three_lengths two_lengths four_lengths
    stats_response
dispatch env op args s hs =
    if bytes_eq op (codes "PUT")
    then put_fields env (three_lengths args) s hs
    else if bytes_eq op (codes "GET")
    then pair_fields (codes "malformed GET header") get_row (two_lengths args) s hs
    else if bytes_eq op (codes "CPUT")
    then cput_fields env (four_lengths args) s hs
    else if bytes_eq op (codes "DELETE")
    then pair_fields (codes "malformed DELETE header") (delete_row env) (two_lengths args) s hs
    else if bytes_eq op (codes "PING")
    then answered (ping_response env.pid hs) s hs
    else if bytes_eq op (codes "STATS")
    then answered (stats_response hs) s hs
    else if bytes_eq op (codes "DUMP")
    then answered (env.dump args hs) s hs
    else if bytes_eq op (codes "CHECKPOINT")
    then checkpointed s (checkpoint_all env hs)
    else answered (err_response (codes "unknown op: " ++ op)) s hs

on_line : Env → Bytes → Bytes → List HostedTablet → Served
unfolding dispatch
on_line env [] s hs = answered [] s hs
on_line env (c ∷ line) s hs = dispatch env (read_word (c ∷ line)).0 (read_word (c ∷ line)).1 s hs

unfoldable pub handle_request : Env → Bytes → List HostedTablet → Served
unfolding on_line
handle_request env s hs = elim (read_line s) [
  | none ↦ closed
  | some (line, rest) ↦ on_line env line rest hs
]
