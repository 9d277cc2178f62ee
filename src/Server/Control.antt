-- ===== src/Server/Control.antt =====
-- kvstore/src/server.cc: `handle_repl_connection`, the commands of the coordinator and of the
-- primaries. `ss` is the stream over the command's line, `none` once it has failed.
pub mod Replicate
pub mod Promote
use ncloud.Common.{
  ℕ, ◌+◌, ◌^◌, Option, none, some, List, [], ◌∷◌, ◌++◌, Bytes, codes, bytes_eq, length, Bool, true,
  false, ltb, ◌==◌, ◌||◌, if◌then◌else◌, ◌>>=◌,
}
use ncloud.Common.Decimal.{to_string, extract, extract_word, extract_positive}
use ncloud.Codec.{read_exact}
use ncloud.Tablet.{Write}
use ncloud.Tablet.Checkpoint.{CheckpointIo}
use ncloud.Replication.{Manager, promote_to_primary, clear_replicas, add_replica}
use ncloud.Replication.Writes.{apply_replicate_put, apply_replicate_delete}
use ncloud.Replication.Sync.{
  Kind, delta, snapshot, other, build_sync_response, become_secondary_and_sync,
}
use ncloud.Protocol.{read_line, ok_response}
use ncloud.Server.{HostedTablet, read_two, read_three}

-- What the environment gives a command: the log's answers, the checkpoint of a snapshot, and the
-- answers of a primary at a host and port.
pub record ControlEnv : Type 0 where
  pub log : Write
  pub delta_log : ℕ → Write
  pub checkpoint : CheckpointIo
  pub ask : Bytes → ℕ → ℕ → ℕ → Option (Kind × Bytes)

-- How a command ends: the handler returns, after an answer or without one, or it goes on to what is
-- still unread.
pub data Control : Type 0 where
  hung_up : Bytes → List HostedTablet → Control
  went_on : Bytes → Bytes → List HostedTablet → Control

abbrev pub not_hosted : Bytes
not_hosted = codes "-ERR tablet not hosted\r\n"

-- An answer and whether the handler goes on.
abbrev pub Reply : Type 0
Reply = Bool × Bytes

guarded : (HostedTablet → Reply × HostedTablet) → HostedTablet → Reply × HostedTablet
guarded f h = if h.replicated then f h else ((true, not_hosted), h)

-- The tablet of that name, or else the only one.
on_name :
    Bytes
    → (HostedTablet → Reply × HostedTablet)
    → List HostedTablet
    → Option (Reply × List HostedTablet)
unfolding guarded
on_name name f [] = none
on_name name f (h ∷ hs) =
    let rest = on_name name f hs in
    if bytes_eq h.name name
    then some ((guarded f h).0, (guarded f h).1 ∷ hs)
    else (rest >>= λ (r : Reply × List HostedTablet). some (r.0, h ∷ r.1))

on_sole : (HostedTablet → Reply × HostedTablet) → List HostedTablet → Reply × List HostedTablet
unfolding guarded
on_sole f [] = ((true, not_hosted), [])
on_sole f (h ∷ []) = ((guarded f h).0, (guarded f h).1 ∷ [])
on_sole f (h ∷ g ∷ hs) = ((true, not_hosted), h ∷ g ∷ hs)

unfoldable pub on_tablet :
    Bytes → (HostedTablet → Reply × HostedTablet) → List HostedTablet → Reply × List HostedTablet
unfolding on_name on_sole
on_tablet name f hs = elim (on_name name f hs) [ none ↦ on_sole f hs | some r ↦ r ]

unfoldable pub finish : Bytes → Reply × List HostedTablet → Control
finish rest ((true, out), hs) = went_on out rest hs
finish rest ((false, out), hs) = hung_up out hs

lsn_reply : Bytes → Bool × Manager → HostedTablet → Reply × HostedTablet
lsn_reply text (true, m) h =
    ((true, codes "+OK LSN=" ++ (to_string m.tablet.lsn ++ codes "\r\n")), record h { manager = m })
lsn_reply text (false, m) h = ((false, text), record h { manager = m })

pub replicate_put : ControlEnv → ℕ → Bytes → Bytes → Bytes → HostedTablet → Reply × HostedTablet
unfolding lsn_reply
replicate_put env lsn row col val h =
    lsn_reply (codes "-ERR replicate put failed\r\n")
      (apply_replicate_put env.log lsn row col val h.manager) h

replicate_delete : ControlEnv → ℕ → Bytes → Bytes → HostedTablet → Reply × HostedTablet
unfolding lsn_reply
replicate_delete env lsn row col h =
    lsn_reply (codes "-ERR replicate delete failed\r\n")
      (apply_replicate_delete env.log lsn row col h.manager) h

-- Whether a command reaches a tablet with a manager: only then is its payload read.
unfoldable pub reaches : Bytes → List HostedTablet → Bool
unfolding on_tablet
reaches name hs =
    let probe = on_tablet name (λ h. ((false, []), h)) hs in if probe.0.0 then false else true

put_payload :
    ControlEnv → Bytes → ℕ → Option (Bytes × Bytes × Bytes × Bytes) → List HostedTablet → Control
unfolding finish replicate_put
put_payload env name lsn none hs = hung_up [] hs
put_payload env name lsn (some (row, col, val, rest)) hs =
    finish rest (on_tablet name (replicate_put env lsn row col val) hs)

delete_payload :
    ControlEnv → Bytes → ℕ → Option (Bytes × Bytes × Bytes) → List HostedTablet → Control
unfolding finish replicate_delete
delete_payload env name lsn none hs = hung_up [] hs
delete_payload env name lsn (some (row, col, rest)) hs =
    finish rest (on_tablet name (replicate_delete env lsn row col) hs)

put_args : ControlEnv → Bytes → ℕ → Option Bytes → Bytes → List HostedTablet → Control
unfolding put_payload read_three
put_args env name lsn ss s hs =
    let (rlen, ss₁) = extract (2 ^ 32) ss in
    let (clen, ss₂) = extract (2 ^ 32) ss₁ in
    let (vlen, ss₃) = extract (2 ^ 32) ss₂ in
    put_payload env name lsn (read_three rlen clen vlen s) hs

delete_args : ControlEnv → Bytes → ℕ → Option Bytes → Bytes → List HostedTablet → Control
unfolding delete_payload read_two
delete_args env name lsn ss s hs =
    let (rlen, ss₁) = extract (2 ^ 32) ss in
    let (clen, ss₂) = extract (2 ^ 32) ss₁ in delete_payload env name lsn (read_two rlen clen s) hs

replicate_op : ControlEnv → Bytes → ℕ → Bytes → Option Bytes → Bytes → List HostedTablet → Control
unfolding put_args delete_args reaches
replicate_op env name lsn op ss s hs =
    if reaches name hs
    then if bytes_eq op (codes "PUT")
      then put_args env name lsn ss s hs
      else if bytes_eq op (codes "DELETE")
      then delete_args env name lsn ss s hs
      else went_on (codes "-ERR unknown replicate op\r\n") s hs
    else went_on not_hosted s hs

replicate : ControlEnv → Bytes × Option Bytes → Bytes → List HostedTablet → Control
unfolding replicate_op
replicate env ([], ss) s hs = went_on (codes "-ERR missing tablet\r\n") s hs
replicate env (c ∷ name, ss) s hs =
    let (lsn, ss₁) = extract (2 ^ 64) ss in
    let (op, ss₂) = extract_word ss₁ in replicate_op env (c ∷ name) lsn op ss₂ s hs

-- The header line of a synchronisation and its blob.
unfoldable pub sync_bytes : Kind × Bytes → Bytes
sync_bytes (delta, blob) = codes "+DELTA " ++ (to_string (length blob) ++ (codes "\r\n" ++ blob))
sync_bytes (snapshot, blob) =
    codes "+SNAPSHOT " ++ (to_string (length blob) ++ (codes "\r\n" ++ blob))
sync_bytes (other, blob) = blob

sync_from : ℕ → ℕ → HostedTablet → Reply × HostedTablet
unfolding sync_bytes
sync_from version lsn h = ((true, sync_bytes (build_sync_response version lsn h.manager.tablet)), h)

pub become_primary : HostedTablet → Reply × HostedTablet
become_primary h =
    ((true, ok_response), record h { manager = promote_to_primary (clear_replicas h.manager) })

secondary_reply : Bool × Manager → HostedTablet → Reply × HostedTablet
secondary_reply (true, m) h = ((true, ok_response), record h { manager = m })
secondary_reply (false, m) h = ((true, codes "-ERR sync failed\r\n"), record h { manager = m })

become_secondary : ControlEnv → Bytes → ℕ → HostedTablet → Reply × HostedTablet
unfolding secondary_reply
become_secondary env host port h =
    secondary_reply
      (become_secondary_and_sync env.delta_log env.checkpoint (env.ask host port) host port
        h.manager)
      h

add_replica_command : Bytes → Bytes → ℕ → HostedTablet → Reply × HostedTablet
add_replica_command id host port h =
    if bytes_eq id [] || bytes_eq host [] || port == 0
    then ((true, codes "-ERR malformed ADD_REPLICA\r\n"), h)
    else ((true, ok_response), record h { manager = add_replica id host port h.manager })

-- One command: its words are taken from `ss`, its payload from `s`.
unfoldable pub command : ControlEnv → Bytes → Option Bytes → Bytes → List HostedTablet → Control
unfolding replicate finish sync_from become_primary become_secondary add_replica_command
command env cmd ss s hs =
    let (name, ss₁) = extract_word ss in
    if bytes_eq cmd (codes "REPLICATE")
    then replicate env (name, ss₁) s hs
    else if bytes_eq cmd (codes "SYNC_FROM")
    then finish s (
        on_tablet name
          (sync_from (extract (2 ^ 64) ss₁).0 (extract (2 ^ 64) (extract (2 ^ 64) ss₁).1).0) hs)
    else if bytes_eq cmd (codes "BECOME_PRIMARY")
    then finish s (on_tablet name become_primary hs)
    else if bytes_eq cmd (codes "BECOME_SECONDARY")
    then finish s (
        on_tablet name
          (become_secondary env (extract_word ss₁).0 (extract_positive (extract_word ss₁).1)) hs)
    else if bytes_eq cmd (codes "ADD_REPLICA")
    then finish s (
        on_tablet name
          (add_replica_command (extract_word ss₁).0 (extract_word (extract_word ss₁).1).0
            (extract_positive (extract_word (extract_word ss₁).1).1))
          hs)
    else went_on (codes "-ERR unknown replication command\r\n") s hs

pub command_line : ControlEnv → Bytes → Bytes → List HostedTablet → Control
command_line env [] s hs = went_on [] s hs
command_line env (c ∷ line) s hs =
    let (cmd, ss) = extract_word (some (c ∷ line)) in command env cmd ss s hs

-- One round of the loop of `handle_repl_connection`.
unfoldable pub handle_command : ControlEnv → Bytes → List HostedTablet → Control
unfolding command_line
handle_command env s hs = elim (read_line s) [
  | none ↦ hung_up [] hs
  | some (line, rest) ↦ command_line env line rest hs
]
