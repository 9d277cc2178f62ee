-- ===== src/Tests/Server.antt =====
-- The protocol and the storage node of kvstore/src, at concrete inputs.
use ncloud.Common.{
  ◌≡◌, refl, none, [], ◌∷◌, ◌++◌, List, Bytes, Bool, true, false, codes, arith, bytes_eq,
}
use ncloud.Common.Order.{below}
use ncloud.Tablet.{whole, put, open_tablet}
use ncloud.Tablet.History.{fresh, fresh-IsIndexed}
use ncloud.Tablet.Checkpoint.{done}
use ncloud.Replication.{Network, make_repl_put}
use ncloud.Protocol.{read_response, ok_response, ok_value_response, send_put, send_get}
use ncloud.Protocol.Responses.{read_response_lem}
use ncloud.Server.{Env, HostedTablet, answered, handle_request, on_row, put_row, get_row}
use ncloud.Server.Wire.{handle_request_lem}
use ncloud.Server.ReadBack.{put_then_get}
use ncloud.Server.Control.{ControlEnv, handle_command, finish, on_tablet, replicate_put, reaches}
use ncloud.Server.Control.Replicate.{handle_command-make_repl_put}

abbrev row : Bytes
row = codes "carol"

abbrev col : Bytes
col = codes "files"

abbrev val : Bytes
val = codes "a.txt"

abbrev silent : Network
silent msg r = record {
  first = record {
    connect = false;
    sent = false;
    reconnect = false;
    sent_again = false;
    ack = none;
    stoull = λ text. none;
  };
  repair = record { connect = false; sent = false; resp = none };
  second = record {
    connect = false;
    sent = false;
    reconnect = false;
    sent_again = false;
    ack = none;
    stoull = λ text. none;
  };
}

abbrev pub env : Env
env = record {
  net = silent;
  log = whole;
  undo_log = whole;
  checkpoint = λ name. done;
  pid = 42;
  dump = λ args hs. [];
}

abbrev pub hosted : Bool → HostedTablet
hosted with_replication = record {
  name = codes "a-m";
  row_start = codes "a";
  row_end = codes "n";
  replicated = with_replication;
  manager = record {
    tablet = fresh;
    tablet_name = codes "a-m";
    replicas = [];
    running = true;
    is_primary = true;
    last_repl_lsn = 0;
  };
}

abbrev node : List HostedTablet
node = hosted false ∷ []

abbrev after_put : List HostedTablet
after_put = (on_row row (put_row env row col val) node).1

put_answer :
    handle_request env (send_put row col val ++ []) node ≡ answered ok_response [] after_put
unfolding put_row on_row put bytes_eq below open_tablet
put_answer =
    (handle_request_lem env row col val [] [] node (omega arith) (omega arith) (omega arith)
      (omega arith)).0

handle_request_lem_example :
    handle_request env (send_get row col ++ codes "PING") node
    ≡ answered
        (on_row row (get_row row col) node).0
        (codes "PING")
        (on_row row (get_row row col) node).1
handle_request_lem_example =
    (handle_request_lem env row col val [] (codes "PING") node (omega arith) (omega arith)
      (omega arith) (omega arith)).1

put_then_get_example :
    handle_request env (send_get row col ++ []) after_put
    ≡ answered (ok_value_response val) [] (on_row row (get_row row col) after_put).1
put_then_get_example =
    put_then_get env env row col val [] [] node after_put (omega arith) (omega arith) (omega arith)
      refl (fresh-IsIndexed, tt) put_answer

read_response_lem_example :
    read_response (ok_value_response val ++ codes "more")
    ≡ (record { ok = true; value = val; error = [] }, codes "more")
read_response_lem_example =
    (read_response_lem val (codes "not found") (codes "more") (omega arith)
      (refl, (refl, (refl, (refl, (refl, (refl, (refl, (refl, (refl, tt))))))))) (omega arith)).0

abbrev pub control : ControlEnv
control = record {
  log = whole;
  delta_log = λ n. whole;
  checkpoint = done;
  ask = λ host port version lsn. none;
}

handle_command-make_repl_put_example :
    handle_command control (make_repl_put (codes "a-m") 1 row col val ++ []) (hosted true ∷ [])
    ≡ finish [] (on_tablet (codes "a-m") (replicate_put control 1 row col val) (hosted true ∷ []))
unfolding reaches bytes_eq
handle_command-make_repl_put_example =
    handle_command-make_repl_put control b'a' (codes "-m") row col val [] 1 (hosted true ∷ [])
      (refl, (refl, (refl, tt))) (omega arith) (omega arith) (omega arith) (omega arith)
      (omega arith) refl
