-- ===== src/Tests/KvClient.antt =====
-- The retries of the frontend's client on a concrete network.
use ncloud.Common.{ℕ, suc, ◌+◌, ◌≤◌, ◌⊎◌, refl, none, some, codes, true, ◌==◌, if◌then◌else◌, arith}
use ncloud.Protocol.{send_put}
use ncloud.KvClient.{Network, KvClient, Op, request, status_reply, exec_row_write}
use ncloud.KvClient.Settled.{Settled, Unnamed, exec_row_write-Settled}
use ncloud.KvClient.Attempts.{IsCount, exec_row_write-sent}

-- The state counts the requests; the first is lost and the others are answered.
abbrev network : Network
network = record {
  State = ℕ;
  borrow = λ node n. (true, n);
  ask = λ node bytes n. ((if n == 0 then none else some (codes "+OK\r\n")), suc n);
  ask_coordinator = λ bytes n. (some (codes "+OK 127.0.0.1 5001 primary\r\n"), n);
}

abbrev client : KvClient
client = record {
  current = record { host = codes "127.0.0.1"; port = 5000 };
  coord_host = codes "127.0.0.1";
  coord_port = 4000;
  use_coordinator = true;
}

abbrev op : Op network
op = request network (send_put (codes "ann") (codes "pwd") (codes "secret")) status_reply

op-IsCount : IsCount network op
unfolding request
op-IsCount = record {
  sent = λ n. n;
  sent-op = λ node n. omega arith;
  sent-borrow = λ node n. omega arith;
  sent-ask_coordinator = λ bytes n. omega arith;
}

exec_row_write-Settled_example :
    Settled network (codes "ann") op (exec_row_write network (codes "ann") op client 0)
    ⊎ Unnamed network (codes "ann") op client 0 (exec_row_write network (codes "ann") op client 0)
exec_row_write-Settled_example = exec_row_write-Settled network (codes "ann") op client 0 refl

exec_row_write-sent_example :
    op-IsCount.sent (exec_row_write network (codes "ann") op client 0).2 ≤ op-IsCount.sent 0 + 8
exec_row_write-sent_example = exec_row_write-sent network (codes "ann") op op-IsCount client 0
