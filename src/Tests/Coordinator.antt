-- ===== src/Tests/Coordinator.antt =====
-- The failure detector of coordinator/src/coordinator.cc, at concrete inputs.
use ncloud.Common.{◌≡◌, refl, some, none, [], ◌∷◌, true, false, codes, arith, length}
use ncloud.Common.Search.{starts_with}
use ncloud.Coordinator.{StorageNode, unknown, Numbers, no_connection, no_line, line}
use ncloud.Coordinator.Detector.{IsWatched, ping_all, ping_all-Unanswered}

abbrev num : Numbers
num = record { stoull = λ text. some (length text); stoi = λ text. none }

abbrev node : StorageNode
node = record {
  id = codes "node1";
  host = codes "127.0.0.1";
  port = 5000;
  repl_port = 5100;
  role = unknown;
  alive = true;
  was_down = false;
  lsn = 0;
  tablet_lsns = [];
  process_id = 0;
  missed = 0;
}

node-IsWatched : IsWatched 3 node
node-IsWatched = record { down = refl; misses = omega arith }

abbrev lost : StorageNode
lost = ping_all num 3 (no_connection ∷ no_line ∷ line (codes "-ERR") ∷ []) node

ping_all-Unanswered_example : lost.alive ≡ false
unfolding starts_with
ping_all-Unanswered_example =
    (ping_all-Unanswered num 3 (no_connection ∷ no_line ∷ line (codes "-ERR") ∷ []) node
      (tt, (tt, (refl, tt))) node-IsWatched).0
