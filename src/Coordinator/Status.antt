-- ===== src/Coordinator/Status.antt =====
-- coordinator/src/coordinator.cc: the texts of `handle_status` and `handle_tablets`. Its strings are
-- escaped as those of the frontend are.
use ncloud.Common.{
  Option, none, some, List, [], ◌∷◌, ◌++◌, map, length, Bytes, codes, Bool, if◌then◌else◌,
}
use ncloud.Common.Decimal.{to_string}
use ncloud.Common.Dict.{Dict, lookup}
use ncloud.Http.Message.{json_str}
use ncloud.Coordinator.{NodeRole, primary, secondary, unknown, StorageNode, TabletGroup}

comma_separated : List Bytes → Bytes
comma_separated [] = []
comma_separated (s ∷ []) = s
comma_separated (s ∷ t ∷ ss) = s ++ (codes "," ++ comma_separated (t ∷ ss))

role_name : NodeRole → Bytes
role_name primary = codes "primary"
role_name secondary = codes "secondary"
role_name unknown = codes "unknown"

boolean_name : Bool → Bytes
boolean_name b = if b then codes "true" else codes "false"

-- The fields that both texts give of a node.
node_fields : Bytes → StorageNode → NodeRole → Bytes
unfolding role_name boolean_name
node_fields id n role =
    codes "{\"id\":"
    ++ (json_str id
        ++ (codes ",\"host\":"
            ++ (json_str n.host
                ++ (codes ",\"port\":"
                    ++ (to_string n.port
                        ++ (codes ",\"repl_port\":"
                            ++ (to_string n.repl_port
                                ++ (codes ",\"alive\":"
                                    ++ (boolean_name n.alive
                                        ++ (codes ",\"role\":\""
                                            ++ (role_name role ++ codes "\"")))))))))))

status_entry : Bytes × StorageNode → Bytes
unfolding node_fields
status_entry (id, n) =
    node_fields id n n.role
    ++ (codes ",\"lsn\":"
        ++ (to_string n.lsn ++ (codes ",\"missed\":" ++ (to_string n.missed ++ codes "}"))))

known_replica : NodeRole → Option StorageNode → List Bytes
unfolding node_fields
known_replica role none = []
known_replica role (some n) = (node_fields n.id n role ++ codes "}") ∷ []

-- The first node is the primary whatever role is known of it.
replica_entries : NodeRole → Dict StorageNode → List Bytes → List Bytes
unfolding known_replica
replica_entries role nodes [] = []
replica_entries role nodes (id ∷ ids) =
    known_replica role (lookup id nodes) ++ replica_entries secondary nodes ids

tablet_entry : Dict StorageNode → TabletGroup → Bytes
unfolding comma_separated replica_entries
tablet_entry nodes tg =
    codes "{\"name\":"
    ++ (json_str tg.name
        ++ (codes ",\"row_start\":"
            ++ (json_str tg.row_start
                ++ (codes ",\"row_end\":"
                    ++ (json_str tg.row_end
                        ++ (codes ",\"replicas\":["
                            ++ (comma_separated (replica_entries primary nodes tg.node_ids)
                                ++ codes "]}")))))))

-- A body behind the line with its size.
sized : Bytes → Bytes
sized body = codes "+OK " ++ (to_string (length body) ++ (codes "\r\n" ++ body))

array : List Bytes → Bytes
unfolding comma_separated
array entries = codes "[" ++ (comma_separated entries ++ codes "]")

unfoldable pub handle_status : Dict StorageNode → Bytes
unfolding status_entry sized array
handle_status nodes = sized (array (map status_entry nodes))

unfoldable pub handle_tablets : Dict StorageNode → List TabletGroup → Bytes
unfolding tablet_entry sized array
handle_tablets nodes tablets = sized (array (map (tablet_entry nodes) tablets))
