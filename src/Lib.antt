-- ===== src/Lib.antt =====
-- NCloud's replicated key-value store: a model of its C++ sources with theorems on it.
--
-- NCloud is a set of services over a sharded key-value store: storage nodes that host replicated
-- tablets (kvstore/src), a coordinator that assigns rows to tablets and elects their primaries
-- (coordinator/src), frontends (frontend/src) behind a load balancer (frontend_lb/src), and an SMTP
-- server (smtp_server/src). All durable state is in the tablets, so the development begins there.
--
-- Files, and the code that they model:
-- - Common: numbers, tests, lists, byte strings, and `std::unordered_map` as an association list.
--   The order in which such a map is walked is not fixed by the standard; a new key comes last here.
-- - Codec: the little-endian integers and counted byte runs of kvstore/src/tablet.cc. A stream is
--   the list of its unread bytes.
-- - Bloom: kvstore/src/bloom.h. Bloom/Table has facts on single bytes, Bloom/Laws the filter's
--   answers, Bloom/File its image in a checkpoint.
-- - Wal: one entry of the write-ahead log; Wal/Torn, entries that are cut short.
-- - Rows, Image: the table in memory and its byte image.
-- - Tablet: kvstore/src/tablet.h and tablet.cc. Tablet has the state and the calls, and its
--   children: Checkpoint and Replay the files; Cells, Calls and Refine what a client sees; Durable,
--   Logging, Writes and Restart what the files hold; Replica the writes of a secondary; History
--   any sequence of calls and crashes.
-- - Tablet/Delta: kvstore/src/tablet.cc, the log's entries behind an LSN as a blob, and its use.
-- - Replication: kvstore/src/replication.h, the manager and its replicas. A message and a replica
--   give what the network does with it (`Network`): connections, the line read back, and the same
--   of the repair and of the second try. Replication/Writes has the primary's three writes with
--   their roll-back and the two of the replica, Replication/Sync the synchronisation. Log text and socket
--   time-outs are left out, and so is the header line of a response, which gives the size of its blob.
-- - Coordinator: coordinator/src/coordinator.cc, the storage nodes, the reading of a ping's reply and
--   the failure detector `ping_node`, with `find_tablet` and the known LSNs. The count of misses is
--   not bounded. Coordinator/Network has the state, with the commands that were sent, and the calls of
--   the nodes: the network gives each call its own answer. Coordinator/Lookup is `handle_lookup`,
--   Coordinator/Election the plans of `handle_node_failure`, Coordinator/Failover their execution and
--   Coordinator/Recovery `handle_node_recovery`; other threads do not run in between.
--   Coordinator/Config is the configuration file, and Coordinator/Initial the first roles, with eight
--   rounds and twenty waits for a port as in the source. Coordinator/Heartbeat is one round of
--   `heartbeat_loop`, Coordinator/Wire `handle_client`, whose fuel is the bytes that are read, and
--   Coordinator/Status its two texts. Sockets and the loops of the threads are left out.
-- - LoadBalancer: frontend_lb/src/load_balancer.cc, the list of frontends, the health check with the
--   connections as an argument, the choice and the answer to a client. A word of a line takes at
--   least one byte, and the head of a request is read byte by byte, so its length is the fuel.
-- - Sha256, Pbkdf2, Password: frontend/src/password.h, the digest with its buffer and its count of
--   bits, HMAC and PBKDF2 over it, and the stored credentials. A 32-bit word wraps at 2 ^ 32. The
--   padding has 64 steps as fuel, which fill any buffer, and the derived key one step for each byte.
--   The salt is an argument of `hash_password`, with `none` where it cannot be read.
-- - Protocol: kvstore/src/protocol.h, the line reader, the requests as a client writes them and the
--   responses both ways. A socket is the bytes that are still unread, and a write reaches the peer.
-- - Server: kvstore/src/server.cc, `handle_request` over the tablets that a server hosts; the other
--   port, `handle_repl_connection`, is Server/Control. The page that answers DUMP is a parameter, and
--   threads, time-outs and the timed checkpoint are left out.
-- - Kv: the calls of frontend/src/kv_client.h that the frontend uses, as an interface with laws:
--   a write that is answered with success took place, one that failed may have. The store is the
--   first argument of everything built on it. Kv/Cloud is the program's own instance: KvClient with
--   its lookups and retries against the tablets of one storage node, Server, over a network that may
--   lose connections, requests and answers; no message has 2 ^ 32 bytes or more, and other clients do
--   not write in between. It says nothing of a read that reaches an old primary behind a failover.
--   Kv/Memory is a storage in memory, for tests. That every read is answered, `IsUp`, is a further
--   hypothesis where a theorem names it.
-- - Drive/Files: frontend/src/fe_server.cc, the bytes of a file in chunks of 1 MiB. The paths, quotas
--   and pages of the drive are not modelled.
-- - Session: frontend/src/session.h, the rows of a session, with rows that fail. The bytes of its
--   number and the time are arguments; the waits between reads are left out.
-- - Http: frontend/src/http.h and http_reader.h: Http/Text has forms, cookies and numbers,
--   Http/Chunked the chunked bodies, and Http/Message the records of requests and responses, how a
--   response is written, and `json_str` of frontend/src/fe_server.h. A body takes one step of fuel for
--   each of its bytes when it is written, and reading one for each byte of the stream: every chunk
--   has at least one. Http/Reader is `read_http_request`, and Http/Multipart `parse_multipart`, which
--   gives `none` where the source throws; each line and each part takes bytes, which is their fuel.
-- - Accounts: frontend/src/fe_server.cc, login, logout, session, sign-up and the change of a password.
-- - Csv: frontend/src/fe_server.cc, the lists of the chat and of folders: `append_csv_item_cas` with
--   its sixteen attempts and `remove_child` with its eight.
-- - KvClient: frontend/src/kv_client.h, the client behind the calls of Kv: the lookup of a row's node
--   at the coordinator, eight attempts of a write or read with a lookup before each further one, and
--   the answers. What is answered is the network's (`Network`); pools of connections are part of it,
--   and time-outs and waits are left out.
-- - Tests: runs at concrete inputs, and each theorem at an input that meets its hypotheses.
--
-- Conventions. A method that changes its object returns the new state. A call of `Tablet` runs under
-- `wal_mu_`, so it is one step. What the file system does is an argument: `Write` says whether an
-- entry reached the log whole or was torn and the stream failed, `CheckpointIo` how far a checkpoint
-- got. Counters of 64 bits wrap; sizes are cut to 32 bits where the source casts them. Loops over
-- bytes take as fuel the number of bytes, and every round takes some away. That memory is large
-- enough for the lengths that a file states is taken for granted.
--
-- Not modelled: sockets, threads and locks, logging to the console, signals and command lines, which
-- are the system's; the pages and handlers of the frontend that are not named above, which put stored
-- text into HTML; and the dialogues of frontend/src/smtp_client.h and smtp_server/src with other mail
-- servers, whose steps depend on what the peers and the DNS answer.
pub mod Common
pub mod Codec
pub mod Bloom
pub mod Wal
pub mod Rows
pub mod Image
pub mod Tablet
pub mod Accounts
pub mod Coordinator
pub mod Csv
pub mod Drive
pub mod Http
pub mod Kv
pub mod KvClient
pub mod LoadBalancer
pub mod Password
pub mod Pbkdf2
pub mod Protocol
pub mod Replication
pub mod Server
pub mod Session
pub mod Sha256
pub mod Tests
