-- ===== src/Lib.antt =====
-- Verification library of stealthpipe-relay, a relay that connects the players of a game to its
-- host over websockets.
--
-- The program. A host creates a room (`/create`), which costs a proof of work, and joins it
-- (`/join`) over a signal connection. A client that joins is announced to the host by a request,
-- which the host answers with a host connection; the relay links the two and forwards binary
-- messages between them. Signal connections of clients carry the messages by which host and
-- client agree on a direct connection. Loops in the background clean rooms, salts and close
-- reasons, adapt the difficulty of the work, and watch the health of the process. All parts share
-- one `ServerData`.
--
-- The files, with the code they model:
--   Types.antt, Types/Reasons.antt    src/core/Types.go, WebsocketConnectionCloseReasons.go and
--                                     ConnectionClose.go: `Server` is `ServerData`, `Room` is `Room`
--   Cleanup.antt                      src/core/ConnectionsCleanup.go: `handle_cleanup`
--   Tasks.antt                        src/core/CleanTasks.go: a tick of each of its three loops
--   Monitor.antt                      src/core/TrafficMonitoring.go, StatsPPS.go and
--                                     InstanceHealthHandler.go: a tick of each loop
--   Numbers.antt                      the decimal numbers that strconv and fmt print and parse
--   ProofOfWork.antt, Tokens.antt     src/core/ProofOfWork.go: `is_proof_of_work_valid`, `is_replay`,
--     below it                        `generate_proof_of_work`, `clean_used_salts`
--   ReuseTokens.antt                  src/core/ReuseTokens.go
--   Bench/Solver.antt                 benchmark/src/sec/ProofOfWork.go (copy: src/tests/ProofOfWork.go)
--   Bench/Rooms.antt, Dialing.antt,   benchmark/src: the load generator, its rooms, the queries it dials,
--     Loops.antt and Tokens.antt        its loops, and the decoding of tokens
--   Create.antt                       src/core/RoomCreation.go and Utils.go: `handle_create_path`
--   Join.antt                         src/core/ConnectionsCreate.go and CoreFuncs.go: `handle_relay`
--   ClientRelay.antt, Wait.antt and   src/core/ConnectionsClientToRelay.go: `client_relay_handler`,
--     Forward.antt below it           `wait_for_host`, `client_loop`
--   HostRelay.antt                    src/core/ConnectionsHostToRelay.go: `host_relay_handler`
--   Signal.antt, Signal/Loops.antt    src/core/ConnectionsSignalFromHost.go,
--                                     ConnectionsSignalFromClient.go and SignalMessagingTypes.go
--   Endpoints.antt                    src/core/ServerEndpoints.go and RequestLogger.go
--   Serve.antt                        src/core/Serve.go and src/Main.go: loops, routes and the port
--   Pairing.antt                      the maps of a room, across the handlers that write them
--   Lifecycle.antt                    rooms and servers as steps: any sequence of critical sections;
--                                     Lifecycle/Registry.antt is what they promise, a map from codes
--                                     to rooms, and Lifecycle/View.antt what a state stands for
--   Locks.antt                        the mutexes of src/core: each critical section as the actions of
--                                     a goroutine, in Locks/Sections.antt, and goroutines that go
--                                     through them, in Locks/Threads.antt
--   Dict.antt, Prelude.antt           Go maps as association lists, texts as bytes, shared helpers
--   Examples.antt                     concrete runs
-- The files below a module hold its proofs, named for what they prove.
--
-- The model. The state of the server is a record that each operation takes and returns. A pointer
-- to a room is an address in `heap`, since a handler keeps its room after the code has left the
-- map; a connection is its identity, and a nil pointer is `none`. What a handler does to the
-- outside is a list of effects: messages written, and connections closed with a reason. A handler
-- that releases its locks meets a changed server afterwards: what others did in between is a
-- parameter, either a function (`meanwhile`, `waited`, `ended`) or the later state itself. A
-- critical section is one step, so the mutexes have no state there. Each map of a room has its
-- own lock, so the two writes of a client's registration, and the three of a linking, are
-- several critical sections. A step of the server in Lifecycle.antt (`Step`, with `RoomWrite`
-- for rooms) is one of them, and Lifecycle/Sections.antt orders those of each handler and lets
-- any others come in between. The operations of Join.antt and ClientRelay.antt, and `RoomStep`,
-- which the meeting of a client and a host in one room rests on, take a whole registration and
-- a whole link as one step; Lifecycle/Uninterrupted.antt compares the two. Locks.antt looks
-- inside the sections: each is the list of its acquisitions, releases and accesses of maps and
-- of a room's host, without the values, and a run is any interleaving of goroutines under the
-- rules of Go's mutexes. Instants are nanoseconds of one clock. Counters wrap at 2^64. A panic,
-- where the code can panic, is `none` or a constructor of the result, and among the sections
-- one that does not release its mutex.
--
-- Parameters for code that is not in the repository: the jwt library and SHA-256 (`Crypto`, with
-- `IsJwt`, `ReadsBack` and `IsSha256` for what the code relies on), semantic versions (`major`),
-- random draws, what a websocket's reader and writer, and a limiter, answer (`Frame`).
--
-- Bounds and fuel. The search for a code makes at most 10000 draws, as the code does. Decimal
-- printing recurses on a bound that the number itself gives. The search for a nonce has no bound
-- in the code; the model has fuel for it, which is enough when it exceeds the first nonce that
-- passes. The loops of connections recurse on the list of frames that arrive, and the wait on the
-- list of its polls; where the list ends, the handler still runs.
--
-- Not modelled: metrics, logs and the exporters set up in `NewServer`; buffer pools; read
-- deadlines, which appear as errors of a read; an upgrade to a websocket that fails, which changes
-- nothing; what a message whose writer is left open becomes (the websocket library finishes it, cut
-- off, at the next write to the connection, such as its close frame); of the load generator under benchmark/ the transfers over HTTP and the decoding of JSON,
-- whose results are parameters, and its gauges.
pub mod Bench
pub mod Cleanup
pub mod ClientRelay
pub mod Create
pub mod Dict
pub mod Endpoints
pub mod Examples
pub mod HostRelay
pub mod Join
pub mod Lifecycle
pub mod Locks
pub mod Monitor
pub mod Numbers
pub mod Pairing
pub mod Prelude
pub mod ProofOfWork
pub mod ReuseTokens
pub mod Serve
pub mod Signal
pub mod Tasks
pub mod Types
