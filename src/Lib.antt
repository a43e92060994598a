-- ===== src/Lib.antt =====
-- The shared-bike system: a gateway that speaks the FBEB protocol with the clients, a dispatch
-- process that runs the business core, and a pair of rings in shared memory between them.
--
-- A client's bytes reach the gateway, which cuts them into frames (`cut_frames` over `decode_frame`)
-- and puts each into the request ring (`SpscProducer`). The dispatch process takes batches from that
-- ring (`SpscConsumer`) and runs a handler on the repositories; the answer goes back through the
-- response ring, and the gateway stamps the sequence number into it (`stamp_seq`).
--
-- Which file models which part:
--   Base               shared helpers: lists and integers over native numbers, keyed maps (`Dict`),
--                      the outcome of code that may throw (`Outcome`)
--   Protocol           common/src/protocol.cpp and common/include/bike/protocol.hpp
--   Common             common/src/pricing.cpp, ride_no.cpp, validation.cpp, geo.cpp, and
--                      common/include/bike/errors.hpp
--   Gateway/FrameCut   server/src/gateway/frame_cut.cpp
--   Gateway/Connection
--                      server/include/server/gateway/conn_context.hpp
--   Gateway/WorkerBatch
--                      server/include/server/gateway/outbox_queue.hpp, and worker_batch of
--                      server/src/gateway/uring_engine.cpp
--   Gateway/Engine     server/src/gateway/uring_engine.cpp and uring_op.hpp: the submissions and the life
--                      of a connection; Loop has the completions and the delivery of what the workers
--                      and the response ring hand over, Turn the idle sweep, the stop and the shutdown,
--                      Steps the step relation over them; the other files hold the proofs
--   Ipc/Packet         server/include/bike/ipc/ipc_packet.hpp and the slots of shm_layout.hpp
--   Ipc/Ring           server/include/bike/ipc/spsc_ring.hpp
--   Ipc/Layout         compute_file_layout of server/include/bike/ipc/shm_layout.hpp
--   Ipc/Region         the headers, the take-over and the views of server/src/ipc/shm_region.cpp
--   Ipc/Sink           server/src/ipc/ring_sink.cpp, server/include/bike/ipc/reply_queue.hpp
--   Ipc/Source         server/src/ipc/ring_source.cpp: producer_alive, the marks, pop_once and wait_pop
--   Server/Users, Accounts, Sessions, Bikes, Rides
--                      the InMemory* repositories of server/include/server/repo/in_memory.hpp
--   Server/RideSessions
--                      server/include/server/ride_session_store.hpp
--   Server/Config      the checks of server/src/config.cpp
--   Server/Messages    proto/bike.proto
--   Server/Router      server/include/server/router.hpp, server/src/router.cpp, server/src/auth.cpp
--   Server/Handlers    server/src/handlers: ScanUnlock, EndRide, Account (mobile_code, login, recharge,
--                      account_balance, list_records), Trips (position_report, report_damage,
--                      get_ride_detail, list_rides), Nearby (list_nearby_bikes)
--   Dispatch/ThreadPool
--                      server/include/server/util/thread_pool.hpp
--   Dispatch/Reader    server/src/dispatch/dispatch_main.cpp: the reader, the tasks and their quota (Quota
--                      has proofs), and flush_replies (Flush)
--   Client/TrajectorySim
--                      client/src/trajectory_sim.cpp
--   Client/TcpWorker   client/src/net/tcp_worker.cpp and tcp_worker.hpp: frames, the socket, the timers
--   Client/ApiBridge   client/src/net/api_bridge.cpp and api_bridge.hpp: the calls, the requests in flight
--                      and the responses
--   Legacy             the first server, in legacy/: NetworkInterface (NetworkInterface.cpp), Events
--                      (events_def.h, eventtype.cpp), UserHandler (user_event_handler.cpp,
--                      user_service.cpp), Service (DispatchMsgService.cpp)
-- Each function and field keeps the name that it has in the source, or one close to it where another
-- part has that name: `recharge_account` and `list_account_records` are the handlers `recharge` and
-- `list_records`, and the later part of a longer handler has a name of its own. Where the source changes an
-- object, the definition returns the changed one; a thrown exception is a `throw` of `Outcome`.
--
-- Numbers: a byte is a natural number below 256 and a buffer is a list. Counters of the rings are
-- taken modulo 2 ^ 32, also in the invariants, so that they may wrap. A balance is the `int` that the
-- compiled code computes: a sum is reduced modulo 2 ^ 32. Identifiers and times are not bounded.
-- Doubles and the functions of <cmath> are the parameter `Double`; nothing is assumed of them.
--
-- The rings: Ipc/Ring/Steps is a step relation in which the producer and the consumer move in any
-- order, one access to shared memory at a time. The size is 2 ^ bits with bits at most 16, which
-- holds for the 4096 slots of the source. The memory order is taken as sequential, which the acquire
-- and release pairs of the source give for the slots.
--
-- The engine: the kernel is two parameters, whether the submission queue has room at each request and
-- the time at each reading. The address of a UringOp is a number, new for each operation, and a reference
-- to a connection is its number and value; a completion for a connection that is freed has no result.
-- A turn of the loop is its parts in any order. The sweep walks the connections by number, where the
-- source has a hash map.
--
-- The dispatch process: the reader and the workers are steps of their own, in any order, and a thread
-- of the pool acts in one step while it holds the mutex. `flush_loop` runs on fuel, a round for each
-- reply and for each pause on a full ring, which ends at the deadline.
--
-- The client: what a signal of Qt, a slot and a timer do is an operation each, in any order, and what
-- the worker asks of its socket is a list of calls. `ClientCodec` is the code that protobuf generates.
--
-- The waiting of the dispatch process: `Waits` has the calls that `wait_pop` makes, on a state of the
-- rings and of the process. `pop_ring` runs on fuel, a round for each batch: the number of slots and
-- one more is enough.
--
-- The first server: libevent's input buffer is a list of bytes, a session is a number for its address,
-- and a use of a session that was freed is recorded. A thread of its pool takes and runs a task in one
-- step; the bound of the pool's queue, 65535 tasks, is left out. `MysqlConnection` is the connection to the
-- database, and `LegacyCodec` the code that protobuf generates.
--
-- Loops: `cut_loop` and the client's `consume_loop` run on fuel, one round more than the buffer has
-- bytes, which is enough since a frame takes its header at least. The loops that are not named here are
-- structural.
--
-- Maps: a `Dict` is a list in the order of its keys, as a std::map is walked; of a std::unordered_map
-- only operations by key are used. The repositories hold their mutex for a whole call, so a call is
-- one step. A handler makes its calls one after the other, with no other handler between them, but for
-- ScanUnlock/Races, where two scans of a bike have their calls in turns. The clock
-- and random draws are arguments, and so are std::sort, strftime and the code that protobuf generates.
-- Memory, logging and the other fields of a request that no handler reads are left out.
--
-- Not modelled: the heartbeats and the set-up of the io_uring engine, shared-memory mapping, FIFOs,
-- the start of threads and processes, which are calls of the operating system; the MySQL and Redis
-- repositories, which send statements to a server; the reading of the configuration and logging;
-- the start of the client and its Qt models; of legacy/ the threads of the pool, the SQL connection, the
-- configuration, logging and the start; toml++.
pub mod Base
pub mod Protocol
pub mod Common
pub mod Gateway
pub mod Ipc
pub mod Server
pub mod Client
pub mod Dispatch
pub mod Legacy
