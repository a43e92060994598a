-- ===== src/Client.antt =====
-- The client: client/src. Sockets, timers and signals of Qt are parameters or lists of what was emitted.
pub mod TrajectorySim
pub mod TcpWorker
pub mod ApiBridge
