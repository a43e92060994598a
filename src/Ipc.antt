-- ===== src/Ipc.antt =====
-- The shared-memory channel between the gateway and the dispatch process: server/include/bike/ipc
-- and server/src/ipc.
pub mod Packet
pub mod Ring
pub mod Layout
pub mod Region
pub mod Sink
pub mod Source
