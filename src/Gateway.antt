-- ===== src/Gateway.antt =====
-- The gateway process: server/src/gateway and server/include/server/gateway.
pub mod FrameCut
pub mod Connection
pub mod WorkerBatch
pub mod Engine
mod Tests
