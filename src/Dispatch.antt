-- ===== src/Dispatch.antt =====
-- The dispatch process: server/src/dispatch/dispatch_main.cpp and the thread pool that it runs tasks on.
pub mod ThreadPool
pub mod Reader
mod Tests
