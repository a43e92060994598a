-- ===== src/Server.antt =====
-- The business core: server/include/server and server/src, with the repositories of
-- server/include/server/repo/in_memory.hpp. A repository is a record; a method that changes it returns
-- the new record. Each method holds its mutex for the whole call, so calls are taken one at a time.
-- Clock readings and random numbers are arguments.
pub mod Config
pub mod Users
pub mod Accounts
pub mod Sessions
pub mod Bikes
pub mod Rides
pub mod RideSessions
pub mod Messages
pub mod Router
pub mod Handlers
mod Tests
