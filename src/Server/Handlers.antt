-- ===== src/Server/Handlers.antt =====
-- server/src/handlers: one function for each event that a client sends. A handler reads the clock of
-- the sessions and that of the calendar; each reading is an argument.
pub mod ScanUnlock
pub mod EndRide
pub mod Account
pub mod Trips
pub mod Nearby
mod Tests
