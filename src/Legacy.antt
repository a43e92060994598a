-- ===== src/Legacy.antt =====
-- The first server: legacy.
pub mod NetworkInterface
pub mod Events
pub mod UserHandler
pub mod Service
