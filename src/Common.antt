-- ===== src/Common.antt =====
-- The small libraries of common/src beside the protocol: fees, ride numbers, validation and distances.
pub mod Double
pub mod Pricing
pub mod RideNo
pub mod Validation
pub mod Geo
pub mod Errors
mod Tests
