-- ===== src/Polymarket.antt =====
-- src/polymarket: orders on the CLOB, market resolution, redemption.
pub mod Order
pub mod Resolver
pub mod Settlement
