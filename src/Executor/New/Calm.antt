-- ===== src/Executor/New/Calm.antt =====
-- When the clients that `TradeRouter::new` of src/executor.rs builds can panic.
pub mod Services
pub mod Evm
pub mod Bridge
pub mod Polygon
pub mod Resolver
pub mod Settlement
pub mod Order
pub mod Whole
