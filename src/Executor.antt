-- ===== src/Executor.antt =====
-- src/executor.rs: `TradeRouter`, the state machine that drives an order.
pub mod State
pub mod New
pub mod Steps
pub mod Drive
pub mod Pipeline
pub mod Fields
pub mod Transition
pub mod History
pub mod Limits
pub mod Guards
pub mod Loop
pub mod Money
pub mod Panics
