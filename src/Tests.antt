-- ===== src/Tests.antt =====
-- Concrete clients, codecs and orders, and the theorems applied to them.
pub mod Codecs
pub mod Fixtures
pub mod OnEvm
pub mod OnConfig
pub mod OnServices
pub mod OnRouter
pub mod OnSending
pub mod OnBridge
pub mod OnCalldata
pub mod OnClients
pub mod OnStore
pub mod OnExecutor
pub mod OnExample
