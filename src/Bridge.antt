-- ===== src/Bridge.antt =====
-- src/bridge: Circle's attestation service and the CCTP clients.
pub mod Attestation
pub mod Cctp
