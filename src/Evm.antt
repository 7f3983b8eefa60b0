-- ===== src/Evm.antt =====
-- src/evm: RLP encoding, transaction signing, and the helpers that read raw CCTP messages.
pub mod Rlp
pub mod Cctp
pub mod Signer
