-- ===== src/Solana.antt =====
-- src/solana: the Jupiter client and the SPL token helpers.
pub mod Jupiter
pub mod Spl
