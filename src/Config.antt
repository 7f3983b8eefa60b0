-- ===== src/Config.antt =====
-- src/config.rs: `RouterConfig` and the constants.
pub mod Env
use pump_poly_router.Base.{ℕ, List, Option}
use pump_poly_router.Text.{Text, text}

pub record RouterConfig : Type 0 where
  pub solana_rpc_url : Text
  pub solana_keypair_path : Text
  pub jupiter_api_url : Text
  pub jupiter_slippage_bps : ℕ
  pub cctp_attestation_url : Text
  pub cctp_solana_token_messenger : Text
  pub cctp_polygon_message_transmitter : Text
  pub cctp_polygon_token_messenger : Text
  pub cctp_attestation_timeout_secs : ℕ
  pub polygon_rpc_url : Text
  pub polygon_executor_private_key : Text
  pub ctf_contract_address : Text
  pub ctf_exchange_contract_address : Text
  pub usdc_polygon_address : Text
  pub poly_clob_url : Text
  pub poly_private_key : Text
  pub protocol_fee_bps : ℕ
  pub max_order_usdc_micro : ℕ
  pub poly_order_fill_timeout_secs : ℕ
  pub order_store_path : Option Text
  pub allowed_market_ids : Option (List Text)
  pub daily_volume_cap_usdc_micro : ℕ
  pub circuit_breaker_failure_threshold : ℕ

abbrev pub usdc_solana_mint : Text
usdc_solana_mint = text "EPjFWdd5AufqSSqeM2qN1xzybapC8G4wEGGkZwyTDt1v"

abbrev pub cctp_polygon_domain : ℕ
cctp_polygon_domain = 7

abbrev pub cctp_solana_domain : ℕ
cctp_solana_domain = 5
