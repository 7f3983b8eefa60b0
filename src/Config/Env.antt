-- ===== src/Config/Env.antt =====
-- `RouterConfig::from_env` of src/config.rs. The environment is the one that `dotenvy` leaves: the
-- value of each variable that is set to a text. The product of a u64 wraps, as in a release build.
pub mod Loaded
pub mod Whitelist
use pump_poly_router.Base.{
  ℕ, ◌*◌, List, [], ◌∷◌, ◌++◌, Option, none, some, true, false, map, or_else,
}
use pump_poly_router.Text.{Text, text, trim, decimal, parse_u16, parse_u32, parse_u64}
use pump_poly_router.Text.Parts.{split}
use pump_poly_router.Words.{u64}
use pump_poly_router.Error.{config, Result, ok, err, ok_or, ◌>>=◌}
use pump_poly_router.Config.{RouterConfig}

-- `.unwrap_or_else(|_| default.to_owned())`
abbrev pub or_default : Text → Option Text → Text
or_default default none = default
or_default default (some value) = value

-- `.ok().filter(|s| !s.is_empty())`
abbrev pub filled : Option Text → Option Text
filled none = none
filled (some []) = none
filled (some (c ∷ value)) = some (c ∷ value)

-- The condition ids between the commas.
abbrev pub market_ids : Option Text → Option (List Text)
market_ids none = none
market_ids (some value) = some (map trim (split b',' value))

module _ (env : Text → Option Text) where
  -- `get`
  unfoldable pub require : Text → Result Text
  require key = ok_or (env key) (config (text "missing env var: " ++ key))

  -- `get_or`
  abbrev pub get_or : Text → Text → Text
  get_or key default = or_default default (env key)

  unfoldable pub parsed_u16 : Text → ℕ → Result ℕ
  parsed_u16 key default =
      ok_or (parse_u16 (get_or key (decimal default))) (config (key ++ text " must be a u16"))

  unfoldable pub parsed_u32 : Text → ℕ → Result ℕ
  parsed_u32 key default =
      ok_or (parse_u32 (get_or key (decimal default))) (config (key ++ text " must be a u32"))

  unfoldable pub parsed_u64 : Text → ℕ → Result ℕ
  parsed_u64 key default =
      ok_or (parse_u64 (get_or key (decimal default))) (config (key ++ text " must be a u64"))

  -- The configuration, once the fallible settings are read.
  abbrev pub assembled : ℕ → ℕ → Text → ℕ → ℕ → ℕ → ℕ → ℕ → RouterConfig
  assembled slippage attestation_timeout executor_key fee max_order fill_timeout daily_cap
        threshold =
      record {
        solana_rpc_url =
            get_or (text "SOLANA_RPC_URL") (text "https://api.mainnet-beta.solana.com");
        solana_keypair_path =
            get_or (text "SOLANA_EXECUTOR_KEYPAIR_PATH") (text "~/.config/solana/id.json");
        jupiter_api_url = get_or (text "JUPITER_API_URL") (text "https://quote-api.jup.ag");
        jupiter_slippage_bps = slippage;
        cctp_attestation_url =
            get_or (text "CCTP_ATTESTATION_URL") (text "https://iris-api.circle.com");
        cctp_solana_token_messenger =
            get_or (text "CCTP_SOLANA_TOKEN_MESSENGER")
              (text "CCTPiPYEnTQLuNaWZkhe7mWx5bkGEuHiVLmRKs7VHqpW");
        cctp_polygon_message_transmitter =
            get_or (text "CCTP_POLYGON_MESSAGE_TRANSMITTER")
              (text "0xBd3fa81B58Ba92a82136038B25aDec7066af3155");
        cctp_polygon_token_messenger =
            get_or (text "CCTP_POLYGON_TOKEN_MESSENGER")
              (text "0x9daF8c91AEFAE50b9c0E69629D3f6Ca40cA3B3FE");
        cctp_attestation_timeout_secs = attestation_timeout;
        polygon_rpc_url = get_or (text "POLYGON_RPC_URL") (text "https://polygon-rpc.com");
        polygon_executor_private_key = executor_key;
        ctf_contract_address =
            get_or (text "CTF_CONTRACT_ADDRESS")
              (text "0x4D97DCd97eC945f40cF65F87097ACe5EA0476045");
        ctf_exchange_contract_address =
            get_or (text "CTF_EXCHANGE_CONTRACT_ADDRESS")
              (text "0x4bFb41d5B3570DeFd03C39a9A4D8dE6Bd8B8982E");
        usdc_polygon_address =
            get_or (text "USDC_POLYGON_ADDRESS")
              (text "0x2791Bca1f2de4661ED88A30C99A7a9449Aa84174");
        poly_clob_url = get_or (text "POLY_CLOB_URL") (text "https://clob.polymarket.com");
        poly_private_key =
            or_default [] (or_else (env (text "POLY_EVM_PRIVATE_KEY")) (env (text "POLY_SECRET")));
        protocol_fee_bps = fee;
        max_order_usdc_micro = u64 (max_order * 1_000_000);
        poly_order_fill_timeout_secs = fill_timeout;
        order_store_path = filled (env (text "ORDER_STORE_PATH"));
        allowed_market_ids = market_ids (filled (env (text "ALLOWED_MARKET_IDS")));
        daily_volume_cap_usdc_micro = u64 (daily_cap * 1_000_000);
        circuit_breaker_failure_threshold = threshold;
      }

  unfoldable pub from_env : Result RouterConfig
  from_env = do
    slippage ← parsed_u16 (text "JUPITER_SLIPPAGE_BPS") 50
    attestation_timeout ← parsed_u64 (text "CCTP_ATTESTATION_TIMEOUT_SECS") 600
    executor_key ← require (text "POLYGON_EXECUTOR_PRIVATE_KEY")
    fee ← parsed_u16 (text "PROTOCOL_FEE_BPS") 30
    max_order ← parsed_u64 (text "MAX_ORDER_USDC") 1000
    fill_timeout ← parsed_u64 (text "POLY_ORDER_FILL_TIMEOUT_SECS") 120
    daily_cap ← parsed_u64 (text "DAILY_VOLUME_CAP_USDC") 0
    threshold ← parsed_u32 (text "CIRCUIT_BREAKER_FAILURES") 5
    ok (
        assembled slippage attestation_timeout executor_key fee max_order fill_timeout daily_cap
          threshold)
