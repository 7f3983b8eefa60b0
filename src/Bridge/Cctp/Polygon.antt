-- ===== src/Bridge/Cctp/Polygon.antt =====
-- `CctpPolygonClient` of src/bridge/cctp.rs, without its HTTP client.
use pump_poly_router.Base.{ℕ, List, ◌++◌}
use pump_poly_router.Text.{Text, text, trim_0x}
use pump_poly_router.Error.{cctp_receive, cctp_deposit, Result, ok, err, panic}
use pump_poly_router.Effect.{Action, lift, pure, failed_as, ◌>>=◌}
use pump_poly_router.External.{HexCodec, Crypto, Net}
use pump_poly_router.Evm.Signer.{EvmWallet, new_wallet}
use pump_poly_router.Evm.Signer.Rpc.{send_transaction, wait_for_receipt}
use pump_poly_router.Bridge.Cctp.{encode_receive_message_calldata, approve_calldata, burn_calldata}
use pump_poly_router.Bridge.Cctp.Events.{parse_message_sent_from_receipt}

pub record CctpPolygonClient : Type 0 where
  pub rpc_url : Text
  pub message_transmitter : Text
  pub token_messenger : Text
  pub wallet : EvmWallet

-- `with_token_messenger`
abbrev pub with_token_messenger : Text → CctpPolygonClient → CctpPolygonClient
with_token_messenger addr client = record client { token_messenger = addr }

module _ (hex : HexCodec) (crypto : Crypto) where
  -- `CctpPolygonClient::new`
  unfoldable pub new_polygon_client : Text → Text → Text → Result CctpPolygonClient
  new_polygon_client rpc_url message_transmitter executor_private_key =
      elim (new_wallet hex crypto executor_private_key 137) [
        | err e ↦ err e
        | panic ↦ panic
        | ok wallet ↦ ok (record {
          rpc_url = rpc_url;
          message_transmitter = message_transmitter;
          token_messenger = text "0x9daF8c91AEFAE50b9c0E69629D3f6Ca40cA3B3FE";
          wallet = wallet;
        })
      ]

module _ {World Response Json : Type 0} (net : Net World Response Json) (hex : HexCodec)
    (crypto : Crypto) where
  unfoldable pub receive_message : CctpPolygonClient → Text → Text → Action World Text
  receive_message client message_bytes attestation = do
    calldata ← lift (encode_receive_message_calldata hex message_bytes attestation)
    failed_as cctp_receive (
        send_transaction net hex crypto client.wallet client.rpc_url client.message_transmitter
          calldata 0)

  unfoldable pub approve_usdc : CctpPolygonClient → Text → Text → ℕ → Action World Text
  approve_usdc client usdc_address spender amount =
      failed_as (λ e. cctp_deposit (text "USDC approve failed: " ++ e))
        (send_transaction net hex crypto client.wallet client.rpc_url usdc_address
          (approve_calldata spender amount) 0)

  -- The message of the receipt, or the transaction hash where none can be read.
  unfoldable pub receipt_message : Json → Text → Action World Text
  receipt_message receipt tx_hash w =
      elim (parse_message_sent_from_receipt net hex crypto receipt) [
        | ok message_bytes ↦ (ok message_bytes, w)
        | err e ↦ (ok (trim_0x tx_hash), w)
        | panic ↦ (panic, w)
      ]

  unfoldable pub deposit_for_burn_return_leg :
      CctpPolygonClient → Text → ℕ → List ℕ → Text → Action World (Text × Text)
  deposit_for_burn_return_leg client usdc_address amount solana_recipient usdc_token_address = do
    approval ← approve_usdc client usdc_address client.token_messenger amount
    calldata ← lift (burn_calldata hex crypto amount solana_recipient usdc_token_address)
    tx_hash ←
        failed_as (λ e. cctp_deposit (text "Polygon depositForBurn failed: " ++ e))
          (send_transaction net hex crypto client.wallet client.rpc_url client.token_messenger
            calldata 0)
    receipt ←
        failed_as (λ e. cctp_deposit (text "receipt polling failed: " ++ e))
          (wait_for_receipt net client.rpc_url tx_hash 30)
    message_bytes ← receipt_message receipt tx_hash
    pure (tx_hash, text "0x" ++ message_bytes)
