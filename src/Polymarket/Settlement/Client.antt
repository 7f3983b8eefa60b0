-- ===== src/Polymarket/Settlement/Client.antt =====
-- `SettlementClient` of src/polymarket/settlement.rs.
use pump_poly_router.Base.{ℕ, List, ◌++◌}
use pump_poly_router.Text.{Text, text, trim_0x}
use pump_poly_router.Error.{ctf_redeem, http, Result, ok, err, panic, ok_or}
use pump_poly_router.Effect.{Action, call, lift, failed_as, ◌>>=◌}
use pump_poly_router.External.{
  HexCodec, Crypto, Net, Body, str, num, arr, obj, nil, cons, stop, field,
}
use pump_poly_router.Evm.Signer.{EvmWallet, new_wallet}
use pump_poly_router.Evm.Signer.Rpc.{send_transaction}
use pump_poly_router.Polymarket.Settlement.{encode_redeem_positions, decode_balance}

-- `SettlementClient`, without its HTTP client.
pub record SettlementClient : Type 0 where
  pub polygon_rpc : Text
  pub ctf_address : Text
  pub wallet : EvmWallet

-- The body of the `eth_call` for `balanceOf(address)`.
abbrev balance_body : Text → Text → Body
balance_body usdc_address calldata = obj (
    field (text "jsonrpc") (str (text "2.0")) (
      field (text "method") (str (text "eth_call")) (
        field (text "params")
          (arr (
            cons
              (obj (field (text "to") (str usdc_address) (field (text "data") (str calldata) stop)))
              (cons (str (text "latest")) nil)))
          (field (text "id") (num 1) stop))))

module _ (hex : HexCodec) (crypto : Crypto) where
  -- `SettlementClient::new`
  unfoldable pub new_settlement_client : Text → Text → Text → Result SettlementClient
  new_settlement_client polygon_rpc ctf_address executor_private_key =
      elim (new_wallet hex crypto executor_private_key 137) [
        | err e ↦ err e
        | panic ↦ panic
        | ok wallet ↦
            ok (record { polygon_rpc = polygon_rpc; ctf_address = ctf_address; wallet = wallet })
      ]

module _ {World Response Json : Type 0} (net : Net World Response Json) (hex : HexCodec)
    (crypto : Crypto) where
  unfoldable pub redeem_positions : SettlementClient → Text → Text → List ℕ → Action World Text
  redeem_positions client collateral_token condition_id index_sets = do
    calldata ← lift (encode_redeem_positions hex collateral_token condition_id index_sets)
    failed_as ctf_redeem (
        send_transaction net hex crypto client.wallet client.polygon_rpc client.ctf_address calldata
          0)

module _ {World Response Json : Type 0} (net : Net World Response Json) (hex : HexCodec) where
  unfoldable pub usdc_balance : SettlementClient → Text → Text → Action World ℕ
  usdc_balance client usdc_address executor_address = do
    let padded_addr = text "000000000000000000000000" ++ trim_0x executor_address
    resp ←
        call
          (net.post client.polygon_rpc
            (balance_body usdc_address (text "0x70a08231" ++ padded_addr)))
          http
    json ← call (net.read_json resp) ctf_redeem
    result ← lift (
        ok_or (net.as_str (net.index json (text "result")))
          (ctf_redeem (text "missing eth_call result")))
    lift (decode_balance hex result)
