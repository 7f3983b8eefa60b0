-- ===== src/Executor/New/Calm/Evm.antt =====
-- Panics in signing and the JSON-RPC calls of src/evm/signer.rs.
use pump_poly_router.Base.{ℕ, zero, suc, ◌≢◌, List, arith}
use pump_poly_router.Text.{Text}
use pump_poly_router.Error.{RouterError, panic}
use pump_poly_router.External.{HexCodec, Crypto, Net}
use pump_poly_router.Evm.Signer.{EvmWallet, parse_secret_key, sign_fields, sign_transaction}
use pump_poly_router.Evm.Signer.Rpc.{
  rpc, quantity, get_nonce, get_gas_price, estimate_gas, eth_send_raw_transaction, send_transaction,
  receipt_attempts, wait_for_receipt,
}

module _ (hex : HexCodec) (crypto : Crypto) where
  pub sign_fields_calm : (n : ℕ) (sk : List ℕ) (t : _) → sign_fields hex crypto n sk t ≢ panic
  unfolding sign_fields
  sign_fields_calm n sk t e = ground arith

  pub sign_transaction_calm :
      (wallet : EvmWallet) (to data_hex : Text) (value nonce price limit : ℕ)
      → sign_transaction hex crypto wallet to data_hex value nonce price limit ≢ panic
  unfolding sign_transaction parse_secret_key
  sign_transaction_calm wallet to data_hex value nonce price limit e =
      grind (arith, sign_fields_calm)

module _ {World Response Json : Type 0} (net : Net World Response Json) where
  pub rpc_calm : (url : Text) (body : _) (w : World) → (rpc net url body w).0 ≢ panic
  unfolding rpc
  rpc_calm url body w e = ground arith

  pub quantity_calm : (j : Json) (a b : Text) (w : World) → (quantity net j a b w).0 ≢ panic
  unfolding quantity
  quantity_calm j a b w e = ground arith

  pub get_nonce_calm :
      (wallet : EvmWallet) (url : Text) (w : World) → (get_nonce net wallet url w).0 ≢ panic
  unfolding get_nonce
  get_nonce_calm wallet url w e = ground arith

  pub get_gas_price_calm : (url : Text) (w : World) → (get_gas_price net url w).0 ≢ panic
  unfolding get_gas_price
  get_gas_price_calm url w e = ground arith

  pub estimate_gas_calm :
      (wallet : EvmWallet) (url to data_hex : Text) (w : World)
      → (estimate_gas net wallet url to data_hex w).0 ≢ panic
  unfolding estimate_gas
  estimate_gas_calm wallet url to data_hex w e = ground arith

  pub eth_send_calm :
      (url raw : Text) (w : World) → (eth_send_raw_transaction net url raw w).0 ≢ panic
  unfolding eth_send_raw_transaction
  eth_send_calm url raw w e = ground arith

  pub send_transaction_calm :
      (hex : HexCodec) (crypto : Crypto) (wallet : EvmWallet) (url to data_hex : Text) (value : ℕ)
      (w : World)
      → (send_transaction net hex crypto wallet url to data_hex value w).0 ≢ panic
  unfolding send_transaction
  send_transaction_calm hex crypto wallet url to data_hex value w e = grind (
    arith,
    get_nonce_calm,
    get_gas_price_calm,
    estimate_gas_calm,
    sign_transaction_calm hex crypto,
    eth_send_calm,
  )

  receipt_attempts_calm :
      (left : ℕ) (url hash : Text) (timed_out : RouterError) (w : World)
      → (receipt_attempts net left url hash timed_out w).0 ≢ panic
  unfolding receipt_attempts
  receipt_attempts_calm zero url hash timed_out w e = cc e
  receipt_attempts_calm (suc left) url hash timed_out w e =
      grind (arith, rpc_calm, receipt_attempts_calm left url hash timed_out)

  pub wait_for_receipt_calm :
      (url hash : Text) (n : ℕ) (w : World) → (wait_for_receipt net url hash n w).0 ≢ panic
  unfolding wait_for_receipt
  wait_for_receipt_calm url hash n w = receipt_attempts_calm n url hash _ w
