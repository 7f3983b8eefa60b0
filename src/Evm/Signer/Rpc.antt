-- ===== src/Evm/Signer/Rpc.antt =====
-- The JSON-RPC calls of `EvmWallet` in src/evm/signer.rs. The wallet's HTTP client is the parameter
-- `net`. `send_transaction` holds the wallet's lock from its first call to its last; here a call runs
-- alone, and `Sending` has the lock.
use pump_poly_router.Base.{ℕ, zero, suc, ◌+◌, ◌/◌, ◌++◌, Option, none, some, if◌then◌else◌}
use pump_poly_router.Text.{Text, text, trim_0x, decimal, parse_hex_u64}
use pump_poly_router.Error.{RouterError, other, http, Result, ok, err, ok_or}
use pump_poly_router.Words.{u64}
use pump_poly_router.Effect.{Action, call, lift, fail, pure, ◌>>=◌}
use pump_poly_router.External.{
  HexCodec, Crypto, Net, Body, str, num, arr, obj, Bodies, nil, cons, stop, field,
}
use pump_poly_router.Evm.Signer.{EvmWallet, sign_transaction}

module _ {World Response Json : Type 0} (net : Net World Response Json) where
  -- `json!({ "jsonrpc": "2.0", "method": m, "params": ps, "id": 1 })`
  abbrev pub rpc_body : Text → Bodies → Body
  rpc_body method params = obj (
      field (text "jsonrpc") (str (text "2.0")) (
        field (text "method") (str method)
          (field (text "params") (arr params) (field (text "id") (num 1) stop))))

  -- `self.http.post(url).json(&body).send().await?.json().await?`
  unfoldable pub rpc : Text → Body → Action World Json
  rpc url body = do resp ← call (net.post url body) http; call (net.read_json resp) http

  -- `hex.as_str().ok_or_else(missing)?`, then `u64::from_str_radix(trimmed, 16)`
  unfoldable pub quantity : Json → Text → Text → Action World ℕ
  quantity result missing unparsed = do
    hex ← lift (ok_or (net.as_str result) (other missing))
    lift (ok_or (parse_hex_u64 (trim_0x hex)) (other unparsed))

  unfoldable pub get_nonce : EvmWallet → Text → Action World ℕ
  unfolding rpc quantity
  get_nonce wallet rpc_url = do
    resp ← rpc rpc_url (
        rpc_body (text "eth_getTransactionCount")
          (cons (str wallet.address) (cons (str (text "pending")) nil)))
    quantity (net.index resp (text "result")) (text "eth_getTransactionCount missing result")
        (text "nonce parse error")

  unfoldable pub get_gas_price : Text → Action World ℕ
  unfolding rpc quantity
  get_gas_price rpc_url = do
    resp ← rpc rpc_url (rpc_body (text "eth_gasPrice") nil)
    price ←
        quantity (net.index resp (text "result")) (text "eth_gasPrice missing result")
          (text "gas price parse error")
    pure (u64 (price + price / 5))

  -- `if let Some(err) = resp.get("error") { return Err(...) }`
  unfoldable pub refuse_error : Option Json → (Text → RouterError) → Result (Unit {0})
  refuse_error none wrap = ok tt
  refuse_error (some e) wrap = err (wrap (net.to_string e))

  unfoldable pub estimate_gas : EvmWallet → Text → Text → Text → Action World ℕ
  unfolding rpc quantity refuse_error
  estimate_gas wallet rpc_url to calldata = do
    resp ← rpc rpc_url (
        rpc_body (text "eth_estimateGas") (
          cons
            (obj (
              field (text "from") (str wallet.address)
                (field (text "to") (str to) (field (text "data") (str calldata) stop))))
            nil))
    _ ← lift (
        refuse_error (net.get_field resp (text "error"))
          (λ e. other (text "eth_estimateGas error: " ++ e)))
    gas ←
        quantity (net.index resp (text "result")) (text "eth_estimateGas missing result")
          (text "gas estimate parse error")
    pure (u64 (gas + gas / 3))

  unfoldable pub eth_send_raw_transaction : Text → Text → Action World Text
  unfolding rpc refuse_error
  eth_send_raw_transaction rpc_url raw_tx = do
    resp ← rpc rpc_url (rpc_body (text "eth_sendRawTransaction") (cons (str raw_tx) nil))
    _ ← lift (
        refuse_error (net.get_field resp (text "error"))
          (λ e. other (text "eth_sendRawTransaction error: " ++ e)))
    lift (
        ok_or (net.as_str (net.index resp (text "result")))
          (other (text "missing tx hash in sendRawTransaction response")))

  -- `send_transaction`: nonce, gas price, gas limit, signature, broadcast.
  unfoldable pub send_transaction :
      HexCodec → Crypto → EvmWallet → Text → Text → Text → ℕ → Action World Text
  send_transaction hex crypto wallet rpc_url to calldata value = do
    nonce ← get_nonce wallet rpc_url
    gas_price ← get_gas_price rpc_url
    gas_limit ← estimate_gas wallet rpc_url to calldata
    raw_tx ← lift (sign_transaction hex crypto wallet to calldata value nonce gas_price gas_limit)
    eth_send_raw_transaction rpc_url raw_tx

  -- `if let Some(receipt) = resp.get("result") { if !receipt.is_null() { return Ok(..) } }`
  unfoldable pub mined : Option Json → Option Json
  mined none = none
  mined (some receipt) = if net.is_null receipt then none else some receipt

  -- The `for` loop of `wait_for_receipt`, over the attempts left.
  unfoldable pub receipt_attempts : ℕ → Text → Text → RouterError → Action World Json
  unfolding rpc mined
  receipt_attempts zero rpc_url tx_hash timed_out = fail timed_out
  receipt_attempts (suc left) rpc_url tx_hash timed_out = do
    resp ← rpc rpc_url (rpc_body (text "eth_getTransactionReceipt") (cons (str tx_hash) nil))
    elim (mined (net.get_field resp (text "result"))) [
      | some receipt ↦ pure receipt
      | none ↦ (λ w. receipt_attempts left rpc_url tx_hash timed_out (net.sleep 3 w))
    ]

  unfoldable pub wait_for_receipt : Text → Text → ℕ → Action World Json
  unfolding receipt_attempts
  wait_for_receipt rpc_url tx_hash max_attempts = receipt_attempts max_attempts rpc_url tx_hash (
      other (
        text "tx "
        ++ (tx_hash ++ (text " not mined after " ++ (decimal max_attempts ++ text " attempts")))))
