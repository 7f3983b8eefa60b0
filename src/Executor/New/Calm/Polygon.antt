-- ===== src/Executor/New/Calm/Polygon.antt =====
-- Panics in the Polygon half of src/bridge/cctp.rs, and the event data that they depend on.
use mathlib.Core.List.{Memᴰ}
use pump_poly_router.Error.{RouterError, cctp_deposit, Result, ok, err}
use pump_poly_router.Effect.{Action, pure, and_then, rewrapped}
use pump_poly_router.Base.{◌++◌, refl, Option-cases}
use pump_poly_router.Evm.Signer.Rpc.{send_transaction, wait_for_receipt}
use pump_poly_router.Base.{
  ℕ, ◌^◌, ◌<◌, ◌≡◌, ◌≢◌, inl, inr, true, some, List, [], ◌∷◌, arith, Bool-cases, slice,
}
use pump_poly_router.Text.{Text, text, trim_0x}
use pump_poly_router.Error.{panic}
use pump_poly_router.External.{fine, HexCodec, Crypto, Net}
use pump_poly_router.Slices.{slice_range}
use pump_poly_router.Words.{be_value}
use pump_poly_router.Bridge.Cctp.{
  encode_receive_message_calldata, burn_calldata, message_sent_topic,
}
use pump_poly_router.Bridge.Cctp.Events.{
  abi_message, has_topic, first_topic, sent_message, receipt_log, scan_receipt,
  parse_message_sent_from_receipt,
}
use pump_poly_router.Bridge.Cctp.Polygon.{
  CctpPolygonClient, receive_message, approve_usdc, receipt_message, deposit_for_burn_return_leg,
}
use pump_poly_router.Executor.New.Calm.Evm.{send_transaction_calm, wait_for_receipt_calm}

-- Event data whose length word has a small high half, as the contract ABI's always has.
abbrev pub IsShort : List ℕ → Type 0
IsShort bytes = be_value (slice 32 8 bytes) < 2 ^ 63

abi_message_calm : (hex : HexCodec) (bytes : List ℕ) → IsShort bytes → abi_message hex bytes ≢ panic
unfolding abi_message slice_range
abi_message_calm hex bytes h e = ground (arith, h)

-- An action in two parts panics in one of them.
bind_calm :
    {World A B : Type 0} (out : Result A × World) (f : A → Action World B)
    → out.0 ≢ panic
    → ((a : A) (v : World) → out ≡ (ok a, v) → (f a v).0 ≢ panic)
    → (and_then out f).0 ≢ panic
bind_calm (ok a, v) f calm next = next a v refl
bind_calm (err e, v) f calm next = λ q. cc q
bind_calm (panic, v) f calm next = absurd (calm refl)

pure_calm : {World A : Type 0} (a : A) (w : World) → (pure {World = World} a w).0 ≢ panic
pure_calm a w q = cc q

rewrapped_calm :
    {World A : Type 0} (wrap : Text → RouterError) (out : Result A × World)
    → out.0 ≢ panic
    → (rewrapped wrap out).0 ≢ panic
rewrapped_calm wrap (ok a, v) calm = λ q. cc q
rewrapped_calm wrap (err e, v) calm = λ q. cc q
rewrapped_calm wrap (panic, v) calm = absurd (calm refl)

rewrapped-ok :
    {World A : Type 0} (wrap : Text → RouterError) (out : Result A × World) (a : A) (w : World)
    → rewrapped wrap out ≡ (ok a, w)
    → out.0 ≡ ok a
rewrapped-ok wrap (ok x, v) a w e = cc e
rewrapped-ok wrap (err x, v) a w e = absurd (cc e)
rewrapped-ok wrap (panic, v) a w e = absurd (cc e)

module _ {World Response Json : Type 0} (net : Net World Response Json) (hex : HexCodec)
    (crypto : Crypto) where
  -- The data of a log, if its first topic is `MessageSent`.
  abbrev pub ShortLog : Json → Type 0
  ShortLog log =
      (data_hex : Text) (bytes : List ℕ)
      → has_topic net hex crypto (message_sent_topic hex crypto) (first_topic net hex crypto log)
        ≡ true
      → net.as_str (net.index log (text "data")) ≡ some data_hex
      → hex.hex_decode (trim_0x data_hex) ≡ fine bytes
      → IsShort bytes

  -- The logs of a receipt.
  abbrev pub ShortReceipt : Json → Type 0
  ShortReceipt receipt =
      (logs : List Json) (log : Json)
      → net.as_array (net.index receipt (text "logs")) ≡ some logs
      → Memᴰ log logs
      → ShortLog log

  sent_message_calm :
      (log : Json)
      → has_topic net hex crypto (message_sent_topic hex crypto) (first_topic net hex crypto log)
        ≡ true
      → ShortLog log
      → sent_message net hex crypto log ≢ panic
  unfolding sent_message
  sent_message_calm log marked short e = grind (arith, abi_message_calm hex, short)

  receipt_log_calm : (log : Json) → ShortLog log → receipt_log net hex crypto log ≢ panic
  unfolding receipt_log
  receipt_log_calm log short e =
      elim (Bool-cases (
        has_topic net hex crypto (message_sent_topic hex crypto)
          (first_topic net hex crypto log))) [
            | inl marked ↦ sent_message_calm log marked short (rw marked at e)
            | inr other ↦ cc (rw other at e)
          ]

  scan_receipt_calm :
      (logs : List Json)
      → ((log : Json) → Memᴰ log logs → ShortLog log)
      → scan_receipt net hex crypto logs ≢ panic
  unfolding scan_receipt
  scan_receipt_calm [] short e = cc e
  scan_receipt_calm (log ∷ logs) short e =
      let first = receipt_log_calm log (short log (Memᴰ.head refl)) in
      let rest = scan_receipt_calm logs (λ x i. short x (Memᴰ.tail i)) in
      ground (arith, first, rest)

  parse_receipt_calm :
      (receipt : Json)
      → ShortReceipt receipt
      → parse_message_sent_from_receipt net hex crypto receipt ≢ panic
  unfolding parse_message_sent_from_receipt
  parse_receipt_calm receipt short =
      elim (Option-cases (net.as_array (net.index receipt (text "logs")))) [
        | inl missing ↦ rw missing (λ e. cc e)
        | inr (logs, found) ↦ rw found (scan_receipt_calm logs (λ log i. short logs log found i))
      ]

  receipt_message_calm :
      (receipt : Json) (hash : Text) (w : World)
      → ShortReceipt receipt
      → (receipt_message net hex crypto receipt hash w).0 ≢ panic
  unfolding receipt_message
  receipt_message_calm receipt hash w short e = ground (arith, parse_receipt_calm receipt short)

  module _ (client : CctpPolygonClient) where
    encode_receive_calm : (m a : Text) → encode_receive_message_calldata hex m a ≢ panic
    unfolding encode_receive_message_calldata
    encode_receive_calm m a e = ground arith

    pub receive_message_calm :
        (m a : Text) (w : World) → (receive_message net hex crypto client m a w).0 ≢ panic
    unfolding receive_message
    receive_message_calm m a w e =
        grind (arith, encode_receive_calm, send_transaction_calm net hex crypto client.wallet)

    approve_usdc_calm :
        (usdc spender : Text) (n : ℕ) (w : World)
        → (approve_usdc net hex crypto client usdc spender n w).0 ≢ panic
    unfolding approve_usdc
    approve_usdc_calm usdc spender n w e =
        grind (arith, send_transaction_calm net hex crypto client.wallet)

    burn_calldata_calm :
        (n : ℕ) (to : List ℕ) (token : Text) → burn_calldata hex crypto n to token ≢ panic
    unfolding burn_calldata
    burn_calldata_calm n to token e = ground arith

    -- The receipts that the node gives out for the client's own calls of the token messenger.
    abbrev pub ShortReceipts : Type 0
    ShortReceipts =
        (calldata hash : Text) (u v : World) (receipt : Json)
        → (send_transaction net hex crypto client.wallet client.rpc_url client.token_messenger
            calldata 0 u).0
          ≡ ok hash
        → (wait_for_receipt net client.rpc_url hash 30 v).0 ≡ ok receipt
        → ShortReceipt receipt

    pub return_leg_calm :
        (a : Text) (n : ℕ) (to : List ℕ) (b : Text) (w : World)
        → ShortReceipts
        → (deposit_for_burn_return_leg net hex crypto client a n to b w).0 ≢ panic
    unfolding deposit_for_burn_return_leg
    return_leg_calm a n to b w short =
        let unsent : Text → RouterError =
          λ e. cctp_deposit (text "Polygon depositForBurn failed: " ++ e) in
        let unmined : Text → RouterError =
          λ e. cctp_deposit (text "receipt polling failed: " ++ e) in
        bind_calm (approve_usdc net hex crypto client a client.token_messenger n w) _
          (approve_usdc_calm a client.token_messenger n w)
          (λ approval w1 e1.
            bind_calm (burn_calldata hex crypto n to b, w1) _ (burn_calldata_calm n to b)
              (λ calldata w2 e2.
                let sent =
                  send_transaction net hex crypto client.wallet client.rpc_url
                    client.token_messenger calldata 0 w2 in
                bind_calm (rewrapped unsent sent) _
                  (rewrapped_calm unsent sent (
                    send_transaction_calm net hex crypto client.wallet client.rpc_url
                      client.token_messenger calldata 0 w2))
                  (λ hash w3 e3.
                    let mined = wait_for_receipt net client.rpc_url hash 30 w3 in
                    bind_calm (rewrapped unmined mined) _
                      (rewrapped_calm unmined mined
                        (wait_for_receipt_calm net client.rpc_url hash 30 w3))
                      (λ receipt w4 e4.
                        bind_calm (receipt_message net hex crypto receipt hash w4) _
                          (receipt_message_calm receipt hash w4 (
                            short calldata hash w2 w3 receipt (rewrapped-ok unsent sent hash w3 e3)
                              (rewrapped-ok unmined mined receipt w4 e4)))
                          (λ m w5 e5. pure_calm (hash, text "0x" ++ m) w5)))))
