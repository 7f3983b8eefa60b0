-- ===== src/Bridge/Cctp/Events.antt =====
-- The `MessageSent` events of src/bridge/cctp.rs, read from the logs of a Solana transaction and from
-- a Polygon receipt. `usize` has 64 bits; sums wrap as in a release build.
pub mod Found
pub mod Receipt
use pump_poly_router.Base.{
  ℕ, ◌+◌, List, [], ◌∷◌, ◌++◌, Bool, true, false, ◌&&◌, Option, none, some, ltb, leb, if◌then◌else◌,
  length, take, drop, slice,
}
use pump_poly_router.Text.{Text, text, text_eq, trim, trim_0x, strip_prefix}
use pump_poly_router.Error.{cctp_deposit, Result, ok, err, panic, ok_or, ◌>>=◌}
use pump_poly_router.Words.{u64, be_value, le_value}
use pump_poly_router.Slices.{slice_range}
use pump_poly_router.Effect.{of_reply}
use pump_poly_router.External.{Reply, fine, fault, HexCodec, Crypto, Net}
use pump_poly_router.Bridge.Cctp.{message_sent_topic}

-- The message of a decoded `Program data` entry: 8 bytes of discriminator, then a Borsh `Vec<u8>`.
unfoldable pub anchor_message : List ℕ → List ℕ → Option (List ℕ)
anchor_message disc bytes =
    if leb 12 (length bytes) && text_eq (take 8 bytes) disc
    then (let msg_len = le_value (slice 8 4 bytes) in
        if leb (12 + msg_len) (length bytes) then some (slice 12 msg_len bytes) else none)
    else none

module _ (decode64 : Text → Reply (List ℕ)) where
  -- The text behind `Program data: `: `if let Ok(bytes)`, then the message.
  unfoldable pub data_entry : List ℕ → Option Text → Option (List ℕ)
  data_entry disc none = none
  data_entry disc (some b64) = elim (decode64 (trim b64)) [
    | fault e ↦ none
    | fine bytes ↦ anchor_message disc bytes
  ]

  -- One log line.
  unfoldable pub log_message : List ℕ → Text → Option (List ℕ)
  log_message disc log = data_entry disc (strip_prefix (text "Program data: ") log)

  -- The loop of `parse_message_sent_from_tx` over the logs.
  unfoldable pub scan_logs : HexCodec → List ℕ → List Text → Result Text
  scan_logs hex disc [] =
      err (cctp_deposit (text "MessageSent event not found in transaction logs"))
  scan_logs hex disc (log ∷ logs) = elim (log_message disc log) [
    | some message ↦ ok (hex.hex_encode message)
    | none ↦ scan_logs hex disc logs
  ]

-- `data` of a `MessageSent(bytes)` log: `some` is the text that is returned, `none` is `continue` or a
-- message that does not fit.
unfoldable pub abi_message : HexCodec → List ℕ → Result (Option Text)
abi_message hex log_data =
    if ltb (length log_data) 64
    then ok none
    else (let msg_len = be_value (slice 32 8 log_data) in
        if leb (u64 (64 + msg_len)) (length log_data)
        then (do
          message ← slice_range 64 (u64 (64 + msg_len)) log_data
          ok (some (hex.hex_encode message)))
        else ok none)

module _ {World Response Json : Type 0} (net : Net World Response Json) (hex : HexCodec)
    (crypto : Crypto) where
  -- `topics.first().and_then(|t| t.as_str())`
  unfoldable pub first_topic : Json → Option Text
  first_topic log = elim (net.as_array (net.index log (text "topics"))) [
    | some (topic ∷ topics) ↦ net.as_str topic
    | _ ↦ none
  ]

  unfoldable pub has_topic : Text → Option Text → Bool
  has_topic wanted none = false
  has_topic wanted (some topic) = text_eq topic wanted

  -- A log whose first topic is `MessageSent`.
  unfoldable pub sent_message : Json → Result (Option Text)
  sent_message log = do
    data_hex ←
        ok_or (net.as_str (net.index log (text "data"))) (cctp_deposit (text "missing log data"))
    log_data ←
        of_reply (hex.hex_decode (trim_0x data_hex)) (λ e. cctp_deposit (text "hex decode: " ++ e))
    abi_message hex log_data

  unfoldable pub receipt_log : Json → Result (Option Text)
  receipt_log log =
      if has_topic (message_sent_topic hex crypto) (first_topic log)
      then sent_message log
      else ok none

  unfoldable pub scan_receipt : List Json → Result Text
  scan_receipt [] = err (cctp_deposit (text "MessageSent event not found in Polygon tx receipt"))
  scan_receipt (log ∷ logs) = elim (receipt_log log) [
    | ok (some message) ↦ ok message
    | ok none ↦ scan_receipt logs
    | err e ↦ err e
    | panic ↦ panic
  ]

  unfoldable pub parse_message_sent_from_receipt : Json → Result Text
  parse_message_sent_from_receipt receipt = do
    logs ←
        ok_or (net.as_array (net.index receipt (text "logs")))
          (cctp_deposit (text "no logs in receipt"))
    scan_receipt logs
