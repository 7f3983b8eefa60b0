-- ===== src/Tests/OnBridge.antt =====
-- The theorems on the CCTP clients, applied.
use pump_poly_router.Base.{
  ℕ, ◌+◌, ◌≡◌, refl, ap, arith, List, [], ◌∷◌, ◌++◌, ◌==◌, none, some, true, take, drop, replicate,
  if◌then◌else◌,
}
use pump_poly_router.Text.{
  Text, text, text_eq_iff, trim, trim_0x, strip_prefix, hex_digit, hex_value,
}
use pump_poly_router.Error.{ok}
use pump_poly_router.External.{fine, Net}
use pump_poly_router.Words.{u32, be_bytes, le_bytes}
use pump_poly_router.Evm.Cctp.{cctp_message_hash}
use pump_poly_router.Bridge.Cctp.{
  borsh_bytes, receive_arguments, receive_message_selector, encode_receive_message_calldata,
  message_sent_topic,
}
use pump_poly_router.Bridge.Cctp.Solana.{CctpSolanaClient, receive_instruction}
use pump_poly_router.Bridge.Cctp.Calldata.{ReceiveCall, encode_receive_message_calldata-ReceiveCall}
use pump_poly_router.Bridge.Cctp.Borsh.{read_receive, read_receive-receive_instruction}
use pump_poly_router.Bridge.Cctp.Events.{
  log_message, data_entry, scan_logs, first_topic, has_topic, parse_message_sent_from_receipt,
}
use pump_poly_router.Bridge.Cctp.Events.Found.{scan_logs-event}
use pump_poly_router.Bridge.Cctp.Events.Receipt.{
  abi_event, Event, parse_message_sent_from_receipt-event,
}
use pump_poly_router.Executor.Steps.{return_reference}
use pump_poly_router.Tests.Codecs.{to_hex, from_hex, hex_codec, hex_codec-IsHex, plain_crypto}
use pump_poly_router.Tests.Fixtures.{Machine, wallet, desk, ready}

abbrev message : List ℕ
message = 0xab ∷ 0xcd ∷ []

abbrev signed : List ℕ
signed = replicate 65 0x11

abbrev receive_call : Text
receive_call =
    text "0x"
    ++ (receive_message_selector ++ hex_codec.hex_encode (receive_arguments message signed))

receive_encodes :
    encode_receive_message_calldata hex_codec
      (text "0x" ++ hex_codec.hex_encode message)
      (hex_codec.hex_encode signed)
    ≡ ok receive_call
unfolding encode_receive_message_calldata trim_0x text to_hex from_hex hex_digit hex_value
receive_encodes = refl

encode_receive_message_calldata-ReceiveCall_example :
    ReceiveCall hex_codec
      (text "0x" ++ hex_codec.hex_encode message)
      (hex_codec.hex_encode signed)
      receive_call
unfolding text to_hex
encode_receive_message_calldata-ReceiveCall_example =
    encode_receive_message_calldata-ReceiveCall hex_codec hex_codec-IsHex
      (text "0x" ++ hex_codec.hex_encode message) (hex_codec.hex_encode signed) receive_call
      (omega arith) (omega arith) receive_encodes

abbrev programs : CctpSolanaClient
programs = record {
  token_messenger_program = replicate 32 9;
  message_transmitter_program = replicate 32 10;
}

read_receive-receive_instruction_example :
    let bs = (receive_instruction desk programs wallet message signed).instruction_data in
    (take 8 bs ≡ take 8 (desk.sha256 (text "global:receive_message")))
    × (read_receive (drop 8 bs) ≡ some (message, signed))
read_receive-receive_instruction_example =
    read_receive-receive_instruction desk programs wallet message signed (omega arith) (omega arith)
      refl

abbrev disc : List ℕ
disc = replicate 8 2

abbrev encoded : Text
encoded = disc ++ (borsh_bytes message ++ [])

trimmed : trim encoded ≡ encoded
unfolding trim borsh_bytes le_bytes u32
trimmed = refl

no_event : log_message fine disc (text "Program log: Instruction") ≡ none
unfolding log_message data_entry strip_prefix text
no_event = refl

scan_logs-event_example :
    scan_logs fine hex_codec disc
      ((text "Program log: Instruction") ∷ ((text "Program data: " ++ encoded) ∷ []))
    ≡ ok (hex_codec.hex_encode message)
scan_logs-event_example =
    scan_logs-event fine hex_codec disc (text "Program log: Instruction" ∷ []) [] encoded message []
      refl (no_event, tt) (ap fine trimmed) (omega arith)

-- A receipt (0) with one log (3), as its parts are numbered.
abbrev receipt_net : Net Machine ℕ ℕ
receipt_net = record {
  post = λ url body m. (fine 0, m);
  get = λ url m. (fine 0, m);
  error_for_status = fine;
  read_json = λ resp m. (fine resp, m);
  index = λ j key. j + 1;
  get_field = λ j key. none;
  as_str = λ j.
      if j == 5
      then some (message_sent_topic hex_codec plain_crypto)
      else some (text "0x" ++ hex_codec.hex_encode (abi_event message (replicate 30 0)));
  as_array = λ j. some (if j == 1 then 3 ∷ [] else 5 ∷ []);
  is_null = λ j. j == 0;
  to_string = λ j. text "{}";
  sleep = λ ms m. m;
}

topic_found :
    has_topic receipt_net hex_codec plain_crypto
      (message_sent_topic hex_codec plain_crypto)
      (first_topic receipt_net hex_codec plain_crypto 3)
    ≡ true
unfolding has_topic first_topic
topic_found =
    (text_eq_iff (message_sent_topic hex_codec plain_crypto)
        (message_sent_topic hex_codec plain_crypto)).1
      refl

data_bytes :
    hex_codec.hex_decode
      (trim_0x (text "0x" ++ hex_codec.hex_encode (abi_event message (replicate 30 0))))
    ≡ fine (abi_event message (replicate 30 0))
unfolding trim_0x text to_hex from_hex hex_digit hex_value be_bytes
data_bytes = refl

abbrev event : Event receipt_net desk 3 message (replicate 30 0)
event = record {
  data_hex = text "0x" ++ hex_codec.hex_encode (abi_event message (replicate 30 0));
  topic = topic_found;
  found = refl;
  bytes = data_bytes;
}

parse_message_sent_from_receipt-event_example :
    (message_bytes : Text) × (parse_message_sent_from_receipt receipt_net hex_codec plain_crypto 0
      ≡ ok message_bytes)
    × (return_reference desk ready (text "0xbb") (text "0x" ++ message_bytes)
        ≡ (cctp_message_hash hex_codec plain_crypto [], 0))
parse_message_sent_from_receipt-event_example =
    parse_message_sent_from_receipt-event receipt_net desk ready 0 3 [] [] message (replicate 30 0)
      (text "0xbb") hex_codec-IsHex refl tt event
