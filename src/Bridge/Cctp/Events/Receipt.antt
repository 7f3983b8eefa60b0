-- ===== src/Bridge/Cctp/Events/Receipt.antt =====
-- What `parse_message_sent_from_receipt` of src/bridge/cctp.rs makes of a log in the layout of the
-- contract ABI, and what `return_reference` of src/executor.rs makes of that.
use pump_poly_router.Base.{
  ℕ, ◌+◌, ◌*◌, ◌≡◌, refl, sym, ap, ◌∙◌, true, false, none, some, List, [], ◌∷◌, ◌++◌, append_assoc,
  arith, ltb, leb, length, replicate, All, length-append, slice,
}
use pump_poly_router.Text.{Text, text, trim_0x, trim_0x_digits}
use pump_poly_router.Error.{ok}
use pump_poly_router.Words.{be_bytes, be_value}
use pump_poly_router.Abi.{word, length-word}
use pump_poly_router.Slices.{slice_range, slice_range-middle, slice-middle}
use pump_poly_router.External.{fine, HexCodec, IsHex, Net}
use pump_poly_router.Platform.{Platform}
use pump_poly_router.Evm.Cctp.{cctp_message_hash, extract_nonce_from_cctp_message}
use pump_poly_router.Bridge.Cctp.{message_sent_topic}
use pump_poly_router.Bridge.Cctp.Events.{
  abi_message, first_topic, has_topic, sent_message, receipt_log, scan_receipt,
  parse_message_sent_from_receipt,
}
use pump_poly_router.Executor.State.{Clients}
use pump_poly_router.Executor.Steps.{return_reference}

-- `bytes` as the only value of an event, as the contract ABI lays it out.
abbrev pub abi_event : List ℕ → List ℕ → List ℕ
abi_event msg padding = word 32 ++ (word (length msg) ++ (msg ++ padding))

no_digits : (t : Text) → length t ≡ 2 * 0 → t ≡ []
no_digits [] e = refl
no_digits (c ∷ t) e = absurd (omega (arith, e))

-- The eight bytes that are read as the length are zeros of its word.
size_read : (msg padding : List ℕ) → be_value (slice 32 8 (abi_event msg padding)) ≡ 0
unfolding be_value
size_read msg padding =
    let tail = replicate 16 0 ++ (be_bytes 8 (length msg) ++ (msg ++ padding)) in
    let shape : abi_event msg padding ≡ word 32 ++ (replicate 8 0 ++ tail) =
      ap (λ x. word 32 ++ x)
        (append_assoc (replicate 24 0) (be_bytes 8 (length msg)) (msg ++ padding)) in
    ap (λ x. be_value (slice 32 8 x)) shape
    ∙ ap be_value (slice-middle 32 8 (word 32) (replicate 8 0) tail (length-word 32) refl)

abi_message-event :
    (hex : HexCodec) (msg padding : List ℕ)
    → abi_message hex (abi_event msg padding) ≡ ok (some (hex.hex_encode []))
unfolding abi_message
abi_message-event hex msg padding =
    let whole : length (abi_event msg padding) ≡ 64 + length (msg ++ padding) =
      length-append (word 32) (word (length msg) ++ (msg ++ padding))
      ∙ omega (
        arith,
        length-append (word (length msg)) (msg ++ padding),
        length-word 32,
        length-word (length msg),
      ) in
    let long : ltb (length (abi_event msg padding)) 64 ≡ false = ground (arith, whole) in
    let inside : leb 64 (length (abi_event msg padding)) ≡ true = ground (arith, whole) in
    let nothing : slice_range 64 64 (abi_event msg padding) ≡ ok [] =
      ap (slice_range 64 64) (sym (append_assoc (word 32) (word (length msg)) (msg ++ padding)))
      ∙ slice_range-middle 64 64 (word 32 ++ word (length msg)) [] (msg ++ padding)
          (length-append (word 32) (word (length msg))
            ∙ omega (arith, length-word 32, length-word (length msg)))
          refl in
    rw (long, size_read msg padding, inside, nothing) refl

module _ {World Response Json : Type 0} (net : Net World Response Json) (p : Platform World) where
  -- A log of a `MessageSent` event that carries `msg`.
  pub record Event (log : Json) (msg padding : List ℕ) : Type 0 where
    pub data_hex : Text
    pub topic :
        has_topic net p.hex p.crypto
          (message_sent_topic p.hex p.crypto)
          (first_topic net p.hex p.crypto log)
        ≡ true
    pub found : net.as_str (net.index log (text "data")) ≡ some data_hex
    pub bytes : p.hex.hex_decode (trim_0x data_hex) ≡ fine (abi_event msg padding)

  sent_message-event :
      (log : Json) (msg padding : List ℕ)
      → (e : Event log msg padding)
      → sent_message net p.hex p.crypto log ≡ ok (some (p.hex.hex_encode []))
  unfolding sent_message
  sent_message-event log msg padding e = rw (e.found, e.bytes) (abi_message-event p.hex msg padding)

  receipt_log-event :
      (log : Json) (msg padding : List ℕ)
      → (e : Event log msg padding)
      → receipt_log net p.hex p.crypto log ≡ ok (some (p.hex.hex_encode []))
  unfolding receipt_log
  receipt_log-event log msg padding e = rw e.topic (sent_message-event log msg padding e)

  scan_receipt-event :
      (before after : List Json) (log : Json) (msg padding : List ℕ)
      → All (λ l. receipt_log net p.hex p.crypto l ≡ ok none) before
      → Event log msg padding
      → scan_receipt net p.hex p.crypto (before ++ (log ∷ after)) ≡ ok (p.hex.hex_encode [])
  unfolding scan_receipt
  scan_receipt-event [] after log msg padding quiet e =
      rw (receipt_log-event log msg padding e, scan_receipt) refl
  scan_receipt-event (l ∷ before) after log msg padding (none_here, quiet) e =
      rw (none_here, scan_receipt) (scan_receipt-event before after log msg padding quiet e)

  return_reference-empty :
      (c : Clients World) (deposit_tx : Text)
      → IsHex p.hex
      → return_reference p c deposit_tx (text "0x" ++ p.hex.hex_encode [])
        ≡ (cctp_message_hash p.hex p.crypto [], 0)
  unfolding return_reference extract_nonce_from_cctp_message
  return_reference-empty c deposit_tx codec =
      let nothing : p.hex.hex_encode [] ≡ [] =
        no_digits (p.hex.hex_encode []) (codec.length-encode []) in
      let back : p.hex.hex_decode [] ≡ fine [] = rw nothing at (codec.decode-encode [] tt) in
      let trimmed : trim_0x (text "0x" ++ p.hex.hex_encode []) ≡ [] =
        trim_0x_digits (p.hex.hex_encode []) (codec.encode_digits []) ∙ nothing in
      let read : p.hex.hex_decode (trim_0x (text "0x" ++ p.hex.hex_encode [])) ≡ fine [] =
        ap p.hex.hex_decode trimmed ∙ back in
      rw (read, return_reference) refl

  -- A receipt whose first readable `MessageSent` log carries a message in the layout of the contract
  -- ABI, whatever the message is, gives an empty message, and the reference that the executor then
  -- stores for the return leg is the hash of no bytes with nonce 0.
  pub parse_message_sent_from_receipt-event :
      (c : Clients World) (receipt log : Json) (before after : List Json) (msg padding : List ℕ)
      (deposit_tx : Text)
      → IsHex p.hex
      → net.as_array (net.index receipt (text "logs")) ≡ some (before ++ (log ∷ after))
      → All (λ l. receipt_log net p.hex p.crypto l ≡ ok none) before
      → Event log msg padding
      → (message_bytes : Text) × (parse_message_sent_from_receipt net p.hex p.crypto receipt
          ≡ ok message_bytes)
        × (return_reference p c deposit_tx (text "0x" ++ message_bytes)
            ≡ (cctp_message_hash p.hex p.crypto [], 0))
  unfolding parse_message_sent_from_receipt
  parse_message_sent_from_receipt-event c receipt log before after msg padding deposit_tx codec logs
        quiet e =
      (
        p.hex.hex_encode [],
        rw logs (scan_receipt-event before after log msg padding quiet e),
        return_reference-empty c deposit_tx codec,
      )
