-- ===== src/Evm/Cctp.antt =====
-- The CCTP message helpers of src/evm/signer.rs: the attestation hash and the nonce of a raw message.
use pump_poly_router.Base.{
  ℕ, ◌≡◌, List, ◌++◌, arith, ltb, false, if◌then◌else◌, length, slice, length-append,
  take-append_left, drop-append_left,
}
use pump_poly_router.Text.{Text, text}
use pump_poly_router.Words.{IsU64, be_bytes, be_value}
use pump_poly_router.Words.Bytes.{length-be_bytes, be_value-be_bytes}
use pump_poly_router.External.{HexCodec, Crypto}

module _ (hex : HexCodec) (crypto : Crypto) where
  unfoldable pub cctp_message_hash : List ℕ → Text
  cctp_message_hash message_bytes = text "0x" ++ hex.hex_encode (crypto.keccak256 message_bytes)

-- `msg[12..20]` as a big-endian u64, or 0 for a short message.
unfoldable pub extract_nonce_from_cctp_message : List ℕ → ℕ
extract_nonce_from_cctp_message msg = if ltb (length msg) 20 then 0 else be_value (slice 12 8 msg)

-- A CCTP message as Circle lays it out: version, source and destination domain, nonce, body.
abbrev pub cctp_message : ℕ → ℕ → ℕ → ℕ → List ℕ → List ℕ
cctp_message version source destination nonce body =
    (be_bytes 4 version ++ (be_bytes 4 source ++ be_bytes 4 destination))
    ++ (be_bytes 8 nonce ++ body)

header_length :
    (version source destination : ℕ)
    → length (be_bytes 4 version ++ (be_bytes 4 source ++ be_bytes 4 destination)) ≡ 12
header_length version source destination =
    rw (length-append, length-append)
      (omega
        (arith, length-be_bytes 4 version, length-be_bytes 4 source, length-be_bytes 4 destination))

-- From a message in Circle's layout, `extract_nonce_from_cctp_message` reads the nonce, whatever the
-- other fields and the body are.
pub extract_nonce-cctp_message :
    (version source destination nonce : ℕ) (body : List ℕ)
    → IsU64 nonce
    → extract_nonce_from_cctp_message (cctp_message version source destination nonce body) ≡ nonce
unfolding extract_nonce_from_cctp_message
extract_nonce-cctp_message version source destination nonce body h =
    let front : List ℕ = be_bytes 4 version ++ (be_bytes 4 source ++ be_bytes 4 destination) in
    let long : ltb (length (front ++ (be_bytes 8 nonce ++ body))) 20 ≡ false = ground (
      arith,
      length-append front (be_bytes 8 nonce ++ body),
      length-append (be_bytes 8 nonce) body,
      header_length version source destination,
      length-be_bytes 8 nonce,
    ) in
    rw long (
      rw
        (drop-append_left 12 front (be_bytes 8 nonce ++ body)
          (header_length version source destination))
        (rw (take-append_left 8 (be_bytes 8 nonce) body (length-be_bytes 8 nonce))
          (be_value-be_bytes 8 nonce (omega arith))))
