-- ===== src/Bridge/Cctp.antt =====
-- src/bridge/cctp.rs: the byte formats of both sides. `Solana` and `Polygon` are the two clients.
pub mod Solana
pub mod Polygon
pub mod Calldata
pub mod Borsh
pub mod Burn
pub mod Recipient
pub mod Events
use pump_poly_router.Base.{
  ℕ, ◌+◌, ◌-◌, ◌*◌, ◌/◌, List, [], ◌∷◌, ◌++◌, ◌==◌, if◌then◌else◌, length, replicate, take,
}
use pump_poly_router.Text.{Text, text, trim_0x, strip_0x, pad_left, lower_hex}
use pump_poly_router.Error.{config, cctp_receive, cctp_deposit, Result, ok, err, ◌>>=◌}
use pump_poly_router.Words.{be_bytes, le_bytes, u32}
use pump_poly_router.Slices.{copied_behind}
use pump_poly_router.Effect.{of_reply}
use pump_poly_router.External.{HexCodec, Crypto}
use pump_poly_router.Config.{cctp_polygon_domain, cctp_solana_domain}

unfoldable pub pad32 : ℕ → List ℕ
pad32 val = replicate 24 0 ++ be_bytes 8 val

-- `((len + 31) / 32) * 32`
abbrev pub padded_len : ℕ → ℕ
padded_len len = (len + 31) / 32 * 32

abbrev pub receive_message_selector : Text
receive_message_selector = text "57ecfd28"

abbrev pub approve_selector : Text
approve_selector = text "095ea7b3"

abbrev pub deposit_for_burn_discriminator : List ℕ
deposit_for_burn_discriminator = 0x9c ∷ 0x91 ∷ 0x72 ∷ 0x37 ∷ 0xf8 ∷ 0xa4 ∷ 0x24 ∷ 0x73 ∷ []

-- The words and byte strings behind the selector.
unfoldable pub receive_arguments : List ℕ → List ℕ → List ℕ
receive_arguments msg_bytes att_bytes =
    let msg_padded_len = padded_len (length msg_bytes) in
    let att_padded_len = padded_len (length att_bytes) in
    let att_offset = 64 + 32 + msg_padded_len in
    pad32 64
    ++ (pad32 att_offset
        ++ (pad32 (length msg_bytes)
            ++ (msg_bytes
                ++ (replicate (msg_padded_len - length msg_bytes) 0
                    ++ (pad32 (length att_bytes)
                        ++ (att_bytes ++ replicate (att_padded_len - length att_bytes) 0))))))

-- The instruction data of `depositForBurn` on Solana: the discriminator and `DepositForBurnParams`
-- in Borsh.
unfoldable pub burn_data : ℕ → List ℕ → List ℕ
burn_data amount mint_recipient =
    deposit_for_burn_discriminator
    ++ (le_bytes 8 amount ++ (le_bytes 4 cctp_polygon_domain ++ mint_recipient))

-- A `Vec<u8>` in Borsh, its length cut to a u32.
unfoldable pub borsh_bytes : List ℕ → List ℕ
borsh_bytes bs = le_bytes 4 (u32 (length bs)) ++ bs

-- The instruction data of `receiveMessage` on Solana, behind the discriminator.
unfoldable pub receive_data : List ℕ → List ℕ → List ℕ
receive_data message attestation = borsh_bytes message ++ borsh_bytes attestation

-- The arguments of `depositForBurn` on Polygon, for the decoded address of the burnt token.
unfoldable pub burn_arguments : ℕ → List ℕ → List ℕ → List ℕ
burn_arguments amount solana_recipient token_bytes =
    pad32 amount
    ++ ((replicate 28 0 ++ be_bytes 4 cctp_solana_domain)
        ++ (solana_recipient
            ++ (if length token_bytes == 20
                then replicate 12 0 ++ token_bytes
                else replicate 32 0)))

module _ (hex : HexCodec) where
  unfoldable pub evm_addr_to_bytes32 : Text → Result (List ℕ)
  unfolding copied_behind
  evm_addr_to_bytes32 addr =
      if length (strip_0x addr) == 40
      then (do
        bytes ←
            of_reply (hex.hex_decode (strip_0x addr))
              (λ _. config (text "invalid hex in EVM address: " ++ addr))
        copied_behind 12 bytes)
      else err (config (text "EVM address wrong length: " ++ addr))

  unfoldable pub encode_receive_message_calldata : Text → Text → Result Text
  encode_receive_message_calldata message attestation = do
    msg_bytes ← of_reply (hex.hex_decode (trim_0x message)) cctp_receive
    att_bytes ← of_reply (hex.hex_decode (trim_0x attestation)) cctp_receive
    ok (
        text "0x"
        ++ (receive_message_selector ++ hex.hex_encode (receive_arguments msg_bytes att_bytes)))

-- The calldata of `approve_usdc`.
unfoldable pub approve_calldata : Text → ℕ → Text
approve_calldata spender amount =
    text "0x"
    ++ (approve_selector
        ++ ((text "000000000000000000000000" ++ trim_0x spender) ++ pad_left 64 (lower_hex amount)))

module _ (hex : HexCodec) (crypto : Crypto) where
  unfoldable pub deposit_for_burn_polygon_selector : List ℕ
  deposit_for_burn_polygon_selector =
      take 4 (crypto.keccak256 (text "depositForBurn(uint256,uint32,bytes32,address)"))

  -- `format!("0x{}", hex::encode(message_sent_topic0()))`
  unfoldable pub message_sent_topic : Text
  message_sent_topic = text "0x" ++ hex.hex_encode (crypto.keccak256 (text "MessageSent(bytes)"))

  -- The calldata of `depositForBurn` on Polygon.
  unfoldable pub burn_calldata : ℕ → List ℕ → Text → Result Text
  burn_calldata amount solana_recipient usdc_token_address = do
    token_bytes ←
        of_reply (hex.hex_decode (trim_0x usdc_token_address))
          (λ _. cctp_deposit (text "invalid USDC token address"))
    ok (
        text "0x"
        ++ (hex.hex_encode deposit_for_burn_polygon_selector
            ++ hex.hex_encode (burn_arguments amount solana_recipient token_bytes)))
