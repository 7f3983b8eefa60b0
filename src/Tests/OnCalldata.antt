-- ===== src/Tests/OnCalldata.antt =====
-- The theorems on the calldata of the return leg, applied.
use pump_poly_router.Base.{◌≡◌, ◌↔◌, refl, arith, ◌++◌, replicate, All-replicate, ◌≢◌}
use pump_poly_router.Text.{Text, text, trim_0x, hex_value}
use pump_poly_router.Error.{ok}
use pump_poly_router.Words.{IsByte}
use pump_poly_router.Bridge.Cctp.{
  burn_arguments, burn_calldata, deposit_for_burn_polygon_selector, evm_addr_to_bytes32,
}
use pump_poly_router.Bridge.Cctp.Burn.{BurnCall, burn_calldata-BurnCall}
use pump_poly_router.Bridge.Cctp.Recipient.{evm_addr_to_bytes32-pad32_address}
use pump_poly_router.Polymarket.Settlement.{pad32_address}
use pump_poly_router.Tests.Codecs.{from_hex, hex_codec, hex_codec-IsHex, plain_crypto}

abbrev usdc : Text
usdc = text "0x" ++ replicate 40 b'1'

abbrev burn_call : Text
burn_call =
    text "0x"
    ++ (hex_codec.hex_encode (deposit_for_burn_polygon_selector hex_codec plain_crypto)
        ++ hex_codec.hex_encode (burn_arguments 700 (replicate 32 6) (replicate 20 0x11)))

burn_encodes : burn_calldata hex_codec plain_crypto 700 (replicate 32 6) usdc ≡ ok burn_call
unfolding burn_calldata trim_0x text from_hex hex_value
burn_encodes = refl

burn_calldata-BurnCall_example : BurnCall hex_codec plain_crypto 700 (replicate 32 6) usdc burn_call
burn_calldata-BurnCall_example =
    burn_calldata-BurnCall hex_codec plain_crypto hex_codec-IsHex 700 (replicate 32 6) usdc
      burn_call (omega arith) refl (All-replicate IsByte 32 6 (omega arith)) burn_encodes

evm_addr_to_bytes32-pad32_address_example :
    (evm_addr_to_bytes32 hex_codec usdc ≡ ok (replicate 12 0 ++ replicate 20 0x11))
    ↔ (pad32_address hex_codec usdc ≡ ok (replicate 12 0 ++ replicate 20 0x11))
evm_addr_to_bytes32-pad32_address_example =
    evm_addr_to_bytes32-pad32_address hex_codec (replicate 40 b'1')
      (replicate 12 0 ++ replicate 20 0x11) (All-replicate (λ c. c ≢ b'x') 40 b'1' (omega arith))
