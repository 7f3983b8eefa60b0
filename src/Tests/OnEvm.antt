-- ===== src/Tests/OnEvm.antt =====
-- The theorems on transactions and messages, applied.
use pump_poly_router.Base.{
  ℕ, ◌≡◌, refl, arith, List, [], ◌∷◌, ◌++◌, some, replicate, map, All-replicate, length,
}
use pump_poly_router.Text.{Text, text, trim_0x}
use pump_poly_router.Error.{Result, ok}
use pump_poly_router.Words.{IsByte, IsU64, be_bytes, strip_leading_zeros}
use pump_poly_router.External.{fine}
use pump_poly_router.Evm.Rlp.{
  RlpItem, bytes, uint, big_uint256, encode, encode_uint, encode_bytes, encode_items, rlp_encode,
}
use pump_poly_router.Evm.Rlp.Decode.{rlp_decode}
use pump_poly_router.Evm.Rlp.RoundTrip.{item_bytes, rlp_decode-rlp_encode}
use pump_poly_router.Evm.Signer.{Transaction, signing_items, sign_fields}
use pump_poly_router.Evm.Signer.Signed.{
  IsTransaction, signing_payload_injective, signed_by, sign_fields_decodes,
}
use pump_poly_router.Tests.Codecs.{hex_codec, hex_codec-IsHex, plain_crypto, plain_crypto-IsCrypto}

abbrev items : List RlpItem
items = uint 0 ∷ bytes (5 ∷ []) ∷ bytes (1 ∷ 2 ∷ []) ∷ uint 1024 ∷ big_uint256 (replicate 32 0) ∷ []

items_fit : IsU64 (length (encode_items items))
unfolding encode_items encode encode_uint encode_bytes strip_leading_zeros be_bytes
items_fit = omega arith

rlp_decode-rlp_encode_example : rlp_decode (rlp_encode items) ≡ some (map item_bytes items)
rlp_decode-rlp_encode_example = rlp_decode-rlp_encode items (omega arith) items_fit

abbrev payment : Transaction
payment = record {
  nonce = 3;
  gas_price = 30_000_000_000;
  gas_limit = 150_000;
  to = replicate 20 0x11;
  value = 0;
  calldata = replicate 4 0xab;
}

payment-IsTransaction : IsTransaction payment
payment-IsTransaction = record {
  nonce = omega arith;
  gas_price = omega arith;
  gas_limit = omega arith;
  value = omega arith;
  fits = omega arith;
}

abbrev polygon : ℕ
polygon = 137

signing_payload_injective_example : (polygon ≡ polygon) × (payment ≡ payment)
signing_payload_injective_example =
    signing_payload_injective polygon polygon payment payment (omega arith) (omega arith)
      payment-IsTransaction payment-IsTransaction refl

abbrev signed_payment : Result Text
signed_payment = sign_fields hex_codec plain_crypto 137 (replicate 32 1) payment

abbrev raw_payment : Text
raw_payment =
    text "0x"
    ++ hex_codec.hex_encode
        (rlp_encode (signed_by plain_crypto 137 (replicate 32 1) (replicate 32 7) payment))

signed_payment_check : signed_payment ≡ ok raw_payment
unfolding sign_fields
signed_payment_check = refl

sign_fields_decodes_example :
    (msg body : List ℕ) × (plain_crypto.parse_message
        (plain_crypto.keccak256 (rlp_encode (signing_items 137 payment)))
      ≡ some msg)
    × (hex_codec.hex_decode (trim_0x raw_payment) ≡ fine body)
    × (rlp_decode body
        ≡ some (map item_bytes (signed_by plain_crypto 137 (replicate 32 1) msg payment)))
sign_fields_decodes_example =
    sign_fields_decodes hex_codec plain_crypto hex_codec-IsHex plain_crypto-IsCrypto 137
      (replicate 32 1) payment raw_payment payment-IsTransaction
      (All-replicate IsByte 20 0x11 (omega arith)) (All-replicate IsByte 4 0xab (omega arith))
      signed_payment_check
