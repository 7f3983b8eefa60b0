-- ===== src/Evm/Signer/Signed.antt =====
-- What a signed transaction of src/evm/signer.rs says to the independent RLP reader, and what its
-- signature covers.
use pump_poly_router.Base.{
  ℕ, ◌+◌, ◌*◌, ◌^◌, ◌<◌, ◌≡◌, sym, ap, ◌∙◌, List, [], ◌∷◌, ◌++◌, some, arith, length, length-take,
  length-drop, take, drop, All, All-take, All-drop, map, inl, inr, Option-cases,
}
use pump_poly_router.Text.{Text, text, trim_0x, trim_0x_digits}
use pump_poly_router.Error.{ok}
use pump_poly_router.Words.{IsU64, IsByte, u64, be_value}
use pump_poly_router.Words.Bytes.{length-strip_leading_zeros}
use pump_poly_router.External.{HexCodec, Crypto, IsHex, IsCrypto, fine}
use pump_poly_router.Evm.Rlp.{RlpItem, bytes, uint, big_uint256, encode_items, rlp_encode}
use pump_poly_router.Evm.Rlp.Decode.{rlp_decode}
use pump_poly_router.Evm.Rlp.RoundTrip.{
  item_bytes, IsItem, HasBytes, rlp_encode-IsByte, content_length, rlp_decode-rlp_encode,
  rlp_encode_injective, length-encode_items, length-uint, be_value-item_bytes,
}
use pump_poly_router.Evm.Signer.{Transaction, signing_items, eip155_v, sign_fields}

-- The fields are u64s, and the two byte strings fit a memory of 2 ^ 63 bytes together.
pub record IsTransaction (t : Transaction) : Type 0 where
  pub nonce : IsU64 t.nonce
  pub gas_price : IsU64 t.gas_price
  pub gas_limit : IsU64 t.gas_limit
  pub value : IsU64 t.value
  pub fits : length t.to + length t.calldata < 2 ^ 63

signing_items-IsItem :
    (chain_id : ℕ) (t : Transaction)
    → IsU64 chain_id
    → IsTransaction t
    → All IsItem (signing_items chain_id t)
signing_items-IsItem chain_id t c h = omega arith

-- Reading an integer item gives its value.
uint_eq : (a b : ℕ) → IsU64 a → IsU64 b → item_bytes (uint a) ≡ item_bytes (uint b) → a ≡ b
uint_eq a b ha hb e = sym (be_value-item_bytes a ha) ∙ (ap be_value e ∙ be_value-item_bytes b hb)

content_length-signing_items :
    (chain_id : ℕ) (t : Transaction)
    → IsTransaction t
    → content_length (signing_items chain_id t) < 2 ^ 64
content_length-signing_items chain_id t h = omega (
  arith,
  length-uint t.nonce,
  length-uint t.gas_price,
  length-uint t.gas_limit,
  length-uint t.value,
  length-uint chain_id,
  length-uint 0,
)

-- The payload that is hashed and signed determines the chain and the transaction: no signature
-- covers two different ones (hash collisions apart), and none is valid on another chain.
pub signing_payload_injective :
    (c d : ℕ) (t u : Transaction)
    → IsU64 c
    → IsU64 d
    → IsTransaction t
    → IsTransaction u
    → rlp_encode (signing_items c t) ≡ rlp_encode (signing_items d u)
    → (c ≡ d) × (t ≡ u)
signing_payload_injective c d t u hc hd ht hu e =
    let same =
      rlp_encode_injective (signing_items c t) (signing_items d u) (signing_items-IsItem c t hc ht)
        (signing_items-IsItem d u hd hu) (content_length-signing_items c t ht)
        (content_length-signing_items d u hu) e in
    ground (
      arith,
      same,
      uint_eq c d,
      uint_eq t.nonce u.nonce,
      uint_eq t.gas_price u.gas_price,
      uint_eq t.gas_limit u.gas_limit,
      uint_eq t.value u.value,
    )

eip155_v_lem : (chain_id rec_id : ℕ) → eip155_v chain_id rec_id ≡ u64 (2 * chain_id + 35 + rec_id)
eip155_v_lem chain_id rec_id = omega arith

-- The nine fields of a signed transaction, as EIP-155 lists them.
abbrev pub signed_by : Crypto → ℕ → List ℕ → List ℕ → Transaction → List RlpItem
signed_by crypto chain_id sk msg t =
    let sig = crypto.sign msg sk in
    uint t.nonce
    ∷ uint t.gas_price
    ∷ uint t.gas_limit
    ∷ bytes t.to
    ∷ uint t.value
    ∷ bytes t.calldata
    ∷ uint (u64 (2 * chain_id + 35 + sig.1))
    ∷ big_uint256 (take 32 sig.0)
    ∷ big_uint256 (drop 32 sig.0)
    ∷ []

module _ (hex : HexCodec) (crypto : Crypto) (is_hex : IsHex hex) (is_crypto : IsCrypto crypto) where
  module _ (chain_id : ℕ) (sk msg : List ℕ) (t : Transaction) (h : IsTransaction t)
      (to_bytes : All IsByte t.to) (data_bytes : All IsByte t.calldata) where
    signed_by-IsItem : All IsItem (signed_by crypto chain_id sk msg t)
    signed_by-IsItem =
        let sig = crypto.sign msg sk in
        omega (arith, length-take 32 sig.0, length-drop 32 sig.0, is_crypto.length-sign msg sk)

    signed_by-HasBytes : All HasBytes (signed_by crypto chain_id sk msg t)
    signed_by-HasBytes =
        let sig = (crypto.sign msg sk).0 in
        let sig_bytes = is_crypto.sign_bytes msg sk in
        (
          tt,
          (
            tt,
            (
              tt,
              (
                to_bytes,
                (
                  tt,
                  (
                    data_bytes,
                    (
                      tt,
                      (All-take IsByte 32 sig sig_bytes, (All-drop IsByte 32 sig sig_bytes, tt)),
                    ),
                  ),
                ),
              ),
            ),
          ),
        )

    content_length-signed_by : content_length (signed_by crypto chain_id sk msg t) < 2 ^ 64
    content_length-signed_by =
        let sig = crypto.sign msg sk in
        omega (
          arith,
          length-uint t.nonce,
          length-uint t.gas_price,
          length-uint t.gas_limit,
          length-uint t.value,
          length-uint (u64 (2 * chain_id + 35 + sig.1)),
          length-strip_leading_zeros (take 32 sig.0),
          length-strip_leading_zeros (drop 32 sig.0),
          length-take 32 sig.0,
          length-drop 32 sig.0,
          is_crypto.length-sign msg sk,
        )

    signed_by_fits : IsU64 (length (encode_items (signed_by crypto chain_id sk msg t)))
    signed_by_fits = omega (
      arith,
      length-encode_items (signed_by crypto chain_id sk msg t) signed_by-IsItem,
      content_length-signed_by,
    )

  -- What `sign_transaction` returns for decoded fields is the `0x`-prefixed hex of bytes that an
  -- independent RLP reader takes apart into exactly the nonce, gas price, gas limit, recipient, value
  -- and calldata given, then v = 2 * chain_id + 35 + recovery id (as a u64), r and s of the signature over the
  -- hash of the signing payload. (The codec and the signature sizes are as the crates document.)
  pub sign_fields_decodes :
      (chain_id : ℕ) (sk : List ℕ) (t : Transaction) (raw : Text)
      → IsTransaction t
      → All IsByte t.to
      → All IsByte t.calldata
      → sign_fields hex crypto chain_id sk t ≡ ok raw
      → (msg body : List ℕ) × (crypto.parse_message
            (crypto.keccak256 (rlp_encode (signing_items chain_id t)))
          ≡ some msg)
        × (hex.hex_decode (trim_0x raw) ≡ fine body)
        × (rlp_decode body ≡ some (map item_bytes (signed_by crypto chain_id sk msg t)))
  unfolding sign_fields
  sign_fields_decodes chain_id sk t raw h hto hdata e =
      elim (Option-cases
        (crypto.parse_message (crypto.keccak256 (rlp_encode (signing_items chain_id t))))) [
          | inl missing ↦ absurd (cc (rw missing at e))
          | inr (msg, found) ↦
              let items = signed_by crypto chain_id sk msg t in
              let fits = signed_by_fits chain_id sk msg t h hto hdata in
              let all_items = signed_by-IsItem chain_id sk msg t h hto hdata in
              let all_bytes = signed_by-HasBytes chain_id sk msg t h hto hdata in
              let body = rlp_encode items in
              let shape : ok (text "0x" ++ hex.hex_encode body) ≡ ok raw =
                rw (found, eip155_v_lem chain_id (crypto.sign msg sk).1) at e in
              let same : text "0x" ++ hex.hex_encode body ≡ raw = cc shape in
              (
                msg,
                body,
                found,
                rw (← same, trim_0x_digits (hex.hex_encode body) (is_hex.encode_digits body))
                    (is_hex.decode-encode body (rlp_encode-IsByte items all_items all_bytes fits)),
                rlp_decode-rlp_encode items all_items fits,
              )
        ]
