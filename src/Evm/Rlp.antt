-- ===== src/Evm/Rlp.antt =====
-- The RLP encoder of src/evm/signer.rs. A byte slice is a list of numbers below 256; a `usize` length
-- is the list's length.
pub mod Decode
pub mod Header
pub mod RoundTrip
use pump_poly_router.Base.{
  ℕ, ◌+◌, ◌^◌, ◌<◌, List, [], ◌∷◌, ◌++◌, Bool, false, ltb, ◌==◌, if◌then◌else◌, length,
}
use pump_poly_router.Words.{u8, u64, be_bytes, strip_leading_zeros}

-- `RlpItem`
pub data RlpItem : Type 0 where
  bytes : List ℕ → RlpItem
  uint : ℕ → RlpItem
  big_uint256 : List ℕ → RlpItem

unfoldable pub encode_length : ℕ → ℕ → List ℕ
encode_length len offset =
    if ltb len 56
    then u8 (offset + u8 len) ∷ []
    else (let stripped = strip_leading_zeros (be_bytes 8 (u64 len)) in
        (u8 (u8 (offset + 55) + u8 (length stripped)) ∷ []) ++ stripped)

abbrev is_single : List ℕ → Bool
is_single (b ∷ []) = ltb b 0x80
is_single _ = false

-- `b.len() == 1 && b[0] < 0x80` chooses the byte itself.
unfoldable pub encode_bytes : List ℕ → List ℕ
unfolding encode_length
encode_bytes b = if is_single b then b else encode_length (length b) 0x80 ++ b

unfoldable pub encode_uint : ℕ → List ℕ
encode_uint v = if v == 0 then 0x80 ∷ [] else encode_bytes (strip_leading_zeros (be_bytes 8 v))

-- `RlpItem::encode`
unfoldable pub encode : RlpItem → List ℕ
encode (uint v) = encode_uint v
encode (bytes b) = encode_bytes b
encode (big_uint256 b) = encode_bytes (strip_leading_zeros b)

unfoldable pub wrap_list : List ℕ → List ℕ
wrap_list payload = encode_length (length payload) 0xc0 ++ payload

-- The loop of `rlp_encode` over the items.
unfoldable pub encode_items : List RlpItem → List ℕ
encode_items [] = []
encode_items (item ∷ items) = encode item ++ encode_items items

unfoldable pub rlp_encode : List RlpItem → List ℕ
rlp_encode items = wrap_list (encode_items items)
