-- ===== src/Evm/Rlp/RoundTrip.antt =====
-- The encoder of src/evm/signer.rs and the reader of `Decode`, on lists of items.
use pump_poly_router.Base.{
  ℕ, zero, suc, ◌+◌, ◌^◌, ◌≤◌, ◌<◌, ◌≡◌, refl, ◌∙◌, List, [], ◌∷◌, ◌++◌, none, some, arith, ◌==◌,
  length, length-append, append-nil, All, All-append, map, Bool-cases, inl, inr,
}
use pump_poly_router.Words.{IsByte, IsU64, be_bytes, be_value, strip_leading_zeros}
use pump_poly_router.Words.Bytes.{
  length-be_bytes, be_bytes-IsByte, strip_leading_zeros-IsByte, be_value-be_bytes,
  be_value-strip_leading_zeros, length-strip_leading_zeros,
}
use pump_poly_router.Evm.Rlp.{
  RlpItem, bytes, uint, big_uint256, encode, encode_uint, encode_bytes, encode_items, wrap_list,
  encode_length, rlp_encode,
}
use pump_poly_router.Evm.Rlp.Decode.{read_item, read_list, read_items, rlp_decode}
use pump_poly_router.Evm.Rlp.Header.{
  read_item-encode_bytes, encode_bytes-ne-nil, length-encode_bytes, encode_length-IsByte,
  encode_bytes-IsByte, read_list-encode_length,
}

-- The byte string that an item stands for: an integer is written big-endian with no leading zero.
abbrev pub item_bytes : RlpItem → List ℕ
item_bytes (bytes b) = b
item_bytes (uint v) = strip_leading_zeros (be_bytes 8 v)
item_bytes (big_uint256 b) = strip_leading_zeros b

-- An item that the Rust type can hold: a u64, or a slice of fewer than 2 ^ 64 bytes.
abbrev pub IsItem : RlpItem → Type 0
IsItem (bytes b) = IsU64 (length b)
IsItem (uint v) = IsU64 v
IsItem (big_uint256 b) = length b ≡ 32

encode-uint : (v : ℕ) → IsU64 v → encode (uint v) ≡ encode_bytes (item_bytes (uint v))
unfolding encode encode_uint
encode-uint v h = elim (Bool-cases (v == 0)) [
  | inl z ↦
      let e : v ≡ 0 = ground arith in
      rw e (unfold encode_bytes strip_leading_zeros be_bytes in refl)
  | inr n ↦ rw n
]

encode-eq-encode_bytes : (i : RlpItem) → IsItem i → encode i ≡ encode_bytes (item_bytes i)
encode-eq-encode_bytes (bytes b) h = unfold encode in refl
encode-eq-encode_bytes (uint v) h = encode-uint v h
encode-eq-encode_bytes (big_uint256 b) h = unfold encode in refl

item_bytes_fit : (i : RlpItem) → IsItem i → IsU64 (length (item_bytes i))
item_bytes_fit (bytes b) h = h
item_bytes_fit (uint v) h =
    omega (arith, length-strip_leading_zeros (be_bytes 8 v), length-be_bytes 8 v)
item_bytes_fit (big_uint256 b) h = omega (arith, length-strip_leading_zeros b)

read_item-encode :
    (i : RlpItem) (rest : List ℕ)
    → IsItem i
    → read_item (encode i ++ rest) ≡ some (item_bytes i, rest)
read_item-encode i rest h =
    rw (encode-eq-encode_bytes i h)
      (read_item-encode_bytes (item_bytes i) rest (item_bytes_fit i h))

encode-ne-nil : (i : RlpItem) → IsItem i → 0 < length (encode i)
encode-ne-nil i h =
    rw (encode-eq-encode_bytes i h) (encode_bytes-ne-nil (item_bytes i) (item_bytes_fit i h))

read_items_step :
    (fuel : ℕ) (bs item rest : List ℕ)
    → 0 < length bs
    → read_item bs ≡ some (item, rest)
    → read_items (suc fuel) bs
      ≡ (elim (read_items fuel rest) [ none ↦ none | some items ↦ some (item ∷ items) ])
unfolding read_items
read_items_step fuel [] item rest h e = absurd (omega arith)
read_items_step fuel (b ∷ bs) item rest h e = ground (arith, e)

read_items-encode_items :
    (items : List RlpItem) (fuel : ℕ)
    → All IsItem items
    → length (encode_items items) ≤ fuel
    → read_items fuel (encode_items items) ≡ some (map item_bytes items)
unfolding encode_items
read_items-encode_items [] zero h f = unfold read_items in refl
read_items-encode_items [] (suc fuel) h f = unfold read_items in refl
read_items-encode_items (i ∷ items) zero (hi, h) f =
    absurd (omega (arith, length-append (encode i) (encode_items items), encode-ne-nil i hi))
read_items-encode_items (i ∷ items) (suc fuel) (hi, h) f =
    let len = length-append (encode i) (encode_items items) in
    let pos = encode-ne-nil i hi in
    let more : read_items fuel (encode_items items) ≡ some (map item_bytes items) =
      read_items-encode_items items fuel h (omega arith) in
    read_items_step fuel _ (item_bytes i) (encode_items items) (omega arith)
      (read_item-encode i (encode_items items) hi)
    ∙ rw more

-- For items that the Rust types can hold and a payload of fewer than 2 ^ 64 bytes, a reader written
-- from the Ethereum specification recovers from `rlp_encode` the byte string of each item, in order.
pub rlp_decode-rlp_encode :
    (items : List RlpItem)
    → All IsItem items
    → IsU64 (length (encode_items items))
    → rlp_decode (rlp_encode items) ≡ some (map item_bytes items)
unfolding rlp_decode rlp_encode wrap_list
rlp_decode-rlp_encode items h fits =
    let payload = encode_items items in
    let head : read_list (encode_length (length payload) 0xc0 ++ payload) ≡ some (payload, []) =
      rw append-nil at (read_list-encode_length payload [] fits) in
    rw head (read_items-encode_items items (length payload) h (omega arith))

-- The value of an integer item is recovered from its bytes.
pub be_value-item_bytes : (v : ℕ) → IsU64 v → be_value (item_bytes (uint v)) ≡ v
be_value-item_bytes v h =
    be_value-strip_leading_zeros (be_bytes 8 v) ∙ be_value-be_bytes 8 v (omega arith)

-- An encoded item is at most nine bytes longer than its content.
length-encode : (i : RlpItem) → IsItem i → length (encode i) ≤ length (item_bytes i) + 9
length-encode i h =
    rw (encode-eq-encode_bytes i h) (length-encode_bytes (item_bytes i) (item_bytes_fit i h))

abbrev pub content_length : List RlpItem → ℕ
content_length [] = 0
content_length (i ∷ items) = length (item_bytes i) + 9 + content_length items

pub length-encode_items :
    (items : List RlpItem) → All IsItem items → length (encode_items items) ≤ content_length items
unfolding encode_items
length-encode_items [] h = omega arith
length-encode_items (i ∷ items) (hi, h) = omega (
  arith,
  length-append (encode i) (encode_items items),
  length-encode i hi,
  length-encode_items items h,
)

-- Two item lists with one encoding hold the same byte strings.
pub rlp_encode_injective :
    (xs ys : List RlpItem)
    → All IsItem xs
    → All IsItem ys
    → content_length xs < 2 ^ 64
    → content_length ys < 2 ^ 64
    → rlp_encode xs ≡ rlp_encode ys
    → map item_bytes xs ≡ map item_bytes ys
rlp_encode_injective xs ys hx hy fx fy e = cc (
  rlp_decode-rlp_encode xs hx (omega (arith, length-encode_items xs hx)),
  rlp_decode-rlp_encode ys hy (omega (arith, length-encode_items ys hy)),
)

pub length-uint : (v : ℕ) → length (item_bytes (uint v)) ≤ 8
length-uint v = omega (arith, length-strip_leading_zeros (be_bytes 8 v), length-be_bytes 8 v)

-- The elements of an item's slices are bytes.
abbrev pub HasBytes : RlpItem → Type 0
HasBytes (bytes b) = All IsByte b
HasBytes (uint v) = Unit
HasBytes (big_uint256 b) = All IsByte b

item_bytes-IsByte : (i : RlpItem) → HasBytes i → All IsByte (item_bytes i)
item_bytes-IsByte (bytes b) h = h
item_bytes-IsByte (uint v) h = strip_leading_zeros-IsByte (be_bytes 8 v) (be_bytes-IsByte 8 v)
item_bytes-IsByte (big_uint256 b) h = strip_leading_zeros-IsByte b h

encode_items-IsByte :
    (items : List RlpItem) → All IsItem items → All HasBytes items → All IsByte (encode_items items)
unfolding encode_items
encode_items-IsByte [] h k = tt
encode_items-IsByte (i ∷ items) (hi, h) (ki, k) =
    All-append IsByte (encode i) (encode_items items)
      (rw (encode-eq-encode_bytes i hi)
        (encode_bytes-IsByte (item_bytes i) (item_bytes_fit i hi) (item_bytes-IsByte i ki)))
      (encode_items-IsByte items h k)

pub rlp_encode-IsByte :
    (items : List RlpItem)
    → All IsItem items
    → All HasBytes items
    → IsU64 (length (encode_items items))
    → All IsByte (rlp_encode items)
unfolding rlp_encode wrap_list
rlp_encode-IsByte items h k fits =
    All-append IsByte _ (encode_items items)
      (encode_length-IsByte (length (encode_items items)) 0xc0 fits (omega arith))
      (encode_items-IsByte items h k)
