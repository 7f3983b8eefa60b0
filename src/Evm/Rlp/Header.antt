-- ===== src/Evm/Rlp/Header.antt =====
-- `encode_length` of src/evm/signer.rs against the reader, on the header of a string or a list.
use pump_poly_router.Base.{
  ℕ, ◌+◌, ◌-◌, ◌%◌, ◌^◌, ◌≤◌, ◌<◌, ◌≡◌, refl, ◌∙◌, List, [], ◌∷◌, ◌++◌, some, arith, ltb, length,
  length-append, take-append_left, drop-append_left, append_assoc, All, All-append, Bool-cases, inl,
  inr, ◌⊎◌,
}
use pump_poly_router.Words.{IsByte, IsU64, be_bytes, be_value, strip_leading_zeros}
use pump_poly_router.Words.Bytes.{
  length-be_bytes, be_bytes-IsByte, be_value-be_bytes, be_value-strip_leading_zeros,
  length-strip_leading_zeros, strip_leading_zeros-IsByte,
}
use pump_poly_router.Evm.Rlp.{encode_length, encode_bytes}
use pump_poly_router.Evm.Rlp.Decode.{split_at, read_long, read_item, read_list}

split_at-append : (n : ℕ) (xs ys : List ℕ) → length xs ≡ n → split_at n (xs ++ ys) ≡ some (xs, ys)
unfolding split_at
split_at-append n xs ys h =
    rw (take-append_left n xs ys h, drop-append_left n xs ys h)
      (ground (arith, length-append xs ys))

-- The bytes of a length that takes the long form.
abbrev len_bytes : ℕ → List ℕ
len_bytes len = strip_leading_zeros (be_bytes 8 len)

be_value-len_bytes : (len : ℕ) → IsU64 len → be_value (len_bytes len) ≡ len
be_value-len_bytes len h =
    be_value-strip_leading_zeros (be_bytes 8 len) ∙ be_value-be_bytes 8 len (omega arith)

length-len_bytes : (len : ℕ) → length (len_bytes len) ≤ 8
length-len_bytes len =
    omega (arith, length-strip_leading_zeros (be_bytes 8 len), length-be_bytes 8 len)

-- Not empty, since the length is not 0.
len_bytes-ne-nil : (len : ℕ) → IsU64 len → 0 < len → 0 < length (len_bytes len)
len_bytes-ne-nil len h pos = go (len_bytes len) (be_value-len_bytes len h)
  where
    go : (bs : List ℕ) → be_value bs ≡ len → 0 < length bs
    go [] e = unfold be_value in omega arith
    go (b ∷ bs) e = omega arith

pub read_long-len_bytes :
    (payload rest : List ℕ)
    → IsU64 (length payload)
    → read_long
        (length (len_bytes (length payload)))
        (len_bytes (length payload) ++ (payload ++ rest))
      ≡ some (payload, rest)
unfolding read_long
read_long-len_bytes payload rest h =
    rw (split_at-append _ (len_bytes (length payload)) (payload ++ rest) refl)
      (rw (be_value-len_bytes (length payload) h) (split_at-append _ payload rest refl))

encode_length_short :
    (len offset : ℕ) → len < 56 → offset ≤ 0xc0 → encode_length len offset ≡ (offset + len) ∷ []
unfolding encode_length
encode_length_short len offset h k = ground arith

encode_length_long :
    (len offset : ℕ)
    → 56 ≤ len
    → IsU64 len
    → offset ≤ 0xc0
    → encode_length len offset ≡ (offset + 55 + length (len_bytes len)) ∷ len_bytes len
unfolding encode_length
encode_length_long len offset h u k =
    let e : len % 2 ^ 64 ≡ len = omega arith in rw e (ground (arith, length-len_bytes len))

-- A string's header and body, short and long.
module _ (b rest : List ℕ) (fits : IsU64 (length b)) where
  item_short : length b < 56 → read_item ((0x80 + length b) ∷ (b ++ rest)) ≡ some (b, rest)
  unfolding read_item
  item_short h =
      let e : 0x80 + length b - 0x80 ≡ length b = omega arith in
      ground (arith, e, split_at-append (length b) b rest refl)

  item_long :
      56 ≤ length b
      → read_item
          ((0x80 + 55 + length (len_bytes (length b))) ∷ (len_bytes (length b) ++ (b ++ rest)))
        ≡ some (b, rest)
  unfolding read_item
  item_long h =
      let n : ℕ = length (len_bytes (length b)) in
      let e : 0x80 + 55 + n - 0xb7 ≡ n = omega arith in
      ground (
        arith,
        e,
        length-len_bytes (length b),
        len_bytes-ne-nil (length b) fits (omega arith),
        read_long-len_bytes b rest fits,
      )

  -- A list's header and payload.
  list_short : length b < 56 → read_list ((0xc0 + length b) ∷ (b ++ rest)) ≡ some (b, rest)
  unfolding read_list
  list_short h =
      let e : 0xc0 + length b - 0xc0 ≡ length b = omega arith in
      ground (arith, e, split_at-append (length b) b rest refl)

  list_long :
      56 ≤ length b
      → read_list
          ((0xc0 + 55 + length (len_bytes (length b))) ∷ (len_bytes (length b) ++ (b ++ rest)))
        ≡ some (b, rest)
  unfolding read_list
  list_long h =
      let n : ℕ = length (len_bytes (length b)) in
      let e : 0xc0 + 55 + n - 0xf7 ≡ n = omega arith in
      ground (
        arith,
        e,
        length-len_bytes (length b),
        len_bytes-ne-nil (length b) fits (omega arith),
        read_long-len_bytes b rest fits,
      )

pub read_list-encode_length :
    (b rest : List ℕ)
    → IsU64 (length b)
    → read_list (encode_length (length b) 0xc0 ++ (b ++ rest)) ≡ some (b, rest)
read_list-encode_length b rest fits = elim (Bool-cases (ltb (length b) 56)) [
  | inl s ↦
      rw (encode_length_short (length b) 0xc0 (ground arith) (omega arith))
        (list_short b rest fits (ground arith))
  | inr l ↦
      rw (encode_length_long (length b) 0xc0 (ground arith) fits (omega arith))
        (list_long b rest fits (ground arith))
]

read_item-encode_length :
    (b rest : List ℕ)
    → IsU64 (length b)
    → read_item (encode_length (length b) 0x80 ++ (b ++ rest)) ≡ some (b, rest)
read_item-encode_length b rest fits = elim (Bool-cases (ltb (length b) 56)) [
  | inl s ↦
      rw (encode_length_short (length b) 0x80 (ground arith) (omega arith))
        (item_short b rest fits (ground arith))
  | inr l ↦
      rw (encode_length_long (length b) 0x80 (ground arith) fits (omega arith))
        (item_long b rest fits (ground arith))
]

read_item_single : (x : ℕ) (rest : List ℕ) → x < 0x80 → read_item (x ∷ rest) ≡ some (x ∷ [], rest)
unfolding read_item
read_item_single x rest h = ground arith

encode_bytes-cases :
    (b : List ℕ)
    → ((x : ℕ) × (b ≡ x ∷ []) × (x < 0x80) × (encode_bytes b ≡ b))
      ⊎ (encode_bytes b ≡ encode_length (length b) 0x80 ++ b)
encode_bytes-cases [] = inr (unfold encode_bytes in refl)
encode_bytes-cases (x ∷ []) = elim (Bool-cases (ltb x 0x80)) [
  | inl s ↦ inl (x, refl, ground arith, (unfold encode_bytes in rw s))
  | inr l ↦ inr (unfold encode_bytes in rw l)
]
encode_bytes-cases (x ∷ y ∷ b) = inr (unfold encode_bytes in refl)

pub read_item-encode_bytes :
    (b rest : List ℕ) → IsU64 (length b) → read_item (encode_bytes b ++ rest) ≡ some (b, rest)
read_item-encode_bytes b rest fits = elim (encode_bytes-cases b) [
  | inl (x, e, small, same) ↦ rw (same, e) (read_item_single x rest small)
  | inr long ↦ rw (long, append_assoc) (read_item-encode_length b rest fits)
]

pub encode_bytes-ne-nil : (b : List ℕ) → IsU64 (length b) → 0 < length (encode_bytes b)
encode_bytes-ne-nil b fits = go (encode_bytes b) (read_item-encode_bytes b [] fits)
  where
    go : (bs : List ℕ) → read_item (bs ++ []) ≡ some (b, []) → 0 < length bs
    go [] e = unfold read_item in cc
    go (x ∷ bs) e = omega arith

length-encode_length :
    (len offset : ℕ) → IsU64 len → offset ≤ 0xc0 → length (encode_length len offset) ≤ 9
length-encode_length len offset fits h = elim (Bool-cases (ltb len 56)) [
  | inl s ↦ rw (encode_length_short len offset (ground arith) h) (omega arith)
  | inr l ↦
      rw (encode_length_long len offset (ground arith) fits h) (omega (arith, length-len_bytes len))
]

pub length-encode_bytes : (b : List ℕ) → IsU64 (length b) → length (encode_bytes b) ≤ length b + 9
length-encode_bytes b fits = elim (encode_bytes-cases b) [
  | inl (x, e, small, same) ↦ rw same (omega arith)
  | inr long ↦ rw long (
      omega (
        arith,
        length-append (encode_length (length b) 0x80) b,
        length-encode_length (length b) 0x80 fits (omega arith),
      ))
]

-- Every byte of a header is a byte: the additions of `encode_length` do not pass 255.
pub encode_length-IsByte :
    (len offset : ℕ) → IsU64 len → offset ≤ 0xc0 → All IsByte (encode_length len offset)
encode_length-IsByte len offset fits h = elim (Bool-cases (ltb len 56)) [
  | inl s ↦ rw (encode_length_short len offset (ground arith) h) (ground arith)
  | inr l ↦ rw (encode_length_long len offset (ground arith) fits h) (
    omega (arith, length-len_bytes len),
    strip_leading_zeros-IsByte (be_bytes 8 len) (be_bytes-IsByte 8 len),
  )
]

pub encode_bytes-IsByte :
    (b : List ℕ) → IsU64 (length b) → All IsByte b → All IsByte (encode_bytes b)
encode_bytes-IsByte b fits h = elim (encode_bytes-cases b) [
  | inl (x, e, small, same) ↦ rw same h
  | inr long ↦
      rw long (All-append IsByte _ b (encode_length-IsByte (length b) 0x80 fits (omega arith)) h)
]
