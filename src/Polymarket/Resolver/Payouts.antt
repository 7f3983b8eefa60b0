-- ===== src/Polymarket/Resolver/Payouts.antt =====
-- The log data of `ConditionResolution` in the ABI encoding, and what the decoder makes of it.
use pump_poly_router.Base.{
  ℕ, ◌+◌, ◌*◌, ◌^◌, ◌≤◌, ◌<◌, ◌≡◌, refl, sym, ap, ◌∙◌, arith, List, [], ◌∷◌, ◌++◌, false, ltb, leb,
  length, length-append, replicate, All, All-append, append_assoc, append-nil,
}
use pump_poly_router.Text.{text, trim_0x_digits}
use pump_poly_router.Error.{ok, panic}
use pump_poly_router.Words.{IsByte, IsU64, u64, be_bytes}
use pump_poly_router.Words.Bytes.{length-be_bytes, be_value-be_bytes}
use pump_poly_router.External.{HexCodec, IsHex}
use pump_poly_router.Slices.{slice_range, slice_range-middle, slice_range-backwards}
use pump_poly_router.Abi.{word, words, length-word, length-words, word-IsByte, words-IsByte}
use pump_poly_router.Polymarket.Resolver.{
  u256_to_usize, read_words, read_elements, read_array, decode_log_data, decode_payout_numerators,
}

-- `(uint256 outcomeSlotCount, uint256[] payoutNumerators)`
abbrev pub event_data : ℕ → List ℕ → List ℕ
event_data slots payouts = word slots ++ (word 64 ++ (word (length payouts) ++ words payouts))

pub u256_to_usize-word : (n : ℕ) → IsU64 n → u256_to_usize (word n) ≡ ok n
unfolding u256_to_usize
u256_to_usize-word n h =
    let long : ltb (length (word n)) 32 ≡ false = ground (arith, length-word n) in
    let same : be_bytes 8 n ++ [] ≡ be_bytes 8 n = append-nil (be_bytes 8 n) in
    let low =
      slice_range-middle 24 32 (replicate 24 0) (be_bytes 8 n) [] refl
        (omega (arith, length-be_bytes 8 n)) in
    let low' : slice_range 24 32 (word n) ≡ ok (be_bytes 8 n) = rw same at low in
    rw (long, low', be_value-be_bytes 8 n (omega arith))

-- The two places that one round of the loop cuts the data at.
low_shape :
    (front : List ℕ) (n : ℕ) (rest back : List ℕ)
    → (front ++ replicate 24 0) ++ (be_bytes 8 n ++ (rest ++ back))
      ≡ front ++ ((word n ++ rest) ++ back)
low_shape front n rest back = append_assoc front (replicate 24 0) _ ∙ rw append_assoc refl

next_shape :
    (front : List ℕ) (n : ℕ) (rest back : List ℕ)
    → (front ++ word n) ++ (rest ++ back) ≡ front ++ ((word n ++ rest) ++ back)
next_shape front n rest back =
    append_assoc front (word n) (rest ++ back)
    ∙ ap (λ x. front ++ x) (sym (append_assoc (word n) rest back))

u64_small : (n : ℕ) → n < 2 ^ 64 → u64 n ≡ n
u64_small n h = omega arith

read_words-words :
    (front ns back : List ℕ)
    → All IsU64 ns
    → length front + 32 * length ns < 2 ^ 64
    → read_words (length ns) (length front) (front ++ (words ns ++ back)) ≡ ok ns
unfolding read_words
read_words-words front [] back h fits = refl
read_words-words front (n ∷ ns) back (hn, h) fits =
    let at_low : length (front ++ replicate 24 0) ≡ length front + 24 =
      length-append front (replicate 24 0) in
    let at_next : length (front ++ word n) ≡ length front + 32 =
      length-append front (word n) ∙ omega (arith, length-word n) in
    let low =
      slice_range-middle (length front + 24) (length front + 32) (front ++ replicate 24 0)
        (be_bytes 8 n) (words ns ++ back) at_low (omega (arith, length-be_bytes 8 n)) in
    let rest = read_words-words (front ++ word n) ns back h (omega (arith, at_next)) in
    let low' = rw (low_shape front n (words ns) back) at low in
    let rest' = rw (next_shape front n (words ns) back, at_next) at rest in
    rw (u64_small (length front + 24) (omega arith), u64_small (length front + 32) (omega arith))
      (rw low' (rw rest' (rw (be_value-be_bytes 8 n (omega arith)) refl)))

length-event_data :
    (slots : ℕ) (payouts : List ℕ) → length (event_data slots payouts) ≡ 96 + 32 * length payouts
length-event_data slots payouts =
    let n = length payouts in
    length-append (word slots) _
    ∙ (rw (length-append (word 64) (word n ++ words payouts)) (
        omega (
          arith,
          length-word slots,
          length-word 64,
          length-append (word n) (words payouts),
          length-word n,
          length-words payouts,
        )))

-- An array behind whatever stands before it.
module _ (front payouts : List ℕ) (values_fit : All IsU64 payouts)
    (fits : length front + 32 + 32 * length payouts < 2 ^ 64) where
  length-array_data :
      length (front ++ (word (length payouts) ++ words payouts))
      ≡ length front + 32 + 32 * length payouts
  length-array_data =
      length-append front _
      ∙ omega (
        arith,
        length-append (word (length payouts)) (words payouts),
        length-word (length payouts),
        length-words payouts,
      )

  elements_read :
      read_words
        (length payouts)
        (length front + 32)
        (front ++ (word (length payouts) ++ words payouts))
      ≡ ok payouts
  elements_read =
      let behind = front ++ word (length payouts) in
      let at_behind : length behind ≡ length front + 32 =
        length-append front (word (length payouts)) ∙ omega (arith, length-word (length payouts)) in
      let shape : behind ++ (words payouts ++ [])
          ≡ front ++ (word (length payouts) ++ words payouts) =
        rw (append-nil (words payouts))
          (append_assoc front (word (length payouts)) (words payouts)) in
      let all = read_words-words behind payouts [] values_fit (omega (arith, at_behind, fits)) in
      rw (shape, at_behind) at all

  -- `read_array` reads an array of the contract ABI that starts at the given offset.
  pub read_array-array :
      read_array (length front) (front ++ (word (length payouts) ++ words payouts)) ≡ ok payouts
  unfolding read_array read_elements
  read_array-array =
      let bytes = front ++ (word (length payouts) ++ words payouts) in
      let n = length payouts in
      let size = length-array_data in
      let start : u64 (length front + 32) ≡ length front + 32 = u64_small _ (omega (arith, fits)) in
      let header : ltb (length bytes) (length front + 32) ≡ false = ground (arith, size) in
      let cut =
        slice_range-middle (length front) (length front + 32) front (word n) (words payouts) refl
          (omega (arith, length-word n)) in
      let whole : ltb (length bytes) (u64 (length front + 32 + u64 (n * 32))) ≡ false =
        ground (arith, size, fits) in
      let fine_capacity : leb (2 ^ 63) (n * 8) ≡ false = ground (arith, fits) in
      rw (start, header, cut, u256_to_usize-word n (omega (arith, fits)))
        (rw (whole, fine_capacity, elements_read) refl)

module _ (slots : ℕ) (payouts : List ℕ) (values_fit : All IsU64 payouts)
    (fits : 96 + 32 * length payouts < 2 ^ 64) where
  offset_slice : slice_range 32 64 (event_data slots payouts) ≡ ok (word 64)
  unfolding be_bytes
  offset_slice =
      slice_range-middle 32 64 (word slots) (word 64) (word (length payouts) ++ words payouts)
        (length-word slots) refl

  event_array : read_array 64 (event_data slots payouts) ≡ ok payouts
  event_array =
      let front = word slots ++ word 64 in
      let at_front : length front ≡ 64 =
        length-append (word slots) (word 64) ∙ omega (arith, length-word slots, length-word 64) in
      let all = read_array-array front payouts values_fit (omega (arith, at_front, fits)) in
      let shape = append_assoc (word slots) (word 64) (word (length payouts) ++ words payouts) in
      rw (shape, at_front) at all

  log_read : decode_log_data (event_data slots payouts) ≡ ok payouts
  unfolding decode_log_data
  log_read =
      let long : ltb (length (event_data slots payouts)) 64 ≡ false =
        ground (arith, length-event_data slots payouts) in
      rw (long, offset_slice, u256_to_usize-word 64 (omega arith)) event_array

-- Two words and what follows them.
headed-IsByte :
    (a b : ℕ) (rest : List ℕ) → All IsByte rest → All IsByte (word a ++ (word b ++ rest))
headed-IsByte a b rest h =
    All-append IsByte (word a) _ (word-IsByte a) (All-append IsByte (word b) rest (word-IsByte b) h)

log_panics :
    (slots offset : ℕ) (rest : List ℕ)
    → 2 ^ 64 ≤ offset + 32
    → offset < 2 ^ 64
    → decode_log_data (word slots ++ (word offset ++ rest)) ≡ panic
unfolding decode_log_data read_array
log_panics slots offset rest large small =
    let bytes = word slots ++ (word offset ++ rest) in
    let size : length bytes ≡ 64 + length rest =
      length-append (word slots) (word offset ++ rest)
      ∙ omega (arith, length-word slots, length-append (word offset) rest, length-word offset) in
    let long : ltb (length bytes) 64 ≡ false = ground (arith, size) in
    let wrapped : ltb (length bytes) (u64 (offset + 32)) ≡ false = ground (arith, size) in
    let cut =
      slice_range-middle 32 64 (word slots) (word offset) rest (length-word slots)
        (omega (arith, length-word offset)) in
    rw (long, cut, u256_to_usize-word offset small, wrapped)
      (rw (slice_range-backwards offset (u64 (offset + 32)) bytes (omega arith)) refl)

module _ (hex : HexCodec) (is_hex : IsHex hex) where
  decode_payout_numerators-hex :
      (bytes : List ℕ)
      → All IsByte bytes
      → decode_payout_numerators hex (text "0x" ++ hex.hex_encode bytes) ≡ decode_log_data bytes
  unfolding decode_payout_numerators
  decode_payout_numerators-hex bytes h =
      rw
        (
          trim_0x_digits (hex.hex_encode bytes) (is_hex.encode_digits bytes),
          is_hex.decode-encode bytes h,
        )
        refl

  -- From the `0x`-prefixed hex of an event in the contract ABI's layout, with payouts that fit a u64
  -- and data of fewer than 2 ^ 64 bytes, `decode_payout_numerators` returns exactly the payouts.
  pub decode_payout_numerators-event_data :
      (slots : ℕ) (payouts : List ℕ)
      → All IsU64 payouts
      → 96 + 32 * length payouts < 2 ^ 64
      → decode_payout_numerators hex (text "0x" ++ hex.hex_encode (event_data slots payouts))
        ≡ ok payouts
  decode_payout_numerators-event_data slots payouts h fits =
      decode_payout_numerators-hex (event_data slots payouts) (
        headed-IsByte slots 64 (word (length payouts) ++ words payouts)
          (words-IsByte (length payouts ∷ payouts)))
      ∙ log_read slots payouts h fits

  -- Log data whose array offset is within 32 of 2 ^ 64 gets past the length check, since the sum
  -- wraps, and makes `decode_payout_numerators` panic on the slice that follows.
  pub decode_payout_numerators_overflow :
      (slots offset : ℕ) (rest : List ℕ)
      → All IsByte rest
      → 2 ^ 64 ≤ offset + 32
      → offset < 2 ^ 64
      → decode_payout_numerators hex
          (text "0x" ++ hex.hex_encode (word slots ++ (word offset ++ rest)))
        ≡ panic
  decode_payout_numerators_overflow slots offset rest h large small =
      decode_payout_numerators-hex (word slots ++ (word offset ++ rest))
        (headed-IsByte slots offset rest h)
      ∙ log_panics slots offset rest large small
