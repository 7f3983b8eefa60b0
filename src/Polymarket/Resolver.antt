-- ===== src/Polymarket/Resolver.antt =====
-- src/polymarket/resolver.rs: `ConditionResolver` and the decoding of a `ConditionResolution` log.
-- `usize` has 64 bits, sums wrap as in a release build, and a slice out of range panics.
pub mod Payouts
pub mod Client
use pump_poly_router.Base.{
  ℕ, zero, suc, ◌+◌, ◌-◌, ◌*◌, ◌^◌, Bool, ◌&&◌, List, [], ◌∷◌, ◌++◌, Option, none, some, ltb, leb,
  if◌then◌else◌, length, take, drop, get_elem?,
}
use pump_poly_router.Text.{Text, text, trim_0x, pad_left}
use pump_poly_router.Error.{RouterError, poly_resolver, Result, ok, err, panic, ok_or, ◌>>=◌}
use pump_poly_router.Words.{u64, be_value, unwrap_or}
use pump_poly_router.Slices.{slice_range}
use pump_poly_router.External.{HexCodec, Net}
use pump_poly_router.Effect.{of_reply}

pub record ResolutionOutcome : Type 0 where
  pub condition_id : Text
  pub payout_numerators : List ℕ

unfoldable pub yes_wins : ResolutionOutcome → Bool
yes_wins r = ltb 0 (unwrap_or (get_elem? r.payout_numerators 0) 0)

unfoldable pub u256_to_usize : List ℕ → Result ℕ
unfolding slice_range
u256_to_usize word =
    if ltb (length word) 32
    then err (poly_resolver (text "word too short"))
    else (do low ← slice_range 24 32 word; ok (be_value low))

-- The `for` loop, over the elements left, from `word_start` on.
unfoldable pub read_words : ℕ → ℕ → List ℕ → Result (List ℕ)
read_words zero word_start bytes = ok []
read_words (suc left) word_start bytes = do
  w ← slice_range (u64 (word_start + 24)) (u64 (word_start + 32)) bytes
  rest ← read_words left (u64 (word_start + 32)) bytes
  ok (be_value w ∷ rest)

-- `Vec::with_capacity` refuses more than 2 ^ 63 - 1 bytes; an element takes 8.
unfoldable pub read_elements : ℕ → ℕ → List ℕ → Result (List ℕ)
read_elements array_len data_start bytes =
    if leb (2 ^ 63) (array_len * 8) then panic else read_words array_len data_start bytes

-- From the array's offset on.
unfoldable pub read_array : ℕ → List ℕ → Result (List ℕ)
read_array array_offset bytes =
    if ltb (length bytes) (u64 (array_offset + 32))
    then err (poly_resolver (text "log data truncated (array length)"))
    else (do
      length_word ← slice_range array_offset (u64 (array_offset + 32)) bytes
      array_len ← u256_to_usize length_word
      let data_start = u64 (array_offset + 32)
      if ltb (length bytes) (u64 (data_start + u64 (array_len * 32)))
          then err (poly_resolver (text "log data truncated (array elements)"))
          else read_elements array_len data_start bytes)

-- `decode_payout_numerators` on the decoded bytes.
unfoldable pub decode_log_data : List ℕ → Result (List ℕ)
decode_log_data bytes =
    if ltb (length bytes) 64 then err (poly_resolver (text "log data too short")) else (do
      offset_word ← slice_range 32 64 bytes
      array_offset ← u256_to_usize offset_word
      read_array array_offset bytes)

module _ (hex : HexCodec) where
  unfoldable pub decode_payout_numerators : Text → Result (List ℕ)
  decode_payout_numerators data_hex = do
    bytes ←
        of_reply (hex.hex_decode (trim_0x data_hex)) (λ e. poly_resolver (text "hex decode: " ++ e))
    decode_log_data bytes

unfoldable pub normalise_bytes32 : Text → Result Text
unfolding pad_left
normalise_bytes32 hex_str =
    let stripped = trim_0x hex_str in
    if ltb 64 (length stripped)
    then err (poly_resolver (text "bytes32 too long: " ++ hex_str))
    else ok (text "0x" ++ pad_left 64 stripped)

module _ {World Response Json : Type 0} (net : Net World Response Json) (hex : HexCodec) where
  -- The first of the logs that were found, if any.
  unfoldable pub resolution : Text → List Json → Result (Option ResolutionOutcome)
  resolution condition_id [] = ok none
  resolution condition_id (log ∷ logs) = do
    data_hex ←
        ok_or (net.as_str (net.index log (text "data"))) (poly_resolver (text "missing log data"))
    payout_numerators ← decode_payout_numerators hex data_hex
    ok (some (record { condition_id = condition_id; payout_numerators = payout_numerators }))

  -- What `is_resolved` makes of the answer.
  unfoldable pub read_logs : Text → Json → Result (Option ResolutionOutcome)
  read_logs condition_id resp = elim (net.get_field resp (text "error")) [
    | some e ↦ err (poly_resolver (net.to_string e))
    | none ↦ (do
      logs ←
          ok_or (net.as_array (net.index resp (text "result")))
            (poly_resolver (text "eth_getLogs missing result array"))
      resolution condition_id logs)
  ]
