-- ===== src/Polymarket/Settlement.antt =====
-- src/polymarket/settlement.rs: the calldata of `redeemPositions` and the balance query of
-- `SettlementClient`. `copy_from_slice` panics where the lengths differ.
pub mod Client
pub mod Calldata
use pump_poly_router.Base.{
  ℕ, ◌+◌, List, [], ◌∷◌, ◌++◌, ltb, ◌==◌, if◌then◌else◌, length, replicate, take, drop,
}
use pump_poly_router.Text.{Text, text, trim_0x, pad_left}
use pump_poly_router.Error.{ctf_redeem, Result, ok, err, panic, ok_or, ◌>>=◌}
use pump_poly_router.Words.{u64, be_bytes, be_value}
use pump_poly_router.Slices.{copied_behind}
use pump_poly_router.Effect.{of_reply}
use pump_poly_router.External.{HexCodec, Net}

unfoldable pub pad32_u64 : ℕ → List ℕ
pad32_u64 val = replicate 24 0 ++ be_bytes 8 val

-- The words of the index sets.
unfoldable pub pad32_all : List ℕ → List ℕ
pad32_all [] = []
pad32_all (idx ∷ sets) = pad32_u64 idx ++ pad32_all sets

abbrev pub redeem_positions_selector : Text
redeem_positions_selector = text "8c5d7d37"

-- The arguments of the call, behind the selector.
unfoldable pub redeem_arguments : List ℕ → List ℕ → List ℕ → List ℕ
redeem_arguments addr_bytes cid_bytes index_sets =
    (addr_bytes ++ (replicate 32 0 ++ (cid_bytes ++ pad32_u64 128)))
    ++ (pad32_u64 (length index_sets) ++ pad32_all index_sets)

module _ (hex : HexCodec) where
  unfoldable pub pad32_address : Text → Result (List ℕ)
  unfolding copied_behind
  pad32_address addr =
      if length (trim_0x addr) == 40
      then (do bytes ← of_reply (hex.hex_decode (trim_0x addr)) ctf_redeem; copied_behind 12 bytes)
      else err (ctf_redeem (text "bad address: " ++ addr))

  unfoldable pub bytes32_from_hex : Text → Result (List ℕ)
  unfolding copied_behind
  bytes32_from_hex s = do
    bytes ← of_reply (hex.hex_decode (pad_left 64 (trim_0x s))) ctf_redeem
    copied_behind 0 bytes

  unfoldable pub encode_redeem_positions : Text → Text → List ℕ → Result Text
  encode_redeem_positions collateral_token condition_id index_sets = do
    addr_bytes ← pad32_address collateral_token
    cid_bytes ← bytes32_from_hex condition_id
    ok (
        text "0x"
        ++ (redeem_positions_selector
            ++ hex.hex_encode (redeem_arguments addr_bytes cid_bytes index_sets)))

  -- What `usdc_balance` makes of the result of `eth_call`.
  unfoldable pub decode_balance : Text → Result ℕ
  decode_balance result = do
    bytes ← of_reply (hex.hex_decode (trim_0x result)) ctf_redeem
    ok (if ltb (length bytes) 32 then 0 else be_value (take 8 (drop 24 bytes)))
