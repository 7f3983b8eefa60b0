-- ===== src/Executor/New/Calm/Settlement.antt =====
-- Panics in src/polymarket/settlement.rs, and the condition ids that they depend on.
use pump_poly_router.Base.{
  ℕ, ◌-◌, ◌≤◌, ◌≡◌, ◌≢◌, inl, inr, Option, List, arith, length, replicate, length-append,
  length-replicate,
}
use pump_poly_router.Text.{Text, trim_0x, pad_left}
use pump_poly_router.Error.{ok, panic, Result-cases}
use pump_poly_router.External.{HexCodec, IsHex, Crypto, Net}
use pump_poly_router.Executor.New.Calm.Evm.{send_transaction_calm}
use pump_poly_router.Polymarket.Resolver.{normalise_bytes32}
use pump_poly_router.Polymarket.Settlement.{
  pad32_address, bytes32_from_hex, encode_redeem_positions, decode_balance,
}
use pump_poly_router.Polymarket.Settlement.Client.{SettlementClient, redeem_positions, usdc_balance}
use pump_poly_router.Executor.New.Calm.Bridge.{copied_behind_calm}
use pump_poly_router.Polymarket.Resolver.{ResolutionOutcome}
use pump_poly_router.Polymarket.Resolver.Client.{ConditionResolver, is_resolved}

-- A text that was padded to 64 characters has them.
pad_left-length : (t : Text) → length (trim_0x t) ≤ 64 → length (pad_left 64 (trim_0x t)) ≡ 64
unfolding pad_left
pad_left-length t short =
    let parts = length-append (replicate (64 - length (trim_0x t)) b'0') (trim_0x t) in
    let zeros = length-replicate {A = ℕ} (64 - length (trim_0x t)) b'0' in
    ground (arith, parts, zeros, short)

module _ (hex : HexCodec) (is_hex : IsHex hex) where
  pad32_address_calm : (addr : Text) → pad32_address hex addr ≢ panic
  unfolding pad32_address
  pad32_address_calm addr e =
      grind (arith, copied_behind_calm 12, is_hex.length-decode (trim_0x addr))

  bytes32_from_hex_calm : (t : Text) → length (trim_0x t) ≤ 64 → bytes32_from_hex hex t ≢ panic
  unfolding bytes32_from_hex
  bytes32_from_hex_calm t short e = grind (
    arith,
    copied_behind_calm 0,
    is_hex.length-decode (pad_left 64 (trim_0x t)),
    pad_left-length t short,
  )

  encode_redeem_calm :
      (a t : Text) (s : List ℕ)
      → length (trim_0x t) ≤ 64
      → encode_redeem_positions hex a t s ≢ panic
  unfolding encode_redeem_positions
  encode_redeem_calm a t s short e =
      grind (arith, pad32_address_calm, bytes32_from_hex_calm t short)

  module _ {World Response Json : Type 0} (net : Net World Response Json) (crypto : Crypto)
      (client : SettlementClient) where
    redeem_calm :
        (a t : Text) (s : List ℕ) (w : World)
        → length (trim_0x t) ≤ 64
        → (redeem_positions net hex crypto client a t s w).0 ≢ panic
    unfolding redeem_positions
    redeem_calm a t s w short e =
        grind (
          arith,
          encode_redeem_calm a t s short,
          send_transaction_calm net hex crypto client.wallet,
        )

    pub usdc_balance_calm : (a b : Text) (w : World) → (usdc_balance net hex client a b w).0 ≢ panic
    unfolding usdc_balance decode_balance
    usdc_balance_calm a b w e = ground arith

    normalise_short : (t u : Text) → normalise_bytes32 t ≡ ok u → length (trim_0x t) ≤ 64
    unfolding normalise_bytes32
    normalise_short t u e = ground (arith, e)

    looked_up :
        (resolver : ConditionResolver) (t : Text) (found : Option ResolutionOutcome) (v : World)
        → (is_resolved net hex resolver t v).0 ≡ ok found
        → length (trim_0x t) ≤ 64
    unfolding is_resolved
    looked_up resolver t found v e = elim (Result-cases (normalise_bytes32 t)) [
      | inl (u, good) ↦ normalise_short t u good
      | inr (inl (m, bad)) ↦ absurd (cc (rw bad at e))
      | inr (inr crash) ↦ absurd (cc (rw crash at e))
    ]

    pub redeem_positions_calm :
        (resolver : ConditionResolver) (a t : Text) (s : List ℕ) (found : Option ResolutionOutcome)
        (v w : World)
        → (is_resolved net hex resolver t v).0 ≡ ok found
        → (redeem_positions net hex crypto client a t s w).0 ≢ panic
    redeem_positions_calm resolver a t s found v w e =
        redeem_calm a t s w (looked_up resolver t found v e)
