-- ===== src/Bridge/Cctp/Recipient.antt =====
-- The two encoders of an EVM address as a 32-byte word: `evm_addr_to_bytes32` of src/bridge/cctp.rs
-- and `pad32_address` of src/polymarket/settlement.rs.
use pump_poly_router.Base.{
  ℕ, ◌≡◌, refl, ◌≢◌, ◌↔◌, inl, inr, List, ◌++◌, ◌==◌, Bool-cases, length, All,
}
use pump_poly_router.Text.{Text, text, trim_0x, strip_0x, trim_0x_digits}
use pump_poly_router.Error.{ok}
use pump_poly_router.External.{HexCodec, Reply-cases}
use pump_poly_router.Bridge.Cctp.{evm_addr_to_bytes32}
use pump_poly_router.Polymarket.Settlement.{pad32_address}

strip_0x-prefix : (t : Text) → strip_0x (text "0x" ++ t) ≡ t
unfolding strip_0x text
strip_0x-prefix t = refl

module _ (hex : HexCodec) where
  -- Both, where the prefix is off.
  agree_on :
      (addr t : Text) (bytes : List ℕ)
      → strip_0x addr ≡ t
      → trim_0x addr ≡ t
      → (evm_addr_to_bytes32 hex addr ≡ ok bytes) ↔ (pad32_address hex addr ≡ ok bytes)
  unfolding evm_addr_to_bytes32 pad32_address
  agree_on addr t bytes es et = elim (Bool-cases (length t == 40)) [
    | inr differs ↦ rw (es, et, differs) ((λ e. absurd (cc e)), (λ e. absurd (cc e)))
    | inl fits ↦ elim (Reply-cases (hex.hex_decode t)) [
      | inr (x, bad) ↦ rw (es, et, fits, bad) ((λ e. absurd (cc e)), (λ e. absurd (cc e)))
      | inl (bs, good) ↦ rw (es, et, fits, good) ((λ e. e), (λ e. e))
    ]
  ]

  -- On an address written with one `0x` before characters that are no `x`, the bridge and the
  -- settlement client encode the same word: `evm_addr_to_bytes32` returns some bytes exactly where
  -- `pad32_address` returns these bytes.
  pub evm_addr_to_bytes32-pad32_address :
      (digits : Text) (bytes : List ℕ)
      → All (λ c. c ≢ b'x') digits
      → (evm_addr_to_bytes32 hex (text "0x" ++ digits) ≡ ok bytes)
        ↔ (pad32_address hex (text "0x" ++ digits) ≡ ok bytes)
  evm_addr_to_bytes32-pad32_address digits bytes h =
      agree_on (text "0x" ++ digits) digits bytes (strip_0x-prefix digits) (trim_0x_digits digits h)
