-- ===== src/Executor/New/Calm/Bridge.antt =====
-- Panics in the Solana half of src/bridge/cctp.rs.
use pump_poly_router.Base.{ℕ, ◌+◌, ◌≡◌, refl, ◌≢◌, List, [], ◌∷◌, arith, length}
use pump_poly_router.Text.{Text, strip_0x}
use pump_poly_router.Error.{RouterError, Result, ok, err, panic}
use pump_poly_router.Types.{Pubkey}
use pump_poly_router.External.{HexCodec, IsHex}
use pump_poly_router.Slices.{copied_behind}
use pump_poly_router.Platform.{Platform, Keypair, Signature}
use pump_poly_router.Bridge.Cctp.{evm_addr_to_bytes32}
use pump_poly_router.Bridge.Cctp.Events.{scan_logs}
use pump_poly_router.Bridge.Cctp.Solana.{
  CctpSolanaClient, submit, parse_message_sent_from_tx, or_signature, deposit_for_burn,
  solana_receive_message,
}

-- Bytes that fit are copied.
pub copied_behind_calm :
    (start : ℕ) (bytes : List ℕ) → start + length bytes ≡ 32 → copied_behind start bytes ≢ panic
unfolding copied_behind
copied_behind_calm start bytes fits e = ground (arith, fits)

module _ (hex : HexCodec) (is_hex : IsHex hex) where
  evm_addr_to_bytes32_calm : (addr : Text) → evm_addr_to_bytes32 hex addr ≢ panic
  unfolding evm_addr_to_bytes32
  evm_addr_to_bytes32_calm addr e =
      grind (arith, copied_behind_calm 12, is_hex.length-decode (strip_0x addr))

module _ {World : Type 0} (p : Platform World) (client : CctpSolanaClient) where
  scan_logs_calm :
      (disc : List ℕ) (logs : List Text) → scan_logs p.base64_decode p.hex disc logs ≢ panic
  unfolding scan_logs
  scan_logs_calm disc [] e = cc e
  scan_logs_calm disc (log ∷ logs) e = ground (arith, scan_logs_calm disc logs)

  submit_calm :
      (k : Keypair) (ix : _) (wrap : Text → RouterError) (w : World)
      → (submit p k ix wrap w).0 ≢ panic
  unfolding submit
  submit_calm k ix wrap w e = ground arith

  parse_message_calm :
      (sig : Signature) (w : World) → (parse_message_sent_from_tx p sig w).0 ≢ panic
  unfolding parse_message_sent_from_tx
  parse_message_calm sig w e = grind (arith, scan_logs_calm)

  or_signature_calm :
      (sig : Signature) (out : Result Text × World)
      → out.0 ≢ panic
      → (or_signature p sig out).0 ≢ panic
  unfolding or_signature
  or_signature_calm sig (ok m, w) h e = cc e
  or_signature_calm sig (err x, w) h e = cc e
  or_signature_calm sig (panic, w) h e = h refl

  pub deposit_for_burn_calm :
      (k : Keypair) (m : Pubkey) (n : ℕ) (to : Text) (w : World)
      → IsHex p.hex
      → (deposit_for_burn p client k m n to w).0 ≢ panic
  unfolding deposit_for_burn
  deposit_for_burn_calm k m n to w is_hex e = grind (
    arith,
    evm_addr_to_bytes32_calm p.hex is_hex,
    submit_calm,
    parse_message_calm,
    or_signature_calm,
  )

  pub solana_receive_message_calm :
      (k : Keypair) (m a : List ℕ) (w : World) → (solana_receive_message p client k m a w).0 ≢ panic
  unfolding solana_receive_message
  solana_receive_message_calm k m a w = submit_calm k _ _ w
