-- ===== src/Bridge/Cctp/Events/Found.antt =====
-- What the readers of `MessageSent` events in src/bridge/cctp.rs return.
use pump_poly_router.Base.{
  ℕ, ◌+◌, ◌^◌, ◌<◌, ◌≡◌, refl, sym, ap, ◌∙◌, true, none, some, List, [], ◌∷◌, ◌++◌, append_assoc,
  arith, leb, length, take, All, length-append, take-append_left, slice,
}
use pump_poly_router.Text.{Text, text, text_eq, text_eq_iff, trim, strip_prefix-append}
use pump_poly_router.Error.{ok}
use pump_poly_router.Words.{u32, le_bytes, le_value}
use pump_poly_router.Words.Bytes.{length-le_bytes, le_value-le_bytes}
use pump_poly_router.Slices.{slice-middle}
use pump_poly_router.External.{Reply, fine, HexCodec}
use pump_poly_router.Bridge.Cctp.{borsh_bytes}
use pump_poly_router.Bridge.Cctp.Events.{anchor_message, data_entry, log_message, scan_logs}

anchor_message-event :
    (disc msg extra : List ℕ)
    → length disc ≡ 8
    → length msg < 2 ^ 32
    → anchor_message disc (disc ++ (borsh_bytes msg ++ extra)) ≡ some msg
unfolding anchor_message borsh_bytes
anchor_message-event disc msg extra hd hm =
    let head = le_bytes 4 (u32 (length msg)) in
    let bytes = disc ++ ((head ++ msg) ++ extra) in
    let l4 = length-le_bytes 4 (u32 (length msg)) in
    let total : length bytes ≡ 12 + length msg + length extra =
      length-append disc ((head ++ msg) ++ extra)
      ∙ omega (arith, length-append (head ++ msg) extra, length-append head msg, l4, hd) in
    let long : leb 12 (length bytes) ≡ true = ground (arith, total) in
    let named : text_eq (take 8 bytes) disc ≡ true =
      (text_eq_iff (take 8 bytes) disc).1 (take-append_left 8 disc ((head ++ msg) ++ extra) hd) in
    let shape : disc ++ ((head ++ msg) ++ extra) ≡ disc ++ (head ++ (msg ++ extra)) =
      ap (λ x. disc ++ x) (append_assoc head msg extra) in
    let shape2 : disc ++ (head ++ (msg ++ extra)) ≡ (disc ++ head) ++ (msg ++ extra) =
      sym (append_assoc disc head (msg ++ extra)) in
    let size : le_value (slice 8 4 bytes) ≡ length msg =
      ap (λ x. le_value (slice 8 4 x)) shape
      ∙ (ap le_value (slice-middle 8 4 disc head (msg ++ extra) hd l4)
          ∙ (le_value-le_bytes 4 (u32 (length msg)) (omega arith) ∙ omega arith)) in
    let body : slice 12 (length msg) bytes ≡ msg =
      ap (slice 12 (length msg)) (shape ∙ shape2)
      ∙ slice-middle 12 (length msg) (disc ++ head) msg extra
          (length-append disc head ∙ omega (arith, hd, l4)) refl in
    let fits : leb (12 + length msg) (length bytes) ≡ true = ground (arith, total) in
    rw (long, named, size, fits, body) refl

module _ (decode64 : Text → Reply (List ℕ)) (disc : List ℕ) where
  log_message-event :
      (b64 : Text) (msg extra : List ℕ)
      → length disc ≡ 8
      → decode64 (trim b64) ≡ fine (disc ++ (borsh_bytes msg ++ extra))
      → length msg < 2 ^ 32
      → log_message decode64 disc (text "Program data: " ++ b64) ≡ some msg
  unfolding log_message data_entry
  log_message-event b64 msg extra sized e h =
      ap (data_entry decode64 disc) (strip_prefix-append (text "Program data: ") b64)
      ∙ rw (e, data_entry) (anchor_message-event disc msg extra sized h)

module _ (decode64 : Text → Reply (List ℕ)) (hex : HexCodec) (disc : List ℕ) where
  -- In the logs of a Solana transaction, whatever lines stand before it that hold no such event, the
  -- first `Program data` line whose Base64 decodes to the event's discriminator and a Borsh message of
  -- fewer than 2 ^ 32 bytes gives exactly that message, in hex; what follows does not matter.
  pub scan_logs-event :
      (before after : List Text) (b64 : Text) (msg extra : List ℕ)
      → length disc ≡ 8
      → All (λ log. log_message decode64 disc log ≡ none) before
      → decode64 (trim b64) ≡ fine (disc ++ (borsh_bytes msg ++ extra))
      → length msg < 2 ^ 32
      → scan_logs decode64 hex disc (before ++ ((text "Program data: " ++ b64) ∷ after))
        ≡ ok (hex.hex_encode msg)
  unfolding scan_logs
  scan_logs-event [] after b64 msg extra sized quiet e h =
      rw (log_message-event decode64 disc b64 msg extra sized e h, scan_logs) refl
  scan_logs-event (log ∷ before) after b64 msg extra sized (none_here, quiet) e h =
      rw (none_here, scan_logs) (scan_logs-event before after b64 msg extra sized quiet e h)
