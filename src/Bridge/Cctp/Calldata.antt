-- ===== src/Bridge/Cctp/Calldata.antt =====
-- The calldata of `receiveMessage` on Polygon, read back by a reader of the contract ABI.
pub mod Layout
use pump_poly_router.Base.{
  ℕ, ◌+◌, ◌-◌, ◌*◌, ◌^◌, ◌≤◌, ◌<◌, ◌≡◌, refl, sym, ap, ◌∙◌, subst, inl, inr, true, Option, none,
  some, List, [], ◌++◌, append_assoc, arith, leb, if◌then◌else◌, length, take, drop, replicate, All,
  length-append, length-replicate, All-append, All-replicate, slice,
}
use pump_poly_router.Text.{Text, text, trim_0x, length-trim_0x}
use pump_poly_router.Error.{ok}
use pump_poly_router.Words.{IsByte, be_value}
use pump_poly_router.Abi.{word, length-word, word-IsByte, be_value-word}
use pump_poly_router.Slices.{slice-middle}
use pump_poly_router.External.{HexCodec, IsHex, fine, Reply-cases}
use pump_poly_router.Bridge.Cctp.Calldata.Layout.{
  abi_bytes, parts, before_second, length-before_second, parts-IsByte, first_read, second_read,
}
use pump_poly_router.Bridge.Cctp.{
  pad32, padded_len, receive_arguments, receive_message_selector, encode_receive_message_calldata,
}

abbrev gap : List ℕ → ℕ
gap bs = padded_len (length bs) - length bs

abbrev second_offset : List ℕ → ℕ
second_offset m = 64 + 32 + padded_len (length m)

module _ (m a : List ℕ) (hm : length m < 2 ^ 62) (ha : length a < 2 ^ 62) where
  abbrev second : ℕ
  second = second_offset m

  abbrev block : List ℕ
  block =
      parts (word 64) (word second) (word (length m)) m (replicate (gap m) 0) (word (length a)) a
        (replicate (gap a) 0)

  receive_arguments-eq-block : receive_arguments m a ≡ block
  unfolding receive_arguments pad32
  receive_arguments-eq-block = refl

  size_before_second :
      length (
        before_second
          (word 64)
          (word second)
          (word (length m))
          m
          (replicate (gap m) 0)
          (word (length a))
          a
          (replicate (gap a) 0))
      ≡ second
  size_before_second =
      length-before_second (word 64) (word second) (word (length m)) m (replicate (gap m) 0)
        (word (length a)) a (replicate (gap a) 0)
      ∙ omega (
        arith,
        length-word 64,
        length-word second,
        length-word (length m),
        length-replicate {A = ℕ} (gap m) 0,
      )

  both_read : (abi_bytes 0 block ≡ some m) × (abi_bytes 1 block ≡ some a)
  both_read =
      let vw = be_value-word 64 (omega arith) in
      let vl = be_value-word (length m) (omega arith) in
      let vx = be_value-word second (omega arith) ∙ sym size_before_second in
      let vk = be_value-word (length a) (omega arith) in
      let w64 = length-word 64 in
      let wx = length-word second in
      let wl = length-word (length m) in
      let wk = length-word (length a) in
      (
        first_read (word 64) (word second) (word (length m)) m (replicate (gap m) 0)
            (word (length a)) a (replicate (gap a) 0) w64 wx wl wk vw vl vx vk,
        second_read (word 64) (word second) (word (length m)) m (replicate (gap m) 0)
            (word (length a)) a (replicate (gap a) 0) w64 wx wl wk vw vl vx vk,
      )

-- What the calldata of a `receiveMessage` call says.
pub record ReceiveCall (hex : HexCodec) (message attestation calldata : Text) : Type 0 where
  pub arguments : List ℕ
  pub message_bytes : List ℕ
  pub attestation_bytes : List ℕ
  pub selector : take 10 calldata ≡ text "0x57ecfd28"
  pub decoded : hex.hex_decode (drop 10 calldata) ≡ fine arguments
  pub message_decoded : hex.hex_decode (trim_0x message) ≡ fine message_bytes
  pub attestation_decoded : hex.hex_decode (trim_0x attestation) ≡ fine attestation_bytes
  pub first : abi_bytes 0 arguments ≡ some message_bytes
  pub second_argument : abi_bytes 1 arguments ≡ some attestation_bytes

module _ (hex : HexCodec) (is_hex : IsHex hex) where
  block-IsByte : (m a : List ℕ) → All IsByte m → All IsByte a → All IsByte (receive_arguments m a)
  unfolding receive_arguments pad32
  block-IsByte m a hm ha =
      let zeros = λ (n : ℕ). All-replicate IsByte n 0 (omega arith) in
      parts-IsByte (word 64) (word (second_offset m)) (word (length m)) m (replicate (gap m) 0)
        (word (length a)) a (replicate (gap a) 0) (word-IsByte 64) (word-IsByte (second_offset m))
        (word-IsByte (length m)) hm (zeros (gap m)) (word-IsByte (length a)) ha (zeros (gap a))

  decoded_size :
      (t : Text) (bs : List ℕ)
      → hex.hex_decode (trim_0x t) ≡ fine bs
      → length t < 2 ^ 62
      → length bs < 2 ^ 62
  decoded_size t bs e h = omega (arith, is_hex.length-decode (trim_0x t) bs e, length-trim_0x t)

  built-ReceiveCall :
      (message attestation : Text) (m a : List ℕ)
      → hex.hex_decode (trim_0x message) ≡ fine m
      → hex.hex_decode (trim_0x attestation) ≡ fine a
      → length message < 2 ^ 62
      → length attestation < 2 ^ 62
      → ReceiveCall hex message attestation
          (text "0x" ++ (receive_message_selector ++ hex.hex_encode (receive_arguments m a)))
  unfolding text
  built-ReceiveCall message attestation m a em ea hm ha =
      let (one, two) =
        both_read m a (decoded_size message m em hm) (decoded_size attestation a ea ha) in
      let shape =
        receive_arguments-eq-block m a (decoded_size message m em hm)
          (decoded_size attestation a ea ha) in
      record {
        arguments = receive_arguments m a;
        message_bytes = m;
        attestation_bytes = a;
        selector = refl;
        decoded = is_hex.decode-encode (receive_arguments m a) (
            block-IsByte m a (is_hex.decode_bytes (trim_0x message) m em)
              (is_hex.decode_bytes (trim_0x attestation) a ea));
        message_decoded = em;
        attestation_decoded = ea;
        first = ap (abi_bytes 0) shape ∙ one;
        second_argument = ap (abi_bytes 1) shape ∙ two;
      }

  -- The calldata that `encode_receive_message_calldata` returns for texts of fewer than 2 ^ 62 bytes
  -- is, decoded by a reader of the contract ABI, a call of `receiveMessage` with the selector
  -- 0x57ecfd28, whose two arguments are exactly the message and the attestation.
  pub encode_receive_message_calldata-ReceiveCall :
      (message attestation calldata : Text)
      → length message < 2 ^ 62
      → length attestation < 2 ^ 62
      → encode_receive_message_calldata hex message attestation ≡ ok calldata
      → ReceiveCall hex message attestation calldata
  unfolding encode_receive_message_calldata
  encode_receive_message_calldata-ReceiveCall message attestation calldata hm ha e =
      elim (Reply-cases (hex.hex_decode (trim_0x message))) [
        | inr (x, bad) ↦ absurd (cc (rw bad at e))
        | inl (m, em) ↦ elim (Reply-cases (hex.hex_decode (trim_0x attestation))) [
          | inr (x, bad) ↦ absurd (cc (rw (em, bad) at e))
          | inl (a, ea) ↦
              let call =
                text "0x" ++ (receive_message_selector ++ hex.hex_encode (receive_arguments m a)) in
              let given : ok call ≡ ok calldata = rw (em, ea) at e in
              let same : call ≡ calldata = cc given in
              subst (λ (x : Text). ReceiveCall hex message attestation x) same
                (built-ReceiveCall message attestation m a em ea hm ha)
        ]
      ]
