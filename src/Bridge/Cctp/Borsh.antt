-- ===== src/Bridge/Cctp/Borsh.antt =====
-- The instruction data for Solana of src/bridge/cctp.rs, read back by a Borsh reader.
use pump_poly_router.Base.{
  ℕ, ◌^◌, ◌<◌, ◌≡◌, refl, sym, ap, ◌∙◌, true, Option, none, some, List, [], ◌++◌, append_assoc,
  append-nil, arith, leb, if◌then◌else◌, length, take, drop, length-append, length-take,
  take-append_left, drop-append_left, slice,
}
use pump_poly_router.Text.{text}
use pump_poly_router.Words.{IsU64, u32, le_bytes, le_value}
use pump_poly_router.Words.Bytes.{length-le_bytes, le_value-le_bytes}
use pump_poly_router.Slices.{slice-middle}
use pump_poly_router.Types.{Pubkey}
use pump_poly_router.Config.{cctp_polygon_domain}
use pump_poly_router.Platform.{Platform, Keypair}
use pump_poly_router.Bridge.Cctp.{
  deposit_for_burn_discriminator, burn_data, borsh_bytes, receive_data,
}
use pump_poly_router.Bridge.Cctp.Solana.{CctpSolanaClient, burn_instruction, receive_instruction}

-- A `Vec<u8>` at the front of a Borsh stream, and what follows it.
unfoldable pub read_vec : List ℕ → Option (List ℕ × List ℕ)
read_vec bs =
    let size = le_value (take 4 bs) in
    if leb size (length (drop 4 bs))
    then some (take size (drop 4 bs), drop size (drop 4 bs))
    else none

read_vec-borsh_bytes :
    (v rest : List ℕ) → length v < 2 ^ 32 → read_vec (borsh_bytes v ++ rest) ≡ some (v, rest)
unfolding borsh_bytes read_vec
read_vec-borsh_bytes v rest h =
    let head = le_bytes 4 (u32 (length v)) in
    let four = length-le_bytes 4 (u32 (length v)) in
    let shape : (head ++ v) ++ rest ≡ head ++ (v ++ rest) = append_assoc head v rest in
    let size : le_value head ≡ length v =
      le_value-le_bytes 4 (u32 (length v)) (omega arith) ∙ omega arith in
    let fits : leb (length v) (length (v ++ rest)) ≡ true = ground (arith, length-append v rest) in
    rw (shape, take-append_left 4 head (v ++ rest) four, drop-append_left 4 head (v ++ rest) four)
      (rw (size, fits)
        (rw (take-append_left (length v) v rest refl, drop-append_left (length v) v rest refl)
          refl))

-- `(message, attestation)`, and nothing behind them.
abbrev pub read_receive : List ℕ → Option (List ℕ × List ℕ)
read_receive bs = elim (read_vec bs) [
  | none ↦ none
  | some (message, rest) ↦ elim (read_vec rest) [
    | some (attestation, []) ↦ some (message, attestation)
    | _ ↦ none
  ]
]

read_receive-receive_data :
    (m a : List ℕ)
    → length m < 2 ^ 32
    → length a < 2 ^ 32
    → read_receive (receive_data m a) ≡ some (m, a)
unfolding receive_data
read_receive-receive_data m a hm ha =
    let one = read_vec-borsh_bytes m (borsh_bytes a) hm in
    let two : read_vec (borsh_bytes a) ≡ some (a, []) =
      ap read_vec (sym (append-nil (borsh_bytes a))) ∙ read_vec-borsh_bytes a [] ha in
    rw (one, read_receive) (rw two refl)

-- `(amount, destination_domain, mint_recipient)` of a `depositForBurn` instruction.
abbrev pub read_burn : List ℕ → ℕ × ℕ × List ℕ
read_burn bs = (le_value (slice 8 8 bs), le_value (slice 16 4 bs), drop 20 bs)

read_burn-burn_data :
    (amount : ℕ) (recipient : List ℕ)
    → IsU64 amount
    → (take 8 (burn_data amount recipient) ≡ deposit_for_burn_discriminator)
      × (read_burn (burn_data amount recipient) ≡ (amount, cctp_polygon_domain, recipient))
unfolding burn_data
read_burn-burn_data amount recipient h =
    let low = le_bytes 8 amount in
    let domain = le_bytes 4 cctp_polygon_domain in
    let l8 = length-le_bytes 8 amount in
    let l4 = length-le_bytes 4 cctp_polygon_domain in
    let cut = take-append_left 8 low (domain ++ recipient) l8 in
    let past = drop-append_left 8 low (domain ++ recipient) l8 in
    let shape : low ++ (domain ++ recipient) ≡ (low ++ domain) ++ recipient =
      sym (append_assoc low domain recipient) in
    let last : drop 12 (low ++ (domain ++ recipient)) ≡ recipient =
      ap (drop 12) shape
      ∙ drop-append_left 12 (low ++ domain) recipient
          (length-append low domain ∙ omega (arith, l8, l4)) in
    let v8 = le_value-le_bytes 8 amount (omega arith) in
    let v4 = le_value-le_bytes 4 cctp_polygon_domain (omega arith) in
    let mid : take 4 (drop 8 (low ++ (domain ++ recipient))) ≡ domain =
      slice-middle 8 4 low domain recipient l8 l4 in
    (refl, rw (cut, mid, last, v8, v4) refl)

module _ {World : Type 0} (p : Platform World) (client : CctpSolanaClient) (payer : Keypair) where
  -- The data of the `receiveMessage` instruction is, read as Anchor reads it (8 bytes that name the
  -- instruction, then two Borsh byte vectors and nothing else), exactly the message and the
  -- attestation, where both are shorter than 2 ^ 32 bytes and SHA-256 returns 32 bytes.
  pub read_receive-receive_instruction :
      (m a : List ℕ)
      → length m < 2 ^ 32
      → length a < 2 ^ 32
      → length (p.sha256 (text "global:receive_message")) ≡ 32
      → let bs = (receive_instruction p client payer m a).instruction_data in
        (take 8 bs ≡ take 8 (p.sha256 (text "global:receive_message")))
        × (read_receive (drop 8 bs) ≡ some (m, a))
  unfolding receive_instruction
  read_receive-receive_instruction m a hm ha h =
      let disc = take 8 (p.sha256 (text "global:receive_message")) in
      let eight : length disc ≡ 8 =
        omega (arith, length-take 8 (p.sha256 (text "global:receive_message")), h) in
      (
        take-append_left 8 disc (receive_data m a) eight,
        ap read_receive (drop-append_left 8 disc (receive_data m a) eight)
            ∙ read_receive-receive_data m a hm ha,
      )

  -- The data of the `depositForBurn` instruction is the instruction's discriminator and, in Borsh, the
  -- u64 amount, Polygon's domain 7 and the recipient.
  pub read_burn-burn_instruction :
      (mint : Pubkey) (amount : ℕ) (recipient : List ℕ)
      → IsU64 amount
      → let bs = (burn_instruction p client payer mint amount recipient).instruction_data in
        (take 8 bs ≡ deposit_for_burn_discriminator)
        × (read_burn bs ≡ (amount, cctp_polygon_domain, recipient))
  unfolding burn_instruction
  read_burn-burn_instruction mint amount recipient h = read_burn-burn_data amount recipient h
