-- ===== src/Bridge/Cctp/Solana.antt =====
-- `CctpSolanaClient` of src/bridge/cctp.rs. `find_program_address` and the rest of the Solana SDK are
-- the platform's.
use pump_poly_router.Base.{
  ℕ, List, [], ◌∷◌, ◌++◌, true, false, Bool, none, some, leb, if◌then◌else◌, length, take, slice,
}
use pump_poly_router.Text.{Text, text}
use pump_poly_router.Error.{
  RouterError, config, solana_rpc, cctp_deposit, cctp_receive, Result, ok, err, panic, ok_or,
}
use pump_poly_router.Words.{be_bytes, be_value}
use pump_poly_router.Types.{Pubkey}
use pump_poly_router.Effect.{Action, call, lift, pure, ◌>>=◌}
use pump_poly_router.Platform.{Platform, Keypair, Signature, AccountMeta, Instruction}
use pump_poly_router.Config.{cctp_polygon_domain}
use pump_poly_router.Evm.Cctp.{extract_nonce_from_cctp_message}
use pump_poly_router.Bridge.Cctp.{burn_data, receive_data, evm_addr_to_bytes32}
use pump_poly_router.Bridge.Cctp.Events.{scan_logs}

pub record CctpSolanaClient : Type 0 where
  pub token_messenger_program : Pubkey
  pub message_transmitter_program : Pubkey

abbrev pub cctp_message_transmitter_program : Text
cctp_message_transmitter_program = text "CCTPmbSD7gX1bxKPAmg77w8oFzNFpaQiQUWD43TKaecd"

-- `AccountMeta::new` and `AccountMeta::new_readonly`
abbrev pub writable : Pubkey → Bool → AccountMeta
writable key signs = record { pubkey = key; is_signer = signs; is_writable = true }

abbrev pub readonly : Pubkey → Bool → AccountMeta
readonly key signs = record { pubkey = key; is_signer = signs; is_writable = false }

-- The source domain in the message, or Polygon's for a short one.
unfoldable pub source_domain : List ℕ → ℕ
source_domain message =
    if leb 8 (length message) then be_value (slice 4 4 message) else cctp_polygon_domain

module _ {World : Type 0} (p : Platform World) where
  -- `CctpSolanaClient::new`
  unfoldable pub new_solana_client : Text → Result CctpSolanaClient
  new_solana_client token_messenger_program_id =
      elim (p.pubkey_from_str token_messenger_program_id) [
        | none ↦ err (config (text "invalid CCTP program id"))
        | some program ↦ elim (p.pubkey_from_str cctp_message_transmitter_program) [
          | none ↦ panic
          | some transmitter ↦ ok (record {
            token_messenger_program = program;
            message_transmitter_program = transmitter;
          })
        ]
      ]

  unfoldable pub burn_instruction : CctpSolanaClient → Keypair → Pubkey → ℕ → List ℕ → Instruction
  burn_instruction client payer usdc_mint amount mint_recipient = record {
    program_id = client.token_messenger_program;
    accounts =
        writable (p.pubkey_of payer) true
        ∷ readonly
            (p.find_program_address (text "token_messenger" ∷ []) client.token_messenger_program)
            false
        ∷ writable
            (p.find_program_address (text "message_transmitter" ∷ [])
              client.message_transmitter_program)
            false
        ∷ readonly
            (p.find_program_address (text "token_minter" ∷ []) client.token_messenger_program) false
        ∷ writable (p.associated_token_address (p.pubkey_of payer) usdc_mint) false
        ∷ writable usdc_mint false
        ∷ readonly p.spl_token_id false
        ∷ readonly p.system_program_id false
        ∷ [];
    instruction_data = burn_data amount mint_recipient;
  }

  unfoldable pub receive_instruction : CctpSolanaClient → Keypair → List ℕ → List ℕ → Instruction
  receive_instruction client payer message attestation = record {
    program_id = client.message_transmitter_program;
    accounts =
        writable (p.pubkey_of payer) true
        ∷ writable
            (p.find_program_address (text "message_transmitter" ∷ [])
              client.message_transmitter_program)
            false
        ∷ writable
            (p.find_program_address
              (text "used_nonces"
                ∷ be_bytes 4 (source_domain message)
                ∷ be_bytes 8 (extract_nonce_from_cctp_message message)
                ∷ [])
              client.message_transmitter_program)
            false
        ∷ readonly p.system_program_id false
        ∷ [];
    instruction_data =
        take 8 (p.sha256 (text "global:receive_message")) ++ receive_data message attestation;
  }

  -- A transaction of one instruction, signed by the payer and confirmed.
  unfoldable pub submit : Keypair → Instruction → (Text → RouterError) → Action World Signature
  submit payer ix wrap = do
    recent_blockhash ← call p.latest_blockhash solana_rpc
    call (p.send_and_confirm (p.signed_transaction (ix ∷ []) payer recent_blockhash)) wrap

  unfoldable pub parse_message_sent_from_tx : Signature → Action World Text
  parse_message_sent_from_tx sig = do
    meta ← call (p.transaction_logs sig) (λ e. cctp_deposit (text "get_transaction: " ++ e))
    log_messages ← lift (ok_or meta (cctp_deposit (text "no transaction meta")))
    logs ← lift (ok_or log_messages (cctp_deposit (text "no log messages in tx meta")))
    lift (scan_logs p.base64_decode p.hex (take 8 (p.sha256 (text "event:MessageSent"))) logs)

  -- `.unwrap_or_else(..)`: the signature stands in for a message that cannot be read.
  unfoldable pub or_signature : Signature → Result Text × World → Result Text × World
  or_signature sig (ok message, w) = (ok message, w)
  or_signature sig (err e, w) = (ok (p.hex.hex_encode sig), w)
  or_signature sig (panic, w) = (panic, w)

  unfoldable pub deposit_for_burn :
      CctpSolanaClient → Keypair → Pubkey → ℕ → Text → Action World (Signature × Text)
  deposit_for_burn client payer usdc_mint amount recipient_evm_address = do
    mint_recipient ← lift (evm_addr_to_bytes32 p.hex recipient_evm_address)
    sig ← submit payer (burn_instruction client payer usdc_mint amount mint_recipient) cctp_deposit
    message_bytes ← (λ w. or_signature sig (parse_message_sent_from_tx sig w))
    pure (sig, text "0x" ++ message_bytes)

  unfoldable pub solana_receive_message :
      CctpSolanaClient → Keypair → List ℕ → List ℕ → Action World Signature
  solana_receive_message client payer message attestation =
      submit payer (receive_instruction client payer message attestation) cctp_receive
