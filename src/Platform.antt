-- ===== src/Platform.antt =====
-- The Solana SDK, the clock and the local files as the router uses them: foreign code, taken as one
-- parameter. A key pair, a public key, a signature and a serialised transaction are their bytes.
use pump_poly_router.Base.{ℕ, List, Option, Bool}
use pump_poly_router.Text.{Text}
use pump_poly_router.External.{Reply, HexCodec, Crypto}
use pump_poly_router.Types.{Pubkey, DateTime}
use pump_poly_router.Store.{Files}

abbrev pub Keypair : Type 0
Keypair = List ℕ

abbrev pub Signature : Type 0
Signature = List ℕ

-- `AccountMeta`
pub record AccountMeta : Type 0 where
  pub pubkey : Pubkey
  pub is_signer : Bool
  pub is_writable : Bool

-- `Instruction`
pub record Instruction : Type 0 where
  pub program_id : Pubkey
  pub accounts : List AccountMeta
  pub instruction_data : List ℕ

pub record Platform (World : Type 0) : Type 0 where
  pub hex : HexCodec
  pub crypto : Crypto
  pub files : Files World
  -- `Utc::now()` and `SystemTime::now()`, in nanoseconds since the epoch
  pub read_clock : World → DateTime × World
  -- `read_keypair_file` behind `shellexpand::tilde`
  pub read_keypair : Text → World → Reply Keypair × World
  pub pubkey_of : Keypair → Pubkey
  pub pubkey_from_str : Text → Option Pubkey
  pub pubkey_to_string : Pubkey → Text
  pub signature_to_string : Signature → Text
  pub associated_token_address : Pubkey → Pubkey → Pubkey
  -- The first part of `Pubkey::find_program_address`, for the seeds and the program
  pub find_program_address : List (List ℕ) → Pubkey → Pubkey
  pub spl_token_id : Pubkey
  pub system_program_id : Pubkey
  -- Crates `sha2` and `base64`
  pub sha256 : List ℕ → List ℕ
  pub base64_decode : Text → Reply (List ℕ)
  -- `system_instruction::transfer`
  pub transfer : Pubkey → Pubkey → ℕ → Instruction
  -- `Transaction::new_signed_with_payer` for the payer's key and a recent block hash
  pub signed_transaction : List Instruction → Keypair → List ℕ → List ℕ
  pub latest_blockhash : World → Reply (List ℕ) × World
  -- `get_transaction`: the transaction's `meta`, and its log messages
  pub transaction_logs : Signature → World → Reply (Option (Option (List Text))) × World
  pub send_and_confirm : List ℕ → World → Reply Signature × World
  -- `tokio::time::sleep`, in milliseconds
  pub sleep : ℕ → World → World
