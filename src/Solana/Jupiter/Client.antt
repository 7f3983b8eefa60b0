-- ===== src/Solana/Jupiter/Client.antt =====
-- `JupiterClient` of src/solana/jupiter.rs. HTTP, the JSON of the requests and answers, `bincode` and
-- the transactions of the Solana SDK are the parameter `swaps`.
use pump_poly_router.Base.{ℕ, List, [], ◌∷◌, ◌++◌, Bool, true, false, Option, none}
use pump_poly_router.Text.{Text, text, decimal}
use pump_poly_router.Error.{http, jupiter_quote, jupiter_swap}
use pump_poly_router.Types.{Pubkey}
use pump_poly_router.Effect.{Action, call, lift, pure, of_reply, ◌>>=◌}
use pump_poly_router.External.{Reply}
use pump_poly_router.Platform.{Platform, Keypair, Signature}
use pump_poly_router.Solana.Jupiter.{QuoteResponse, out_amount_u64}

pub record SwapRequest : Type 0 where
  pub quote_response : QuoteResponse
  pub user_public_key : Text
  pub wrap_and_unwrap_sol : Bool
  pub compute_unit_price_micro_lamports : Option ℕ
  pub as_legacy_transaction : Bool

-- `VersionedTransaction`
pub record VersionedTransaction (Message : Type 0) : Type 0 where
  pub signatures : List Signature
  pub message : Message

pub record Swaps (World Response Message : Type 0) : Type 0 where
  pub fetch : Text → World → Reply Response × World
  pub post_swap : Text → SwapRequest → World → Reply Response × World
  pub accept_status : Response → Reply Response
  pub read_quote : Response → World → Reply QuoteResponse × World
  -- The field `swap_transaction` of a `SwapResponse`
  pub read_swap : Response → World → Reply Text × World
  pub deserialize : List ℕ → Reply (VersionedTransaction Message)
  pub set_recent_blockhash : List ℕ → Message → Message
  pub serialize_message : Message → List ℕ
  pub sign_message : Keypair → List ℕ → Signature
  pub send_versioned : VersionedTransaction Message → World → Reply Signature × World

-- The first signature, or the only one.
abbrev pub signed_first : Signature → List Signature → List Signature
signed_first sig [] = sig ∷ []
signed_first sig (old ∷ others) = sig ∷ others

module _ {World Response Message : Type 0} (p : Platform World)
    (swaps : Swaps World Response Message) (base_url : Text) where
  unfoldable pub get_quote : Text → Text → ℕ → ℕ → Action World QuoteResponse
  get_quote input_mint output_mint amount slippage_bps = do
    resp ←
        call
          (swaps.fetch (
            base_url
            ++ (text "/v6/quote?inputMint="
                ++ (input_mint
                    ++ (text "&outputMint="
                        ++ (output_mint
                            ++ (text "&amount="
                                ++ (decimal amount
                                    ++ (text "&slippageBps=" ++ decimal slippage_bps)))))))))
          http
    accepted ← lift (of_reply (swaps.accept_status resp) jupiter_quote)
    call (swaps.read_quote accepted) jupiter_quote

  unfoldable pub get_swap_transaction : QuoteResponse → Pubkey → Option ℕ → Action World Text
  get_swap_transaction quote user_pubkey priority_fee = do
    let body : SwapRequest = record {
      quote_response = quote;
      user_public_key = p.pubkey_to_string user_pubkey;
      wrap_and_unwrap_sol = true;
      compute_unit_price_micro_lamports = priority_fee;
      as_legacy_transaction = false;
    }
    resp ← call (swaps.post_swap (base_url ++ text "/v6/swap") body) http
    accepted ← lift (of_reply (swaps.accept_status resp) jupiter_swap)
    call (swaps.read_swap accepted) jupiter_swap

  -- The transaction that `execute_swap` sends: with a fresh block hash and the payer's signature.
  unfoldable pub resigned :
      Keypair → List ℕ → VersionedTransaction Message → VersionedTransaction Message
  resigned payer recent_blockhash tx =
      let message = swaps.set_recent_blockhash recent_blockhash tx.message in
      record {
        signatures =
            signed_first (swaps.sign_message payer (swaps.serialize_message message)) tx.signatures;
        message = message;
      }

  unfoldable pub execute_swap : Text → Keypair → Action World Signature
  execute_swap tx_b64 payer = do
    tx_bytes ←
        lift (of_reply (p.base64_decode tx_b64) (λ e. jupiter_swap (text "base64 decode: " ++ e)))
    tx ←
        lift
          (of_reply (swaps.deserialize tx_bytes) (λ e. jupiter_swap (text "tx deserialise: " ++ e)))
    recent_blockhash ← call p.latest_blockhash (λ e. jupiter_swap (text "get blockhash: " ++ e))
    call (swaps.send_versioned (resigned payer recent_blockhash tx))
        (λ e. jupiter_swap (text "send_and_confirm: " ++ e))

  unfoldable pub swap : Text → Text → ℕ → ℕ → Keypair → Action World (Signature × ℕ)
  swap input_mint output_mint amount slippage_bps payer = do
    quote ← get_quote input_mint output_mint amount slippage_bps
    out_amount ← lift (out_amount_u64 quote)
    tx_b64 ← get_swap_transaction quote (p.pubkey_of payer) none
    sig ← execute_swap tx_b64 payer
    pure (sig, out_amount)
