-- ===== src/Executor/New/Calm/Services.antt =====
-- Panics in src/solana/jupiter.rs, src/solana/spl.rs and src/bridge/attestation.rs.
use pump_poly_router.Base.{ℕ, ◌≢◌, Option, arith}
use pump_poly_router.Text.{Text}
use pump_poly_router.Error.{panic}
use pump_poly_router.Types.{Pubkey}
use pump_poly_router.Platform.{Platform, Keypair}
use pump_poly_router.Solana.Spl.{SplRpc, token_balance}
use pump_poly_router.Solana.Jupiter.{QuoteResponse, out_amount_u64}
use pump_poly_router.Solana.Jupiter.Client.{
  Swaps, get_quote, get_swap_transaction, execute_swap, swap,
}
use pump_poly_router.Bridge.Attestation.{Polls, get_attestation}

module _ {World Page Message : Type 0} (p : Platform World) (swaps : Swaps World Page Message)
    (url : Text) where
  pub get_quote_calm :
      (a b : Text) (n m : ℕ) (w : World) → (get_quote p swaps url a b n m w).0 ≢ panic
  unfolding get_quote
  get_quote_calm a b n m w e = ground arith

  pub get_swap_transaction_calm :
      (q : QuoteResponse) (k : Pubkey) (fee : Option ℕ) (w : World)
      → (get_swap_transaction p swaps url q k fee w).0 ≢ panic
  unfolding get_swap_transaction
  get_swap_transaction_calm q k fee w e = ground arith

  pub execute_swap_calm :
      (tx : Text) (k : Keypair) (w : World) → (execute_swap p swaps url tx k w).0 ≢ panic
  unfolding execute_swap
  execute_swap_calm tx k w e = ground arith

  pub swap_calm :
      (a b : Text) (n m : ℕ) (k : Keypair) (w : World) → (swap p swaps url a b n m k w).0 ≢ panic
  unfolding swap out_amount_u64
  swap_calm a b n m k w e =
      grind (arith, get_quote_calm, get_swap_transaction_calm, execute_swap_calm)

module _ {World : Type 0} (p : Platform World) (spl : SplRpc World) where
  pub token_balance_calm : (a b : Pubkey) (w : World) → (token_balance p spl a b w).0 ≢ panic
  unfolding token_balance
  token_balance_calm a b w e = ground arith

module _ {World Answer : Type 0} (polls : Polls World Answer) (url : Text) where
  pub get_attestation_calm :
      (hash : Text) (w : World) → (get_attestation polls url hash w).0 ≢ panic
  unfolding get_attestation
  get_attestation_calm hash w e = ground arith
