-- ===== src/Executor/State.antt =====
-- The state of `TradeRouter`, and the clients that its steps call. A client's methods are actions on
-- the world.
use pump_poly_router.Base.{ℕ, List, Option}
use pump_poly_router.Text.{Text}
use pump_poly_router.Effect.{Action}
use pump_poly_router.Types.{Pubkey, Outcome}
use pump_poly_router.Config.{RouterConfig}
use pump_poly_router.Store.{OrderStore}
use pump_poly_router.Platform.{Keypair, Signature}
use pump_poly_router.Bridge.Attestation.{AttestationResponse}
use pump_poly_router.Polymarket.Order.{OrderResult}
use pump_poly_router.Polymarket.Resolver.{ResolutionOutcome}
use pump_poly_router.Solana.Jupiter.{QuoteResponse}

pub record TradeRouter : Type 0 where
  pub config : RouterConfig
  pub store : OrderStore
  pub consecutive_failures : ℕ
  pub daily_volume_usdc : ℕ
  pub daily_volume_reset_ts : ℕ

-- The methods that the steps call on the fields `jupiter`, `cctp_solana`, `cctp_polygon`,
-- `attestation`, `poly_client`, `resolver` and `settlement`, and `spl::token_balance`.
pub record Clients (World : Type 0) : Type 0 where
  pub get_quote : Text → Text → ℕ → ℕ → Action World QuoteResponse
  pub get_swap_transaction : QuoteResponse → Pubkey → Option ℕ → Action World Text
  pub execute_swap : Text → Keypair → Action World Signature
  pub swap : Text → Text → ℕ → ℕ → Keypair → Action World (Signature × ℕ)
  pub token_balance : Pubkey → Pubkey → Action World ℕ
  pub deposit_for_burn : Keypair → Pubkey → ℕ → Text → Action World (Signature × Text)
  pub solana_receive_message : Keypair → List ℕ → List ℕ → Action World Signature
  pub polygon_receive_message : Text → Text → Action World Text
  pub deposit_for_burn_return_leg : Text → ℕ → List ℕ → Text → Action World (Text × Text)
  pub get_attestation : Text → Action World AttestationResponse
  pub post_order : Text → ℕ → Outcome → Action World Text
  pub wait_for_fill : Text → Action World OrderResult
  pub is_resolved : Text → Action World (Option ResolutionOutcome)
  pub redeem_positions : Text → Text → List ℕ → Action World Text
  pub usdc_balance : Text → Text → Action World ℕ
