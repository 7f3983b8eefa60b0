-- ===== src/Solana/Spl.antt =====
-- src/solana/spl.rs. The RPC client's answers are those of `SplRpc`: a balance comes as decimal text.
use pump_poly_router.Base.{ℕ, ◌++◌}
use pump_poly_router.Text.{Text, text, parse_u64}
use pump_poly_router.Error.{config, spl_token, Result, ok_or}
use pump_poly_router.Types.{Pubkey}
use pump_poly_router.Effect.{Action, call, lift, ◌>>=◌}
use pump_poly_router.External.{Reply}
use pump_poly_router.Platform.{Platform}

pub record SplRpc (World : Type 0) : Type 0 where
  -- `get_token_account_balance`: the field `amount`
  pub account_amount : Pubkey → World → Reply Text × World
  -- `get_token_supply`: the field `decimals`
  pub supply_decimals : Pubkey → World → Reply ℕ × World

module _ {World : Type 0} (p : Platform World) (rpc : SplRpc World) where
  unfoldable pub token_balance : Pubkey → Pubkey → Action World ℕ
  token_balance owner mint = do
    amount ← call (rpc.account_amount (p.associated_token_address owner mint)) spl_token
    lift (ok_or (parse_u64 amount) (spl_token (text "invalid token amount")))

module _ {World : Type 0} (rpc : SplRpc World) where
  unfoldable pub mint_decimals : Pubkey → Action World ℕ
  mint_decimals mint = call (rpc.supply_decimals mint) spl_token

module _ {World : Type 0} (p : Platform World) where
  unfoldable pub ata_for : Pubkey → Pubkey → Pubkey
  ata_for owner mint = p.associated_token_address owner mint

  unfoldable pub parse_pubkey : Text → Result Pubkey
  parse_pubkey s = ok_or (p.pubkey_from_str s) (config (text "invalid pubkey: " ++ s))
