-- ===== src/Solana/Jupiter.antt =====
-- src/solana/jupiter.rs: the quote; `Client` is the client, `Swapped` what its swaps did.
pub mod Client
pub mod Swapped
use pump_poly_router.Base.{ℕ}
use pump_poly_router.Text.{Text, text, parse_u64}
use pump_poly_router.Error.{jupiter_quote, Result, ok_or}

-- `route_plan` is forwarded as it came; it is carried as its JSON text.
pub record QuoteResponse : Type 0 where
  pub input_mint : Text
  pub in_amount : Text
  pub output_mint : Text
  pub out_amount : Text
  pub other_amount_threshold : Text
  pub swap_mode : Text
  pub slippage_bps : ℕ
  pub route_plan : Text
  pub price_impact_pct : Text

unfoldable pub out_amount_u64 : QuoteResponse → Result ℕ
out_amount_u64 q = ok_or (parse_u64 q.out_amount) (jupiter_quote (text "invalid out_amount"))
