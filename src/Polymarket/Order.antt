-- ===== src/Polymarket/Order.antt =====
-- src/polymarket/order.rs: the result type; `Client` is the order client.
pub mod Client
pub mod Fills
use pump_poly_router.Text.{Text}
use pump_poly_router.Types.{Float}

pub record OrderResult : Type 0 where
  pub order_id : Text
  pub shares_filled : Float
  pub avg_price : Float
