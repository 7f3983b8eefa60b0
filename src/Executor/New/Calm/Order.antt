-- ===== src/Executor/New/Calm/Order.antt =====
-- Panics in the client of src/polymarket/order.rs.
use pump_poly_router.Base.{ℕ, ◌+◌, ◌*◌, ◌≤◌, ◌≡◌, refl, ◌≢◌, Option, none, some, arith}
use pump_poly_router.Text.{Text}
use pump_poly_router.Error.{Result, panic}
use pump_poly_router.Types.{Outcome}
use pump_poly_router.Polymarket.Order.Client.{
  PolymarketOrderClient, Clob, connect, token_number, post_order, wait_for_fill,
}
use pump_poly_router.Polymarket.Order.{OrderResult}
use pump_poly_router.Executor.New.{settled}
use pump_poly_router.Polymarket.Order.Fills.{wait_for_fill_calm}

module _ {World Signer Draft Session Decimal Amount Order Signed : Type 0}
    (clob : Clob World Signer Draft Session Decimal Amount Order Signed)
    (client : PolymarketOrderClient) where
  token_number_calm : (t : Text) → token_number clob client t ≢ panic
  unfolding token_number
  token_number_calm t e = ground arith

  pub post_order_calm :
      (t : Text) (n : ℕ) (side : Outcome) (w : World)
      → (post_order clob client t n side w).0 ≢ panic
  unfolding post_order connect
  post_order_calm t n side w e = grind (arith, token_number_calm)

  settled_by :
      (out : Option (Result OrderResult × World)) (returns : out ≢ none)
      → ((r : Result OrderResult) (u : World) → out ≡ some (r, u) → r ≢ panic)
      → (settled out returns).0 ≢ panic
  settled_by none returns good = absurd (returns refl)
  settled_by (some (r, u)) returns good = good r u refl

  -- The result of a loop that returned.
  pub settled_calm :
      (fuel : ℕ) (t : Text) (w : World) (returns : wait_for_fill clob client fuel t w ≢ none)
      → clob.instant (connect clob client w).1 + client.fill_timeout_secs * 1_000_000_000
        ≤ clob.last_instant
      → (settled (wait_for_fill clob client fuel t w) returns).0 ≢ panic
  settled_calm fuel t w returns in_range =
      settled_by (wait_for_fill clob client fuel t w) returns
        (λ r u e. wait_for_fill_calm clob client fuel t w u r in_range e)
