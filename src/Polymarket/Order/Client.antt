-- ===== src/Polymarket/Order/Client.antt =====
-- `PolymarketOrderClient` of src/polymarket/order.rs. The exchange's SDK, the big integers and the
-- decimals are parameters. The loop of `wait_for_fill` runs on fuel.
use pump_poly_router.Base.{
  ℕ, ◌+◌, ◌*◌, ◌++◌, Bool, ◌||◌, Option, none, some, leb, ltb, if◌then◌else◌, or_else,
}
use pump_poly_router.Text.{Text, text, trim_0x}
use pump_poly_router.Text.Parts.{contains}
use pump_poly_router.Words.{ℤ, as_i64}
use pump_poly_router.Error.{poly_order_post, poly_fill_timeout, Result, ok, err, panic, ok_or}
use pump_poly_router.Types.{Float}
use pump_poly_router.Effect.{Action, call, lift, fail, pure, of_reply, ◌>>=◌}
use pump_poly_router.External.{Reply}
use pump_poly_router.Types.{Outcome}
use pump_poly_router.Polling.{Round, rounds}
use pump_poly_router.Polymarket.Order.{OrderResult}

pub record PolymarketOrderClient : Type 0 where
  pub clob_url : Text
  pub private_key_hex : Text
  pub fill_timeout_secs : ℕ

-- What the source reads of the exchange's answers: `{:?}` of the status and `to_string()` of the rest.
pub record OrderState : Type 0 where
  pub status : Text
  pub size_matched : Text
  pub price : Text

pub record PostResponse : Type 0 where
  pub success : Bool
  pub posted_id : Text

-- `polymarket_client_sdk`, `alloy`, `rust_decimal`, the parser of an f64, the clock in nanoseconds, the
-- last instant that an `Instant` can hold, and sleeping for seconds.
pub record Clob (World Signer Draft Session Decimal Amount Order Signed : Type 0) : Type 0 where
  pub signer_from_str : Text → Reply Signer
  pub new_client : Text → Reply Draft
  pub authenticate : Draft → Signer → World → Reply Session × World
  pub decimal_new : ℤ → ℕ → Decimal
  pub amount_usdc : Decimal → Reply Amount
  pub u256_from_hex : Text → Option ℕ
  pub parse_u256 : Text → Option ℕ
  -- A market order to buy a token for an amount
  pub build_buy : Session → ℕ → Amount → World → Reply Order × World
  pub sign_order : Session → Signer → Order → World → Reply Signed × World
  pub send_order : Session → Signed → World → Reply PostResponse × World
  pub fetch_order : Session → Text → World → Reply OrderState × World
  pub cancel_order : Session → Text → World → Reply (Unit {0}) × World
  pub parse_f64 : Text → Option Float
  pub instant : World → ℕ
  pub last_instant : ℕ
  pub sleep_secs : ℕ → World → World

abbrev pub or_zero : Option Float → Float
or_zero none = 0
or_zero (some x) = x

-- A status whose debug text names a match or a fill.
unfoldable pub is_filled : OrderState → Bool
is_filled s = contains (text "Matched") s.status || contains (text "Filled") s.status

module _ {World Signer Draft Session Decimal Amount Order Signed : Type 0}
    (clob : Clob World Signer Draft Session Decimal Amount Order Signed)
    (client : PolymarketOrderClient) where
  -- The signer and the authenticated client, which both methods begin with.
  unfoldable pub connect : Action World (Signer × Session)
  connect = do
    signer ← lift (of_reply (clob.signer_from_str client.private_key_hex) poly_order_post)
    draft ← lift (of_reply (clob.new_client client.clob_url) poly_order_post)
    session ← call (clob.authenticate draft signer) poly_order_post
    pure (signer, session)

  unfoldable pub token_number : Text → Result ℕ
  token_number token_id =
      ok_or (or_else (clob.u256_from_hex (trim_0x token_id)) (clob.parse_u256 token_id))
        (poly_order_post (text "invalid token_id: " ++ token_id))

  -- The side that was bet on goes to the log only.
  unfoldable pub post_order : Text → ℕ → Outcome → Action World Text
  post_order token_id usdc_amount outcome = do
    (signer, session) ← connect
    let usdc_decimal = clob.decimal_new (as_i64 usdc_amount) 6
    token_u256 ← lift (token_number token_id)
    amount ← lift (of_reply (clob.amount_usdc usdc_decimal) poly_order_post)
    order ← call (clob.build_buy session token_u256 amount) poly_order_post
    signed_order ← call (clob.sign_order session signer order) poly_order_post
    post_resp ← call (clob.send_order session signed_order) poly_order_post
    (if post_resp.success
        then pure post_resp.posted_id
        else fail (poly_order_post (text "order not accepted: order_id=" ++ post_resp.posted_id)))

  -- The result of a filled order.
  unfoldable pub fill_result : Text → OrderState → Option (Result OrderResult)
  fill_result order_id s =
      if is_filled s
      then some (
          ok (record {
            order_id = order_id;
            shares_filled = or_zero (clob.parse_f64 s.size_matched);
            avg_price = or_zero (clob.parse_f64 s.price);
          }))
      else none

  -- One round of the loop of `wait_for_fill`.
  abbrev pub fill_round : Session → Text → ℕ → Round World OrderState OrderResult
  fill_round session order_id deadline = record {
    ask = call (clob.fetch_order session order_id) poly_order_post;
    judge = fill_result order_id;
    is_late = λ w. leb deadline (clob.instant w);
    give_up = λ w. (
      err (poly_fill_timeout client.fill_timeout_secs order_id),
      (clob.cancel_order session order_id w).1,
    );
    pause = clob.sleep_secs 2;
  }

  -- `Instant + Duration` panics behind the last instant.
  unfoldable pub polled :
      ℕ → Text → Result (Signer × Session) × World → Option (Result OrderResult × World)
  polled fuel order_id (ok (signer, session), w) =
      let deadline = clob.instant w + client.fill_timeout_secs * 1_000_000_000 in
      if ltb clob.last_instant deadline
      then some (panic, w)
      else rounds (fill_round session order_id deadline) fuel w
  polled fuel order_id (err e, w) = some (err e, w)
  polled fuel order_id (panic, w) = some (panic, w)

  unfoldable pub wait_for_fill : ℕ → Text → World → Option (Result OrderResult × World)
  wait_for_fill fuel order_id w = polled fuel order_id (connect w)

  unfoldable pub after_post : ℕ → Result Text × World → Option (Result OrderResult × World)
  after_post fuel (ok order_id, w) = wait_for_fill fuel order_id w
  after_post fuel (err e, w) = some (err e, w)
  after_post fuel (panic, w) = some (panic, w)

  unfoldable pub buy_position : ℕ → Text → ℕ → Outcome → World → Option (Result OrderResult × World)
  buy_position fuel token_id usdc_amount outcome w =
      after_post fuel (post_order token_id usdc_amount outcome w)
