-- ===== src/Tests/OnServices.antt =====
-- The theorems on the order client and the swap client, applied.
use pump_poly_router.Base.{
  ℕ, ◌^◌, ◌≤◌, ap, ◌+◌, ◌*◌, ◌≡◌, ◌≢◌, refl, arith, List, [], ◌∷◌, ◌++◌, some, true, leb,
  if◌then◌else◌, replicate,
}
use pump_poly_router.Text.{Text, text, parse_u64, strip_prefix}
use pump_poly_router.Text.Parts.{contains}
use pump_poly_router.Error.{Result, ok, panic}
use pump_poly_router.External.{fine}
use pump_poly_router.Polling.{after_answer, after_ask, rounds}
use pump_poly_router.Polymarket.Order.{OrderResult}
use pump_poly_router.Polymarket.Order.Client.{
  PolymarketOrderClient, Clob, is_filled, connect, fill_result, polled, wait_for_fill,
}
use pump_poly_router.Polymarket.Order.Fills.{
  IsClock, FillOutcome, wait_for_fill_returns, wait_for_fill-FillOutcome,
}
use pump_poly_router.Solana.Jupiter.{QuoteResponse, out_amount_u64}
use pump_poly_router.Solana.Jupiter.Client.{
  Swaps, get_quote, get_swap_transaction, execute_swap, swap,
}
use pump_poly_router.Solana.Jupiter.Swapped.{Swapped, swap-Swapped}
use pump_poly_router.Tests.Fixtures.{Machine, boot, wallet, desk}

abbrev pub trader : PolymarketOrderClient
trader = record {
  clob_url = text "https://clob";
  private_key_hex = text "0x07";
  fill_timeout_secs = 4;
}

-- An exchange that fills the order two seconds after the start.
abbrev pub exchange :
    Clob Machine (Unit {0}) (Unit {0}) (Unit {0}) (Unit {0}) (Unit {0}) (Unit {0}) (Unit {0})
exchange = record {
  signer_from_str = λ t. fine tt;
  new_client = λ url. fine tt;
  authenticate = λ d s m. (fine tt, m);
  decimal_new = λ n scale. tt;
  amount_usdc = λ d. fine tt;
  u256_from_hex = λ t. some 1;
  parse_u256 = λ t. some 1;
  build_buy = λ s t a m. (fine tt, m);
  sign_order = λ s k o m. (fine tt, m);
  send_order = λ s o m. (fine (record { success = true; posted_id = text "order-1" }), m);
  fetch_order = λ s i m. (
    fine (record {
      status = if leb 2_000_000_000 m.nanos then text "Matched" else text "Live";
      size_matched = text "7";
      price = text "1";
    }),
    m,
  );
  cancel_order = λ s i m. (fine tt, m);
  parse_f64 = λ t. some 1;
  instant = λ m. m.nanos;
  last_instant = 2 ^ 63 * 1_000_000_000;
  sleep_secs = λ secs m. record m { nanos = m.nanos + secs * 1_000_000_000 };
}

pub exchange-IsClock : (client : PolymarketOrderClient) → IsClock exchange client
exchange-IsClock client = record {
  fetch_forward = λ s i w. omega arith;
  sleeps = λ secs w. omega arith;
}

abbrev order_id : Text
order_id = text "order-1"

-- Connecting takes no time.
connects : (connect exchange trader boot).1 ≡ boot
unfolding connect
connects = refl

in_range :
    exchange.instant (connect exchange trader boot).1 + 4 * 1_000_000_000 ≤ exchange.last_instant
in_range = omega (arith, ap exchange.instant connects)

wait_for_fill_returns_example :
    (r : Result OrderResult) × (w' : Machine) × (wait_for_fill exchange trader 3 order_id boot
      ≡ some (r, w'))
    × (r ≢ panic)
wait_for_fill_returns_example =
    wait_for_fill_returns exchange trader 2 order_id boot (exchange-IsClock trader) (omega arith)
      in_range

abbrev later : Machine
later = exchange.sleep_secs 2 boot

abbrev bought : Result OrderResult
bought = ok (record { order_id = order_id; shares_filled = 1; avg_price = 1 })

fills : wait_for_fill exchange trader 3 order_id boot ≡ some (bought, later)
unfolding wait_for_fill polled connect rounds after_ask after_answer fill_result is_filled contains
    strip_prefix text
fills = refl

wait_for_fill-FillOutcome_example : FillOutcome exchange trader order_id later bought
wait_for_fill-FillOutcome_example =
    wait_for_fill-FillOutcome exchange trader 3 order_id boot later bought fills

abbrev quote : QuoteResponse
quote = record {
  input_mint = text "a";
  in_amount = text "9";
  output_mint = text "b";
  out_amount = text "700";
  other_amount_threshold = text "690";
  swap_mode = text "ExactIn";
  slippage_bps = 50;
  route_plan = text "[]";
  price_impact_pct = text "0";
}

-- A swap service; a transaction is its signatures, and its message the block hash.
abbrev pub jupiter : Swaps Machine (Unit {0}) (List ℕ)
jupiter = record {
  fetch = λ url m. (fine tt, m);
  post_swap = λ url body m. (fine tt, m);
  accept_status = fine;
  read_quote = λ resp m. (fine quote, m);
  read_swap = λ resp m. (fine (text "AQ=="), m);
  deserialize = λ bytes. fine (record { signatures = bytes ∷ []; message = [] });
  set_recent_blockhash = λ hash message. hash;
  serialize_message = λ message. message;
  sign_message = λ payer bytes. payer ++ bytes;
  send_versioned = λ tx m. (fine (replicate 64 1), m);
}

swaps :
    swap desk jupiter (text "https://j") (text "a") (text "b") 9 50 wallet boot
    ≡ (ok (replicate 64 1, 700), boot)
unfolding swap get_quote out_amount_u64 get_swap_transaction execute_swap parse_u64 text
swaps = refl

swap-Swapped_example :
    Swapped desk jupiter
      (text "https://j")
      (text "a")
      (text "b")
      9
      50
      wallet
      (replicate 64 1)
      700
      boot
      boot
swap-Swapped_example =
    swap-Swapped desk jupiter (text "https://j") (text "a") (text "b") 9 50 wallet boot boot
      (replicate 64 1) 700 swaps
