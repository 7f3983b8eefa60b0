-- ===== src/Executor/New.antt =====
-- `TradeRouter::new` of src/executor.rs, and the clients that it builds, with their methods as the
-- steps call them. The clients hold what their constructors keep, without the HTTP and RPC clients.
pub mod Calm
use pump_poly_router.Base.{ℕ, ◌*◌, ◌≤◌, suc, ◌≢◌, refl, arith, Option, none, some}
use pump_poly_router.Text.{Text}
use pump_poly_router.Error.{Result, ok, err, panic, ◌>>=◌}
use pump_poly_router.External.{Net}
use pump_poly_router.Config.{RouterConfig}
use pump_poly_router.Store.{OrderStore}
use pump_poly_router.Platform.{Platform}
use pump_poly_router.Solana.Spl.{SplRpc, token_balance}
use pump_poly_router.Solana.Jupiter.Client.{
  Swaps, get_quote, get_swap_transaction, execute_swap, swap,
}
use pump_poly_router.Bridge.Attestation.{Polls, get_attestation}
use pump_poly_router.Bridge.Cctp.Solana.{
  CctpSolanaClient, new_solana_client, deposit_for_burn, solana_receive_message,
}
use pump_poly_router.Bridge.Cctp.Polygon.{
  CctpPolygonClient, new_polygon_client, with_token_messenger, receive_message,
  deposit_for_burn_return_leg,
}
use pump_poly_router.Polymarket.Order.Client.{
  PolymarketOrderClient, Clob, post_order, wait_for_fill,
}
use pump_poly_router.Polymarket.Order.Fills.{IsClock, wait_for_fill_ends}
use pump_poly_router.Polymarket.Resolver.Client.{ConditionResolver, is_resolved}
use pump_poly_router.Polymarket.Settlement.Client.{
  SettlementClient, new_settlement_client, redeem_positions, usdc_balance,
}
use pump_poly_router.Executor.State.{TradeRouter, Clients}
use pump_poly_router.Executor.Drive.{secs}

-- The client fields of `TradeRouter`.
pub record Parts : Type 0 where
  pub jupiter : Text
  pub cctp_solana : CctpSolanaClient
  pub cctp_polygon : CctpPolygonClient
  pub attestation : Text
  pub poly_client : PolymarketOrderClient
  pub resolver : ConditionResolver
  pub settlement : SettlementClient

module _ {World : Type 0} (p : Platform World) where
  -- The clients, in the order in which `new` builds them.
  unfoldable pub new_parts : RouterConfig → Result Parts
  new_parts config = do
    cctp_solana ← new_solana_client p config.cctp_solana_token_messenger
    cctp_polygon ←
        new_polygon_client p.hex p.crypto config.polygon_rpc_url
          config.cctp_polygon_message_transmitter config.polygon_executor_private_key
    settlement ←
        new_settlement_client p.hex p.crypto config.polygon_rpc_url config.ctf_contract_address
          config.polygon_executor_private_key
    ok (record {
      jupiter = config.jupiter_api_url;
      cctp_solana = cctp_solana;
      cctp_polygon = with_token_messenger config.cctp_polygon_token_messenger cctp_polygon;
      attestation = config.cctp_attestation_url;
      poly_client = record {
        clob_url = config.poly_clob_url;
        private_key_hex = config.poly_private_key;
        fill_timeout_secs = config.poly_order_fill_timeout_secs;
      };
      resolver = record {
        polygon_rpc = config.polygon_rpc_url;
        ctf_address = config.ctf_contract_address;
      };
      settlement = settlement;
    })

  -- The rest of the router, where the clients were built: `now_secs()` is the last thing read.
  abbrev pub started : RouterConfig → OrderStore → Result Parts → World → Result TradeRouter × World
  started config store (ok parts) w =
      let (nanos, w') = p.read_clock w in
      (
        ok (record {
          config = config;
          store = store;
          consecutive_failures = 0;
          daily_volume_usdc = 0;
          daily_volume_reset_ts = secs nanos;
        }),
        w',
      )
  started config store (err e) w = (err e, w)
  started config store panic w = (panic, w)

  -- `TradeRouter::new`; its clients are those of `new_parts`.
  unfoldable pub new_router : RouterConfig → OrderStore → World → Result TradeRouter × World
  new_router config store w = started config store (new_parts config) w

-- A round for each second is enough.
pub le_twice : (n : ℕ) → n ≤ 2 * n
le_twice n = omega arith

-- The result of a loop that returns.
abbrev pub settled {ℓ} : {A : Type ℓ} (o : Option A) → o ≢ none → A
settled none h = absurd (h refl)
settled (some a) h = a

module _
    {World Response Json Answer Page Message Signer Draft Session Decimal Amount Order
      Signed : Type 0}
    (p : Platform World) (net : Net World Response Json) (spl : SplRpc World)
    (polls : Polls World Answer) (swaps : Swaps World Page Message)
    (clob : Clob World Signer Draft Session Decimal Amount Order Signed)
    (clock : (client : PolymarketOrderClient) → IsClock clob client) where
  -- The methods that the steps call. `wait_for_fill` has a round of fuel for each second of its
  -- timeout, and one more, which is enough.
  unfoldable pub clients : Parts → Clients World
  clients parts = record {
    get_quote = get_quote p swaps parts.jupiter;
    get_swap_transaction = get_swap_transaction p swaps parts.jupiter;
    execute_swap = execute_swap p swaps parts.jupiter;
    swap = swap p swaps parts.jupiter;
    token_balance = token_balance p spl;
    deposit_for_burn = deposit_for_burn p parts.cctp_solana;
    solana_receive_message = solana_receive_message p parts.cctp_solana;
    polygon_receive_message = receive_message net p.hex p.crypto parts.cctp_polygon;
    deposit_for_burn_return_leg = deposit_for_burn_return_leg net p.hex p.crypto parts.cctp_polygon;
    get_attestation = get_attestation polls parts.attestation;
    post_order = post_order clob parts.poly_client;
    wait_for_fill = λ order_id w.
        let timeout = parts.poly_client.fill_timeout_secs in
        settled (wait_for_fill clob parts.poly_client (suc timeout) order_id w) (
          wait_for_fill_ends clob parts.poly_client timeout order_id w (clock parts.poly_client)
            (le_twice timeout));
    is_resolved = is_resolved net p.hex parts.resolver;
    redeem_positions = redeem_positions net p.hex p.crypto parts.settlement;
    usdc_balance = usdc_balance net p.hex parts.settlement;
  }
