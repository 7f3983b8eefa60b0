-- ===== src/Executor/New/Calm/Whole.antt =====
-- Panics of `advance` of src/executor.rs with the clients that `TradeRouter::new` builds.
use pump_poly_router.Base.{◌+◌, ◌*◌, ◌≤◌, ◌≡◌, ◌≢◌, suc, true, none}
use pump_poly_router.Text.{Text}
use pump_poly_router.Error.{ok, panic}
use pump_poly_router.External.{Net, IsHex}
use pump_poly_router.Types.{Uuid}
use pump_poly_router.Config.{usdc_solana_mint}
use pump_poly_router.Platform.{Platform}
use pump_poly_router.Solana.Spl.{SplRpc}
use pump_poly_router.Solana.Jupiter.Client.{Swaps}
use pump_poly_router.Bridge.Attestation.{AttestationResponse, is_complete, Polls, get_attestation}
use pump_poly_router.Polymarket.Order.Client.{PolymarketOrderClient, Clob, connect}
use pump_poly_router.Polymarket.Order.Fills.{IsClock, wait_for_fill_ends}
use pump_poly_router.Executor.State.{TradeRouter}
use pump_poly_router.Executor.Drive.{advance}
use pump_poly_router.Executor.Panics.{IsCalm, advance_total}
use pump_poly_router.Executor.New.{le_twice, Parts, clients}
use pump_poly_router.Executor.New.Calm.Services.{
  get_quote_calm, get_swap_transaction_calm, execute_swap_calm, swap_calm, token_balance_calm,
  get_attestation_calm,
}
use pump_poly_router.Executor.New.Calm.Bridge.{deposit_for_burn_calm, solana_receive_message_calm}
use pump_poly_router.Executor.New.Calm.Polygon.{
  ShortReceipts, receive_message_calm, return_leg_calm,
}
use pump_poly_router.Executor.New.Calm.Resolver.{ModestLogs, is_resolved_calm}
use pump_poly_router.Executor.New.Calm.Settlement.{redeem_positions_calm, usdc_balance_calm}
use pump_poly_router.Executor.New.Calm.Order.{post_order_calm, settled_calm}

module _
    {World Response Json Answer Page Message Signer Draft Session Decimal Amount Order
      Signed : Type 0}
    (p : Platform World) (net : Net World Response Json) (spl : SplRpc World)
    (polls : Polls World Answer) (swaps : Swaps World Page Message)
    (clob : Clob World Signer Draft Session Decimal Amount Order Signed)
    (clock : (client : PolymarketOrderClient) → IsClock clob client) (parts : Parts) where
  -- What the services and the crates are relied on for: the codec is one, the mint's address parses,
  -- an attestation that is reported `complete` is there, and the contracts' events have the lengths
  -- and places of ABI-encoded data.
  pub record IsReliable : Type 0 where
    pub codec : IsHex p.hex
    pub mint : p.pubkey_from_str usdc_solana_mint ≢ none
    pub attested :
        (hash : Text) (w : World) (att : AttestationResponse)
        → (get_attestation polls parts.attestation hash w).0 ≡ ok att
        → is_complete att ≡ true
        → att.attestation ≢ none
    pub sent_events : ShortReceipts net p.hex p.crypto parts.cctp_polygon
    pub resolution_events : ModestLogs net p.hex parts.resolver

  -- A wait for a fill that starts in this world has a deadline that an `Instant` can hold.
  abbrev pub IsEarly : World → Type 0
  IsEarly w =
      clob.instant (connect clob parts.poly_client w).1
        + parts.poly_client.fill_timeout_secs * 1_000_000_000
      ≤ clob.last_instant

  clients-IsCalm : IsReliable → IsCalm p (clients p net spl polls swaps clob clock parts) IsEarly
  unfolding clients
  clients-IsCalm good = record {
    mint = good.mint;
    attested = good.attested;
    get_quote = get_quote_calm p swaps parts.jupiter;
    get_swap_transaction = get_swap_transaction_calm p swaps parts.jupiter;
    execute_swap = execute_swap_calm p swaps parts.jupiter;
    swap = swap_calm p swaps parts.jupiter;
    token_balance = token_balance_calm p spl;
    deposit_for_burn =
        λ k m n to w. deposit_for_burn_calm p parts.cctp_solana k m n to w good.codec;
    solana_receive_message = solana_receive_message_calm p parts.cctp_solana;
    polygon_receive_message = receive_message_calm net p.hex p.crypto parts.cctp_polygon;
    deposit_for_burn_return_leg = λ a n to b w.
        return_leg_calm net p.hex p.crypto parts.cctp_polygon a n to b w good.sent_events;
    get_attestation = get_attestation_calm polls parts.attestation;
    post_order = post_order_calm clob parts.poly_client;
    wait_for_fill = λ t w now.
        let timeout = parts.poly_client.fill_timeout_secs in
        settled_calm clob parts.poly_client (suc timeout) t w
          (wait_for_fill_ends clob parts.poly_client timeout t w (clock parts.poly_client)
            (le_twice timeout))
          now;
    is_resolved = λ t w. is_resolved_calm net p.hex parts.resolver t w good.resolution_events;
    redeem_positions =
        redeem_positions_calm p.hex good.codec net p.crypto parts.settlement parts.resolver;
    usdc_balance = usdc_balance_calm p.hex good.codec net p.crypto parts.settlement;
  }

  -- With the clients that `TradeRouter::new` builds, over a hex codec, an exchange whose clock
  -- does not run backwards and whose sleeps last, an attestation service that reports `complete`
  -- only with the attestation, contracts whose events have the lengths and places of ABI-encoded
  -- data, and a hard-coded mint that parses, `advance` does not panic in a world in which the
  -- deadline of a wait for a fill can be computed: on every order, in every state of the store,
  -- and whatever the services answer otherwise.
  pub advance_with_clients_total :
      IsReliable
      → (id : Uuid) (r : TradeRouter) (w : World) → IsEarly (p.read_clock w).1
      → (advance p (clients p net spl polls swaps clob clock parts) id r w).0 ≢ panic
  advance_with_clients_total good id r w now =
      advance_total p (clients p net spl polls swaps clob clock parts) IsEarly (clients-IsCalm good)
        id r w now
