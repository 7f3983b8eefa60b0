-- ===== src/Tests/OnExample.antt =====
-- The theorem on the example program, applied: no quote is to be had, and the order fails.
use pump_poly_router.Base.{◌++◌, ◌≡◌, refl, ap, ◌∙◌, [], ◌∷◌, none, some, replicate, if◌then◌else◌}
use pump_poly_router.Text.{
  Text, text, hex_digit, hex_value, trim_0x, text_eq, decimal, parse_u16, parse_u32, parse_u64,
}
use pump_poly_router.Error.{ok, err, jupiter_quote}
use pump_poly_router.Types.{OrderIntent, new_order, yes_side}
use pump_poly_router.Evm.Signer.{EvmWallet, new_wallet, parse_secret_key}
use pump_poly_router.Config.{RouterConfig}
use pump_poly_router.Config.Env.{require, parsed_u16, parsed_u32, parsed_u64, assembled, from_env}
use pump_poly_router.Executor.State.{TradeRouter, Clients}
use pump_poly_router.Executor.New.{Parts, new_parts, new_router}
use pump_poly_router.Store.{new_store, get, lookup, put, insert, update, flush}
use pump_poly_router.Bridge.Cctp.Solana.{new_solana_client}
use pump_poly_router.Bridge.Cctp.Polygon.{new_polygon_client}
use pump_poly_router.Polymarket.Settlement.Client.{new_settlement_client}
use pump_poly_router.Executor.Drive.{
  submit_intent, get_status, breaker_open, store_status, settle, settle_stored, after_step,
  dispatch, step, advance_at, advance_order, advance, returned,
}
use pump_poly_router.Executor.Steps.{step_pending, load_keypair}
use pump_poly_router.Example.{
  Shell, one_share, first_id, build_intent, set_up, drive, run_from, exit_of, main, finished,
}
use pump_poly_router.Example.Finished.{Concluded, main_finished}
use pump_poly_router.Tests.Codecs.{to_hex, from_hex}
use pump_poly_router.Tests.Fixtures.{Machine, boot, desk, ready}

abbrev secret : Text
secret = text "0x" ++ replicate 64 b'1'

abbrev shell : Shell Machine
shell = record {
  variable = λ key. if text_eq key (text "POLYGON_EXECUTOR_PRIVATE_KEY") then some secret else none;
  new_unique = λ m. (replicate 32 1, m);
  new_v4 = λ m. (7, m);
  parse_f64 = λ t. none;
  pubkey_error = λ t. text "invalid key";
}

abbrev dry : Clients Machine
dry = record ready { get_quote = λ a b n bps m. (err (jupiter_quote (text "no route")), m) }

abbrev loaded : RouterConfig
loaded = assembled shell.variable 50 600 secret 30 1000 120 0 5

shell_loads : from_env shell.variable ≡ ok loaded
unfolding from_env require parsed_u16 parsed_u32 parsed_u64 parse_u16 parse_u32 parse_u64 decimal
    text text_eq
shell_loads = refl

no_path : loaded.order_store_path ≡ none
unfolding text text_eq
no_path = refl

abbrev order : OrderIntent
order =
    new_order 7 0 (replicate 32 1) (replicate 32 5) 1_000_000 first_id first_id yes_side one_share
      3600 30

built : build_intent desk shell loaded boot ≡ (ok order, boot)
unfolding build_intent text text_eq parse_u64
built = refl

abbrev executor : EvmWallet
executor = record {
  private_key = secret;
  address = text "0x" ++ to_hex (replicate 20 7);
  chain_id = 137;
}

abbrev parts : Parts
parts = record {
  jupiter = loaded.jupiter_api_url;
  cctp_solana = record {
    token_messenger_program = replicate 32 5;
    message_transmitter_program = replicate 32 5;
  };
  cctp_polygon = record {
    rpc_url = loaded.polygon_rpc_url;
    message_transmitter = loaded.cctp_polygon_message_transmitter;
    token_messenger = loaded.cctp_polygon_token_messenger;
    wallet = executor;
  };
  attestation = loaded.cctp_attestation_url;
  poly_client = record {
    clob_url = loaded.poly_clob_url;
    private_key_hex = loaded.poly_private_key;
    fill_timeout_secs = loaded.poly_order_fill_timeout_secs;
  };
  resolver = record {
    polygon_rpc = loaded.polygon_rpc_url;
    ctf_address = loaded.ctf_contract_address;
  };
  settlement = record {
    polygon_rpc = loaded.polygon_rpc_url;
    ctf_address = loaded.ctf_contract_address;
    wallet = executor;
  };
}

parts_made : new_parts desk loaded ≡ ok parts
unfolding new_parts new_solana_client new_polygon_client new_settlement_client new_wallet
    parse_secret_key text_eq text from_hex to_hex trim_0x hex_digit hex_value
parts_made = refl

abbrev router : TradeRouter
router = record {
  config = loaded;
  store = new_store;
  consecutive_failures = 0;
  daily_volume_usdc = 0;
  daily_volume_reset_ts = 0;
}

router_begun : new_router desk loaded new_store boot ≡ (ok router, boot)
unfolding new_router
router_begun = rw parts_made refl

abbrev holder : TradeRouter
holder = record router { store = record { orders = (7, order) ∷ []; persist_path = none } }

order_submitted : submit_intent desk order router boot ≡ (ok 7, holder, boot)
unfolding submit_intent insert update flush get lookup put
order_submitted = refl

run_set_up : set_up desk shell boot ≡ (ok (7, parts, holder), boot)
unfolding set_up new_router text_eq text
run_set_up = rw (shell_loads, built, no_path, router_begun, parts_made, order_submitted) refl

abbrev lost : TradeRouter
lost = (advance desk dry 7 holder boot).1

run_lost : drive desk dry 1 7 holder boot ≡ returned lost boot
unfolding drive get_status advance advance_order advance_at step dispatch step_pending after_step
    settle_stored settle store_status update flush get lookup put breaker_open load_keypair
run_lost = refl

run_ends : main desk shell (λ parts. dry) 1 boot ≡ finished 7 lost boot
unfolding main
run_ends = ap (run_from desk shell (λ parts. dry) 1) run_set_up ∙ ap (exit_of 7) run_lost

main_finished_example : Concluded desk shell loaded boot 7 lost
main_finished_example =
    main_finished desk shell (λ parts. dry) 1 loaded 7 lost boot boot shell_loads no_path run_ends
