-- ===== src/Tests/Fixtures.antt =====
-- A machine with one file and a clock, a platform on it, clients that succeed at once, and orders.
use pump_poly_router.Base.{
  ℕ, zero, suc, ◌<◌, ltb, ap, ◌∙◌, subst, All, Bool-cases, inl, inr, ◌+◌, ◌*◌, ◌≡◌, arith, Bool,
  true, false, ◌&&◌, List, [], ◌∷◌, Option, none, some, if◌then◌else◌, replicate,
}
use pump_poly_router.Text.{Text, text, decimal}
use pump_poly_router.Error.{ok}
use pump_poly_router.External.{Reply, fine, fault, Reply-cases}
use pump_poly_router.Types.{
  Float, Uuid, Outcome, yes_side, no_side, OrderStatus, pending, OrderProofs, OrderIntent,
  new_order,
}
use pump_poly_router.Store.{Files}
use pump_poly_router.Store.Restart.{IsFiles, order_floats}
use pump_poly_router.Config.{RouterConfig}
use pump_poly_router.Platform.{Platform}
use pump_poly_router.Executor.State.{TradeRouter, Clients}
use pump_poly_router.Tests.Codecs.{hex_codec, plain_crypto}

pub record Machine : Type 0 where
  pub nanos : ℕ
  pub file : Option Text

abbrev pub boot : Machine
boot = record { nanos = 0; file = none }

abbrev pub is_null {ℓ} : {A : Type ℓ} → List A → Bool
is_null [] = true
is_null (x ∷ xs) = false

abbrev pub is_none {ℓ} : {A : Type ℓ} → Option A → Bool
is_none none = true
is_none (some a) = false

abbrev pub is_yes : Outcome → Bool
is_yes yes_side = true
is_yes no_side = false

abbrev pub is_pending : OrderStatus → Bool
is_pending pending = true
is_pending s = false

abbrev pub is_blank : OrderProofs → Bool
is_blank q =
    is_none q.solana_swap_tx
    && is_none q.cctp_deposit_tx
    && is_none q.cctp_message_hash
    && is_none q.cctp_receive_tx
    && is_none q.poly_order_id
    && is_none q.poly_fill_tx
    && is_none q.redeem_tx
    && is_none q.return_cctp_deposit_tx
    && is_none q.return_cctp_message_hash
    && is_none q.return_cctp_receive_tx
    && is_none q.return_swap_tx
    && is_none q.payout_tx

-- A new order that is empty but for its id.
abbrev pub plain : Uuid → OrderIntent
plain k = new_order k 0 [] [] 0 [] [] yes_side 0 0 0

-- An order with these numbers, that is pending and has nothing else.
abbrev pub numbered : (id amount shares deadline fee created updated : ℕ) → OrderIntent
numbered id amount shares deadline fee created updated =
    record (new_order id created [] [] amount [] [] yes_side shares deadline fee) {
      updated_at = updated;
    }

abbrev pub is_simple : OrderIntent → Bool
is_simple o =
    is_null o.user_pubkey
    && is_null o.input_mint
    && is_null o.market_id
    && is_null o.outcome_token_id
    && is_yes o.outcome
    && is_pending o.status
    && is_blank o.proofs

is_simple_lem :
    (o : OrderIntent)
    → is_simple o ≡ true
    → numbered o.id o.input_amount o.min_position_shares o.deadline_unix o.fee_bps o.created_at
        o.updated_at
      ≡ o
is_simple_lem o h = ground arith

-- From here on a float is not a finite one (or it is negative).
abbrev infinity : Float
infinity = 0x7ff0000000000000

-- A finite float, or `null`, which is 0.
abbrev print_float : Float → ℕ
print_float x = if ltb x infinity then suc x else 0

abbrev with_block : OrderIntent → Reply Text → Reply Text
with_block o (fine t) = fine (
    o.id
    ∷ o.input_amount
    ∷ print_float o.min_position_shares
    ∷ o.deadline_unix
    ∷ o.fee_bps
    ∷ o.created_at
    ∷ o.updated_at
    ∷ t)
with_block o (fault e) = fault e

-- Any number of pending orders, seven numbers each.
abbrev pub print : List OrderIntent → Reply Text
print [] = fine []
print (o ∷ os) =
    let rest = print os in if is_simple o then with_block o rest else fault (text "no such format")

abbrev with_order :
    (id amount shares deadline fee created updated : ℕ)
    → Reply (List OrderIntent)
    → Reply (List OrderIntent)
with_order id amount zero deadline fee created updated rest = fault (text "null is no f64")
with_order id amount (suc shares) deadline fee created updated (fine os) =
    fine (numbered id amount shares deadline fee created updated ∷ os)
with_order id amount (suc shares) deadline fee created updated (fault e) = fault e

abbrev pub parse : Text → Reply (List OrderIntent)
parse [] = fine []
parse (id ∷ amount ∷ shares ∷ deadline ∷ fee ∷ created ∷ updated ∷ t) =
    with_order id amount shares deadline fee created updated (parse t)
parse t = fault (text "the file ends")

-- The floats that are read back.
abbrev pub Finite : Float → Type 0
Finite x = x < infinity

with_order-Finite :
    (o : OrderIntent) (os : List OrderIntent)
    → is_simple o ≡ true
    → Finite o.min_position_shares
    → with_order o.id o.input_amount
        (print_float o.min_position_shares)
        o.deadline_unix
        o.fee_bps
        o.created_at
        o.updated_at
        (fine os)
      ≡ fine (o ∷ os)
with_order-Finite o os simple finite =
    let shown : ltb o.min_position_shares infinity ≡ true = ground (arith, finite) in
    rw shown (ap (λ x. fine (x ∷ os)) (is_simple_lem o simple))

parse-print :
    (orders : List OrderIntent) (snapshot : Text)
    → All (λ o. All Finite (order_floats o)) orders
    → print orders ≡ fine snapshot
    → parse snapshot ≡ fine orders
parse-print [] snapshot h e = ground arith
parse-print (o ∷ os) snapshot ((finite, h'), h) e = elim (Bool-cases (is_simple o)) [
  | inr other ↦ absurd (cc (rw other at e))
  | inl simple ↦ elim (Reply-cases (print os)) [
    | inr (m, bad) ↦ absurd (cc (rw (simple, bad) at e))
    | inl (t, made) ↦
        let block : Text =
          o.id
          ∷ o.input_amount
          ∷ print_float o.min_position_shares
          ∷ o.deadline_unix
          ∷ o.fee_bps
          ∷ o.created_at
          ∷ o.updated_at
          ∷ t in
        let given : fine block ≡ fine snapshot = rw (simple, made) at e in
        let same : block ≡ snapshot = cc given in
        subst (λ x. parse x ≡ fine (o ∷ os)) same
          (ap
              (with_order o.id o.input_amount (print_float o.min_position_shares) o.deadline_unix
                o.fee_bps o.created_at o.updated_at)
              (parse-print os t h made)
            ∙ with_order-Finite o os simple finite)
  ]
]

abbrev pub one_file : Files Machine
one_file = record {
  path_exists = λ path m. elim m.file [ none ↦ false | some t ↦ true ];
  read_file =
      λ path m. elim m.file [ none ↦ (fault (text "no such file"), m) | some t ↦ (fine t, m) ];
  write_file = λ path t m. (fine tt, record m { file = some t });
  to_json = print;
  from_json = parse;
  uuid_to_string = decimal;
}

pub one_file-IsFiles : IsFiles one_file Finite
one_file-IsFiles = record {
  read_back = λ path snapshot w w' e. ground arith;
  parse_back = parse-print;
}

abbrev pub wallet : List ℕ
wallet = replicate 64 3

abbrev pub desk : Platform Machine
desk = record {
  hex = hex_codec;
  crypto = plain_crypto;
  files = one_file;
  read_clock = λ m. (m.nanos, m);
  read_keypair = λ path m. (fine wallet, m);
  pubkey_of = λ k. replicate 32 3;
  pubkey_from_str = λ t. some (replicate 32 5);
  pubkey_to_string = λ k. k;
  signature_to_string = λ s. s;
  associated_token_address = λ owner mint. replicate 32 6;
  find_program_address = λ seeds program. replicate 32 7;
  spl_token_id = replicate 32 1;
  system_program_id = replicate 32 0;
  sha256 = λ bs. replicate 32 2;
  base64_decode = fine;
  transaction_logs = λ sig m. (fine none, m);
  transfer = λ from to lamports. record {
    program_id = replicate 32 0;
    accounts = [];
    instruction_data = lamports ∷ [];
  };
  signed_transaction = λ ixs payer hash. hash;
  latest_blockhash = λ m. (fine (replicate 32 8), m);
  send_and_confirm = λ tx m. (fine (replicate 64 1), m);
  sleep = λ ms m. record m { nanos = m.nanos + ms * 1_000_000 };
}

-- Every service answers at once: the wallets hold 700 µUSDC, and YES has won.
abbrev pub ready : Clients Machine
ready = record {
  get_quote = λ a b n bps m. (
    ok (record {
      input_mint = a;
      in_amount = decimal n;
      output_mint = b;
      out_amount = decimal n;
      other_amount_threshold = decimal n;
      swap_mode = text "ExactIn";
      slippage_bps = bps;
      route_plan = text "[]";
      price_impact_pct = text "0";
    }),
    m,
  );
  get_swap_transaction = λ q k fee m. (ok (text "AQ=="), m);
  execute_swap = λ tx k m. (ok (replicate 64 1), m);
  swap = λ a b n bps k m. (ok (replicate 64 1, n), m);
  token_balance = λ a b m. (ok 700, m);
  deposit_for_burn = λ k mint n to m. (ok (replicate 64 1, text "0x"), m);
  solana_receive_message = λ k msg att m. (ok (replicate 64 1), m);
  polygon_receive_message = λ msg att m. (ok (text "0xaa"), m);
  deposit_for_burn_return_leg = λ a n to b m. (ok (text "0xbb", text "0x00"), m);
  get_attestation =
      λ hash m. (ok (record { status = text "complete"; attestation = some (text "0xcc") }), m);
  post_order = λ token n side m. (ok (text "order-1"), m);
  wait_for_fill = λ i m. (ok (record { order_id = i; shares_filled = 1; avg_price = 1 }), m);
  is_resolved = λ i m. (ok (some (record { condition_id = i; payout_numerators = 1 ∷ 0 ∷ [] })), m);
  redeem_positions = λ a b sets m. (ok (text "0xdd"), m);
  usdc_balance = λ a b m. (ok 700, m);
}

-- As `ready`, but attestations come without their bytes.
abbrev pub unattested : Clients Machine
unattested = record ready {
  get_attestation = λ hash m. (ok (record { status = text "complete"; attestation = none }), m);
}

abbrev pub settings : RouterConfig
settings = record {
  solana_rpc_url = text "https://solana";
  solana_keypair_path = text "~/id.json";
  jupiter_api_url = text "https://jupiter";
  jupiter_slippage_bps = 50;
  cctp_attestation_url = text "https://iris";
  cctp_solana_token_messenger = text "messenger";
  cctp_polygon_message_transmitter = text "0x01";
  cctp_polygon_token_messenger = text "0x02";
  cctp_attestation_timeout_secs = 1200;
  polygon_rpc_url = text "https://polygon";
  polygon_executor_private_key = text "0x03";
  ctf_contract_address = text "0x04";
  ctf_exchange_contract_address = text "0x05";
  usdc_polygon_address = text "0x06";
  poly_clob_url = text "https://clob";
  poly_private_key = text "0x07";
  protocol_fee_bps = 100;
  max_order_usdc_micro = 500;
  poly_order_fill_timeout_secs = 60;
  order_store_path = none;
  allowed_market_ids = none;
  daily_volume_cap_usdc_micro = 1_000;
  circuit_breaker_failure_threshold = 3;
}

abbrev pub bet : OrderStatus → OrderIntent
bet s =
    record (new_order 1 0 (replicate 32 3) (replicate 32 4) 900 (text "market") (text "token")
      yes_side 0 60 100) { status = s }

-- A router that holds the one order `bet s`, with `n` µUSDC of recorded volume.
abbrev pub holding : OrderStatus → ℕ → TradeRouter
holding s n = record {
  config = settings;
  store = record { orders = (1, bet s) ∷ []; persist_path = none };
  consecutive_failures = 0;
  daily_volume_usdc = n;
  daily_volume_reset_ts = 0;
}
