-- ===== src/Example.antt =====
-- examples/route_trade.rs: `main`. The environment is the one that `dotenvy` leaves. Logging and
-- printing are left out, and an `anyhow::Error` is its text. The loop runs on fuel.
pub mod Ended
pub mod SetUp
pub mod Finished
use pump_poly_router.Base.{
  ℕ, zero, suc, ◌+◌, ◌||◌, ◌++◌, List, Bool, true, false, Option, none, some, if◌then◌else◌,
}
use pump_poly_router.Text.{Text, text, text_eq, parse_u64}
use pump_poly_router.Error.{other, display, Result, ok, err, panic, ok_or}
use pump_poly_router.Words.{u64}
use pump_poly_router.External.{Net}
use pump_poly_router.Types.{
  Uuid, Pubkey, Float, Outcome, yes_side, no_side, OrderStatus, OrderIntent, new_order, is_terminal,
}
use pump_poly_router.Config.{RouterConfig}
use pump_poly_router.Config.Env.{or_default, from_env}
use pump_poly_router.Store.{OrderStore, new_store, with_persistence}
use pump_poly_router.Effect.{Action, lift, pure, ◌>>=◌}
use pump_poly_router.Platform.{Platform}
use pump_poly_router.Executor.State.{TradeRouter, Clients}
use pump_poly_router.Executor.Drive.{
  LoopRun, returned, running, unwound, get_status, secs, submit_intent, advance,
}
use pump_poly_router.Executor.New.{Parts, new_parts, new_router}

-- The environment, `Pubkey::new_unique`, `Uuid::new_v4`, the parser of an f64 and the text of the
-- error for a key that does not parse.
pub record Shell (World : Type 0) : Type 0 where
  pub variable : Text → Option Text
  pub new_unique : World → Pubkey × World
  pub new_v4 : World → Uuid × World
  pub parse_f64 : Text → Option Float
  pub pubkey_error : Text → Text

-- `.ok().and_then(|s| parse(s).ok())`
abbrev pub parsed : {A : Type 0} → (Text → Option A) → Option Text → Option A
parsed parse none = none
parsed parse (some s) = parse s

abbrev pub unwrap_or_value : {A : Type 0} → A → Option A → A
unwrap_or_value default none = default
unwrap_or_value default (some a) = a

abbrev pub chosen_outcome : Option Text → Outcome
chosen_outcome none = yes_side
chosen_outcome (some s) =
    if text_eq s (text "NO") || text_eq s (text "no") then no_side else yes_side

-- `1.0`
abbrev pub one_share : Float
one_share = 0x3ff0000000000000

abbrev pub first_id : Text
first_id = text "0x0000000000000000000000000000000000000000000000000000000000000001"

module _ {World : Type 0} (p : Platform World) (shell : Shell World) where
  -- The user's key, or a fresh one.
  abbrev pub user_pubkey : World → Pubkey × World
  user_pubkey w = elim (parsed p.pubkey_from_str (shell.variable (text "USER_PUBKEY"))) [
    | some key ↦ (key, w)
    | none ↦ shell.new_unique w
  ]

  -- `OrderIntent::new` on the parameters.
  abbrev pub intent_for : RouterConfig → ℕ → Pubkey → Pubkey → Action World OrderIntent
  intent_for config deadline_unix user mint w =
      let (now, w1) = p.read_clock w in
      let (fresh, w2) = shell.new_v4 w1 in
      (
        ok (
            new_order fresh now user mint
              (unwrap_or_value 1_000_000 (parsed parse_u64 (shell.variable (text "INPUT_AMOUNT"))))
              (or_default first_id (shell.variable (text "MARKET_ID")))
              (or_default first_id (shell.variable (text "OUTCOME_TOKEN_ID")))
              (chosen_outcome (shell.variable (text "OUTCOME")))
              (unwrap_or_value one_share
                (parsed shell.parse_f64 (shell.variable (text "MIN_SHARES"))))
              deadline_unix config.protocol_fee_bps),
        w2,
      )

  unfoldable pub build_intent : RouterConfig → Action World OrderIntent
  build_intent config w =
      let (nanos, w1) = p.read_clock w in
      let (user, w2) = user_pubkey w1 in
      let input_mint =
        or_default (text "EPjFWdd5AufqSSqeM2qN1xzybapC8G4wEGGkZwyTDt1v")
          (shell.variable (text "INPUT_MINT")) in
      elim (p.pubkey_from_str input_mint) [
        | none ↦ (err (other (shell.pubkey_error input_mint)), w2)
        | some mint ↦ intent_for config (u64 (secs nanos + 3600)) user mint w2
      ]

  -- The store at the configured path, or one in memory.
  abbrev pub open_store : Option Text → Action World OrderStore
  open_store none = pure new_store
  open_store (some path) = with_persistence p.files path

  -- The router with the submitted order, and its clients.
  abbrev pub submitted :
      Parts → Result Uuid × TradeRouter × World → Result (Uuid × Parts × TradeRouter) × World
  submitted parts (ok id, r, w) = (ok (id, parts, r), w)
  submitted parts (err e, r, w) = (err e, w)
  submitted parts (panic, r, w) = (panic, w)

  abbrev pub submit : OrderIntent → Parts → TradeRouter → Action World (Uuid × Parts × TradeRouter)
  submit intent parts router w = submitted parts (submit_intent p intent router w)

  -- `main` up to the loop.
  unfoldable pub set_up : Action World (Uuid × Parts × TradeRouter)
  set_up = do
    config ← lift (from_env shell.variable)
    intent ← build_intent config
    store ← open_store config.order_store_path
    router ← new_router p config store
    parts ← lift (new_parts p config)
    submit intent parts router

module _ {World : Type 0} (p : Platform World) (c : Clients World) where
  -- What follows an `advance`, with the rest of the loop.
  abbrev pub after_advance :
      (TradeRouter → World → LoopRun World)
      → Result OrderStatus × TradeRouter × World
      → LoopRun World
  after_advance again (ok t, r, w) =
      if is_terminal t then returned r w else again r (p.sleep 5_000 w)
  after_advance again (err e, r, w) = returned r w
  after_advance again (panic, r, w) = unwound

  -- One round, on the status that the order has.
  abbrev pub drive_round :
      Option OrderStatus
      → (TradeRouter → World → LoopRun World)
      → Uuid
      → TradeRouter
      → World
      → LoopRun World
  drive_round none again id r w = returned r w
  drive_round (some s) again id r w =
      if is_terminal s then returned r w else after_advance again (advance p c id r w)

  -- The loop: it ends on a terminal status, on an error, and when the order is not there.
  unfoldable pub drive : ℕ → Uuid → TradeRouter → World → LoopRun World
  drive zero id r w = running r w
  drive (suc fuel) id r w = drive_round (get_status id r) (drive fuel id) id r w

-- How `main` ends: with `Ok(())`, with an error, by a panic, or not yet.
pub data Exit (World : Type 0) : Type 0 where
  finished : Uuid → TradeRouter → World → Exit World
  refused : Text → World → Exit World
  crashed : Exit World
  driving : Uuid → TradeRouter → World → Exit World

abbrev pub exit_of : {World : Type 0} → Uuid → LoopRun World → Exit World
exit_of id (returned r w) = finished id r w
exit_of id (running r w) = driving id r w
exit_of id unwound = crashed

module _ {World : Type 0} (p : Platform World) (shell : Shell World)
    (connect : Parts → Clients World) where
  abbrev pub run_from : ℕ → Result (Uuid × Parts × TradeRouter) × World → Exit World
  run_from fuel (ok (id, parts, r), w) = exit_of id (drive p (connect parts) fuel id r w)
  run_from fuel (err e, w) = refused (display e) w
  run_from fuel (panic, w) = crashed

  unfoldable pub main : ℕ → World → Exit World
  main fuel w = run_from fuel (set_up p shell w)
