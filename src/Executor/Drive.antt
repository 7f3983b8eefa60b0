-- ===== src/Executor/Drive.antt =====
-- `step`, `advance`, `run_once` and `run_loop` of `TradeRouter`. A method that changes the router
-- returns it beside its result, with the world.
use pump_poly_router.Base.{
  ℕ, zero, suc, ◌+◌, ◌-◌, ◌/◌, List, [], ◌∷◌, ◌++◌, Bool, true, false, not, ◌&&◌, Option, none,
  some, ◌≡◌, ◌⊎◌, inl, inr, refl, ltb, leb, if◌then◌else◌,
}
use pump_poly_router.Text.{Text, text, decimal}
use pump_poly_router.Error.{
  RouterError, other, order_not_found, already_terminal, display, Result, ok, err, panic,
}
use pump_poly_router.Words.{u32}
use pump_poly_router.Types.{
  Uuid, OrderStatus, OrderIntent, pending, solana_swap_in_progress, solana_swap_complete,
  bridge_pending, bridge_relaying, bridge_complete, polymarket_order_posted, polymarket_filled,
  awaiting_resolution, redeeming, settlement_bridging, settlement_swapping, complete, failed,
  cancelled, is_terminal, is_expired, set_status,
}
use pump_poly_router.Store.{get, update, insert, pending_ids}
use pump_poly_router.Platform.{Platform}
use pump_poly_router.Executor.State.{TradeRouter, Clients}
use pump_poly_router.Executor.Steps.{
  step_pending, step_solana_swap_in_progress, step_solana_swap_complete, step_bridge_pending,
  step_bridge_relaying, step_bridge_complete, step_poly_order_posted, step_awaiting_resolution,
  step_redeeming, step_settlement_bridging, step_settlement_swapping,
}

unfoldable pub stage_name : OrderStatus → Text
stage_name pending = text "Pending"
stage_name (solana_swap_in_progress tx) = text "SolanaSwapInProgress"
stage_name (solana_swap_complete usdc_amount) = text "SolanaSwapComplete"
stage_name (bridge_pending n h b) = text "BridgePending"
stage_name (bridge_relaying a tx) = text "BridgeRelaying"
stage_name (bridge_complete polygon_usdc) = text "BridgeComplete"
stage_name (polymarket_order_posted order_id) = text "PolymarketOrderPosted"
stage_name (polymarket_filled shares avg_price) = text "PolymarketFilled"
stage_name awaiting_resolution = text "AwaitingResolution"
stage_name (redeeming redeem_tx) = text "Redeeming"
stage_name (settlement_bridging n h b) = text "SettlementBridging"
stage_name settlement_swapping = text "SettlementSwapping"
stage_name (complete sol_paid payout_tx) = text "Complete"
stage_name (failed reason stage) = text "Failed"
stage_name cancelled = text "Cancelled"

-- The stages that a deadline does not cancel.
abbrev pub outlives_deadline : OrderStatus → Bool
outlives_deadline awaiting_resolution = true
outlives_deadline (redeeming redeem_tx) = true
outlives_deadline (settlement_bridging n h b) = true
outlives_deadline settlement_swapping = true
outlives_deadline _ = false

-- `threshold > 0 && consecutive_failures >= threshold`
unfoldable pub breaker_open : TradeRouter → Bool
breaker_open r =
    ltb 0 r.config.circuit_breaker_failure_threshold
    && leb r.config.circuit_breaker_failure_threshold r.consecutive_failures

abbrev pub breaker_error : ℕ → RouterError
breaker_error failures = other (
    text "Circuit breaker open: "
    ++ (decimal failures ++ text " consecutive failures. Manual intervention required."))

-- `flushed?; res`
abbrev pub after_flush {ℓ} : {A : Type ℓ} → Result (Unit {0}) → Result A → Result A
after_flush (ok _) res = res
after_flush (err e) res = err e
after_flush panic res = panic

-- A step that leaves the router alone.
abbrev keep : {A World : Type 0} → TradeRouter → Result A × World → Result A × TradeRouter × World
keep r (res, w) = (res, r, w)

abbrev Method : Type 0 → Type 0 → Type 0
Method World A = TradeRouter → World → Result A × TradeRouter × World

-- `results.push((id, result))`
abbrev push :
    Uuid × Result OrderStatus
    → Result (List (Uuid × Result OrderStatus))
    → Result (List (Uuid × Result OrderStatus))
push x (ok rs) = ok (x ∷ rs)
push x (err e) = err e
push x panic = panic

-- The outcome of a loop over ids: its first round, and the rest where that did not panic.
abbrev pass_on :
    {World : Type 0}
    → Uuid
    → Result OrderStatus × TradeRouter × World
    → Result (List (Uuid × Result OrderStatus)) × TradeRouter × World
    → Result (List (Uuid × Result OrderStatus)) × TradeRouter × World
pass_on id (panic, r, w) rest = (panic, r, w)
pass_on id (ok s, r, w) (rest, r2, w2) = (push (id, ok s) rest, r2, w2)
pass_on id (err e, r, w) (rest, r2, w2) = (push (id, err e) rest, r2, w2)

pub pass_on_router :
    {World : Type 0} (id : Uuid) (first : Result OrderStatus × TradeRouter × World)
    (rest : Result (List (Uuid × Result OrderStatus)) × TradeRouter × World)
    → ((pass_on id first rest).1 ≡ first.1) ⊎ ((pass_on id first rest).1 ≡ rest.1)
pass_on_router id (panic, r, w) rest = inl refl
pass_on_router id (ok s, r, w) (rest, r2, w2) = inr refl
pass_on_router id (err e, r, w) (rest, r2, w2) = inr refl

-- How a run of `run_loop` stands: it has returned, its fuel is used up, or a panic ended it.
pub data LoopRun (World : Type 0) : Type 0 where
  returned : TradeRouter → World → LoopRun World
  running : TradeRouter → World → LoopRun World
  unwound : LoopRun World

unfoldable pub get_status : Uuid → TradeRouter → Option OrderStatus
get_status id r = elim (get id r.store) [ none ↦ none | some o ↦ some o.status ]

-- `now_secs()`
abbrev pub secs : ℕ → ℕ
secs nanos = nanos / 1_000_000_000

module _ {World : Type 0} (p : Platform World) where
  -- `self.store.update(order)?` behind a status that was set now, then the result `res`.
  unfoldable pub store_status :
      OrderIntent → OrderStatus → Result OrderStatus → Method World OrderStatus
  store_status order s res r w =
      let (now, w1) = p.read_clock w in
      let (flushed, store', w2) = update p.files (set_status s now order) r.store w1 in
      let r' : TradeRouter = record r { store = store' } in (after_flush flushed res, r', w2)

  -- The second half of `advance`, from the `match new_status` on: the order as it is stored now.
  unfoldable pub settle : OrderIntent → Result OrderStatus → Method World OrderStatus
  settle order (ok s) r w = store_status order s (ok s) (record r { consecutive_failures = 0 }) w
  settle order (err e) r w =
      store_status order (failed (display e) (stage_name order.status)) (err e)
        (record r { consecutive_failures = u32 (r.consecutive_failures + 1) }) w
  settle order panic r w = (panic, r, w)

  -- `self.store.get(id).unwrap().clone()`
  unfoldable pub settle_stored : Option OrderIntent → Result OrderStatus → Method World OrderStatus
  settle_stored none res r w = (panic, r, w)
  settle_stored (some order) res r w = settle order res r w

  -- After the guards: one step, and its outcome stored. A step that panics unwinds at once.
  unfoldable pub after_step :
      Uuid → Result OrderStatus × TradeRouter × World → Result OrderStatus × TradeRouter × World
  after_step id (panic, r, w) = (panic, r, w)
  after_step id (ok s, r, w) = settle_stored (get id r.store) (ok s) r w
  after_step id (err e, r, w) = settle_stored (get id r.store) (err e) r w

  unfoldable pub submit_intent : OrderIntent → Method World Uuid
  submit_intent intent r w =
      let (res, store', w') = insert p.files intent r.store w in
      (after_flush res (ok intent.id), record r { store = store' }, w')

  unfoldable pub maybe_reset_daily_volume : TradeRouter → World → TradeRouter × World
  maybe_reset_daily_volume r w =
      let (nanos, w') = p.read_clock w in
      let now = secs nanos in
      (
        if leb 86_400 (now - r.daily_volume_reset_ts)
            then record r { daily_volume_usdc = 0; daily_volume_reset_ts = now }
            else r,
        w',
      )

module _ {World : Type 0} (p : Platform World) (c : Clients World) where
  -- The `match` of `step`, over the order's status.
  unfoldable pub dispatch : OrderStatus → OrderIntent → Method World OrderStatus
  dispatch pending order r w = keep r (step_pending p c r.config order w)
  dispatch (solana_swap_in_progress tx) order r w =
      keep r (step_solana_swap_in_progress p c r.config order w)
  dispatch (solana_swap_complete usdc_amount) order r w =
      keep r (step_solana_swap_complete p c r.config usdc_amount w)
  dispatch (bridge_pending nonce hash message) order r w =
      keep r (step_bridge_pending p c nonce hash message w)
  dispatch (bridge_relaying attestation tx) order r w =
      keep r (step_bridge_relaying p c r.config attestation tx w)
  dispatch (bridge_complete polygon_usdc) order r w =
      step_bridge_complete p c order polygon_usdc r w
  dispatch (polymarket_order_posted order_id) order r w =
      keep r (step_poly_order_posted p c order_id w)
  dispatch (polymarket_filled shares avg_price) order r w = (ok awaiting_resolution, r, w)
  dispatch awaiting_resolution order r w = keep r (step_awaiting_resolution p c r.config order w)
  dispatch (redeeming redeem_tx) order r w = keep r (step_redeeming p c r.config redeem_tx w)
  dispatch (settlement_bridging nonce hash message) order r w =
      keep r (step_settlement_bridging p c r.config nonce hash message w)
  dispatch settlement_swapping order r w = keep r (step_settlement_swapping p c r.config order w)
  dispatch _ order r w = (err (already_terminal (p.files.uuid_to_string order.id)), r, w)

  unfoldable pub step : OrderIntent → Method World OrderStatus
  step order = dispatch order.status order

  -- The expiry guard, at the time `now`, and what follows it.
  unfoldable pub advance_at : Uuid → ℕ → OrderIntent → Method World OrderStatus
  advance_at id now order r w =
      if is_expired now order && not (outlives_deadline order.status)
      then store_status p order cancelled (ok cancelled) r w
      else after_step p id (step order r w)

  -- The guards of `advance` on the stored order.
  unfoldable pub advance_order : Uuid → Option OrderIntent → Method World OrderStatus
  advance_order id none r w = (err (order_not_found (p.files.uuid_to_string id)), r, w)
  advance_order id (some order) r w =
      if is_terminal order.status
      then (err (already_terminal (p.files.uuid_to_string id)), r, w)
      else (let (now, w1) = p.read_clock w in advance_at id now order r w1)

  unfoldable pub advance : Uuid → Method World OrderStatus
  advance id r w =
      if breaker_open r
      then (err (breaker_error r.consecutive_failures), r, w)
      else advance_order id (get id r.store) r w

  -- The loop over ids that `run_once` and `run_loop` share. A panic ends it.
  unfoldable pub advance_all :
      List Uuid
      → TradeRouter
      → World
      → Result (List (Uuid × Result OrderStatus)) × TradeRouter × World
  advance_all [] r w = (ok [], r, w)
  advance_all (id ∷ ids) r w =
      let first = advance id r w in
      let rest = advance_all ids first.1 first.2 in pass_on id first rest

  unfoldable pub run_once : Method World (List (Uuid × Result OrderStatus))
  run_once r w =
      let (r1, w1) = maybe_reset_daily_volume p r w in advance_all (pending_ids r1.store) r1 w1

  -- `run_loop`, on fuel: the source's loop has no bound.
  unfoldable pub run_loop : ℕ → ℕ → TradeRouter → World → LoopRun World
  run_loop zero poll_interval r w = running r w
  run_loop (suc fuel) poll_interval r w =
      let pass = advance_all (pending_ids r.store) r w in
      elim (pending_ids r.store) [
        | [] ↦ returned r w
        | id ∷ ids ↦ elim pass.0 [
          | panic ↦ unwound
          | _ ↦ run_loop fuel poll_interval pass.1 (p.sleep poll_interval pass.2)
        ]
      ]
