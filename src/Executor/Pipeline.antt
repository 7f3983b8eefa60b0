-- ===== src/Executor/Pipeline.antt =====
-- The pipeline that the header of src/executor.rs documents, as an order on the stages, and the steps
-- against it.
use pump_poly_router.Base.{ℕ, suc, ◌≡◌, ◌⊎◌, refl, arith}
use pump_poly_router.Text.{Text}
use pump_poly_router.Error.{ok}
use pump_poly_router.Types.{
  OrderStatus, OrderIntent, pending, solana_swap_in_progress, solana_swap_complete, bridge_pending,
  bridge_relaying, bridge_complete, polymarket_order_posted, polymarket_filled, awaiting_resolution,
  redeeming, settlement_bridging, settlement_swapping, complete, failed, cancelled,
}
use pump_poly_router.Config.{RouterConfig}
use pump_poly_router.Platform.{Platform}
use pump_poly_router.Executor.State.{TradeRouter, Clients}
use pump_poly_router.Executor.Steps.{
  step_pending, transfer_sol, step_solana_swap_in_progress, step_solana_swap_complete,
  step_bridge_pending, step_bridge_relaying, step_bridge_complete, step_poly_order_posted,
  step_awaiting_resolution, step_redeeming, step_settlement_bridging, step_settlement_swapping,
}
use pump_poly_router.Executor.Drive.{dispatch, step}

-- The place of a status in the pipeline, from 1; 0 for the two ways out of it.
abbrev pub stage : OrderStatus → ℕ
stage pending = 1
stage (solana_swap_in_progress tx) = 2
stage (solana_swap_complete usdc_amount) = 3
stage (bridge_pending n h b) = 4
stage (bridge_relaying a tx) = 5
stage (bridge_complete polygon_usdc) = 6
stage (polymarket_order_posted order_id) = 7
stage (polymarket_filled shares avg_price) = 8
stage awaiting_resolution = 9
stage (redeeming redeem_tx) = 10
stage (settlement_bridging n h b) = 11
stage settlement_swapping = 12
stage (complete sol_paid payout_tx) = 13
stage (failed reason at) = 0
stage cancelled = 0

-- What a step may return: the status as it was, or one of the next stage.
abbrev pub Advances : OrderStatus → OrderStatus → Type 0
Advances s t = (t ≡ s) ⊎ (stage t ≡ suc (stage s))

module _ {World : Type 0} (p : Platform World) (c : Clients World) where
  module _ (cfg : RouterConfig) (order : OrderIntent) (w : World) {t : OrderStatus} where
    pending-Advances : (step_pending p c cfg order w).0 ≡ ok t → Advances pending t
    unfolding step_pending
    pending-Advances h = ground arith

    swap_in_progress-Advances :
        (step_solana_swap_in_progress p c cfg order w).0 ≡ ok t
        → (tx : Text) → order.status ≡ solana_swap_in_progress tx
        → Advances (solana_swap_in_progress tx) t
    unfolding step_solana_swap_in_progress
    swap_in_progress-Advances h tx e = ground arith

    awaiting-Advances :
        (step_awaiting_resolution p c cfg order w).0 ≡ ok t → Advances awaiting_resolution t
    unfolding step_awaiting_resolution
    awaiting-Advances h = ground arith

    settlement_swapping-Advances :
        (step_settlement_swapping p c cfg order w).0 ≡ ok t → Advances settlement_swapping t
    unfolding step_settlement_swapping transfer_sol
    settlement_swapping-Advances h = ground arith

  module _ (cfg : RouterConfig) (w : World) {t : OrderStatus} where
    swap_complete-Advances :
        (n : ℕ)
        → (step_solana_swap_complete p c cfg n w).0 ≡ ok t
        → Advances (solana_swap_complete n) t
    unfolding step_solana_swap_complete
    swap_complete-Advances n h = ground arith

    bridge_pending-Advances :
        (n : ℕ) (hash message : Text)
        → (step_bridge_pending p c n hash message w).0 ≡ ok t
        → Advances (bridge_pending n hash message) t
    unfolding step_bridge_pending
    bridge_pending-Advances n hash message h = ground arith

    bridge_relaying-Advances :
        (a tx : Text)
        → (step_bridge_relaying p c cfg a tx w).0 ≡ ok t
        → Advances (bridge_relaying a tx) t
    unfolding step_bridge_relaying
    bridge_relaying-Advances a tx h = ground arith

    order_posted-Advances :
        (order_id : Text)
        → (step_poly_order_posted p c order_id w).0 ≡ ok t
        → Advances (polymarket_order_posted order_id) t
    unfolding step_poly_order_posted
    order_posted-Advances order_id h = ground arith

    redeeming-Advances :
        (tx : Text) → (step_redeeming p c cfg tx w).0 ≡ ok t → Advances (redeeming tx) t
    unfolding step_redeeming
    redeeming-Advances tx h = ground arith

    settlement_bridging-Advances :
        (n : ℕ) (hash message : Text)
        → (step_settlement_bridging p c cfg n hash message w).0 ≡ ok t
        → Advances (settlement_bridging n hash message) t
    unfolding step_settlement_bridging
    settlement_bridging-Advances n hash message h = ground arith

  bridge_complete-Advances :
      (n : ℕ) (order : OrderIntent) (r : TradeRouter) (w : World) {t : OrderStatus}
      → (step_bridge_complete p c order n r w).0 ≡ ok t
      → Advances (bridge_complete n) t
  unfolding step_bridge_complete
  bridge_complete-Advances n order r w h = ground arith

  dispatch-Advances :
      (s : OrderStatus) (order : OrderIntent) (r : TradeRouter) (w : World) {t : OrderStatus}
      → order.status ≡ s
      → (dispatch p c s order r w).0 ≡ ok t
      → Advances s t
  unfolding dispatch
  dispatch-Advances pending order r w e h = pending-Advances r.config order w h
  dispatch-Advances (solana_swap_in_progress tx) order r w e h =
      swap_in_progress-Advances r.config order w h tx e
  dispatch-Advances (solana_swap_complete n) order r w e h = swap_complete-Advances r.config w n h
  dispatch-Advances (bridge_pending n hash m) order r w e h =
      bridge_pending-Advances r.config w n hash m h
  dispatch-Advances (bridge_relaying a tx) order r w e h =
      bridge_relaying-Advances r.config w a tx h
  dispatch-Advances (bridge_complete n) order r w e h = bridge_complete-Advances n order r w h
  dispatch-Advances (polymarket_order_posted i) order r w e h = order_posted-Advances r.config w i h
  dispatch-Advances (polymarket_filled shares price) order r w e h = ground arith
  dispatch-Advances awaiting_resolution order r w e h = awaiting-Advances r.config order w h
  dispatch-Advances (redeeming tx) order r w e h = redeeming-Advances r.config w tx h
  dispatch-Advances (settlement_bridging n hash m) order r w e h =
      settlement_bridging-Advances r.config w n hash m h
  dispatch-Advances settlement_swapping order r w e h =
      settlement_swapping-Advances r.config order w h
  dispatch-Advances (complete paid tx) order r w e h = cc h
  dispatch-Advances (failed reason at) order r w e h = cc h
  dispatch-Advances cancelled order r w e h = cc h

  -- A step that succeeds returns the order's status unchanged, or a status of the very next stage of
  -- the documented pipeline: it skips none, goes back to none and never leaves by `Failed` or
  -- `Cancelled`, whatever the chains and services answer.
  pub step-Advances :
      (order : OrderIntent) (r : TradeRouter) (w : World) (t : OrderStatus)
      → (step p c order r w).0 ≡ ok t
      → Advances order.status t
  unfolding step
  step-Advances order r w t h = dispatch-Advances order.status order r w refl h
