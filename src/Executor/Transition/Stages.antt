-- ===== src/Executor/Transition/Stages.antt =====
-- Which orders a deadline cancels, by their stage.
use pump_poly_router.Base.{ℕ, ◌≤◌, ◌<◌, ◌≡◌, inl, inr, true, false, not, ◌&&◌, arith, Bool-cases}
use pump_poly_router.Types.{
  OrderStatus, OrderIntent, pending, solana_swap_in_progress, solana_swap_complete, bridge_pending,
  bridge_relaying, bridge_complete, polymarket_order_posted, polymarket_filled, complete,
  awaiting_resolution, redeeming, settlement_bridging, settlement_swapping, failed, cancelled,
  is_terminal, is_expired,
}
use pump_poly_router.Executor.Drive.{outlives_deadline}
use pump_poly_router.Executor.Pipeline.{stage}
use pump_poly_router.Executor.Transition.{InTime}

pub early_stage :
    (s : OrderStatus)
    → outlives_deadline s ≡ false
    → is_terminal s ≡ false
    → stage s < stage awaiting_resolution
early_stage pending a b = omega arith
early_stage (solana_swap_in_progress tx) a b = omega arith
early_stage (solana_swap_complete n) a b = omega arith
early_stage (bridge_pending n h m) a b = omega arith
early_stage (bridge_relaying x tx) a b = omega arith
early_stage (bridge_complete n) a b = omega arith
early_stage (polymarket_order_posted i) a b = omega arith
early_stage (polymarket_filled n x) a b = omega arith
early_stage (complete n tx) a b = cc b
early_stage (failed m at) a b = cc b
early_stage cancelled a b = cc b
early_stage awaiting_resolution a b = cc a
early_stage (redeeming tx) a b = cc a
early_stage (settlement_bridging n h m) a b = cc a
early_stage settlement_swapping a b = cc a

late_stage : (s : OrderStatus) → outlives_deadline s ≡ true → stage awaiting_resolution ≤ stage s
late_stage awaiting_resolution a = omega arith
late_stage (redeeming tx) a = omega arith
late_stage (settlement_bridging n h m) a = omega arith
late_stage settlement_swapping a = omega arith
late_stage s a = cc a

pub in_time_lem :
    (now : ℕ) (o : OrderIntent)
    → (is_expired now o && not (outlives_deadline o.status)) ≡ false
    → InTime o now
in_time_lem now o e = elim (Bool-cases (outlives_deadline o.status)) [
  | inl later ↦ inl (late_stage o.status later)
  | inr due ↦ inr (ground (arith, due, e))
]
