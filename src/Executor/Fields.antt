-- ===== src/Executor/Fields.antt =====
-- What the steps of src/executor.rs do to the router's own fields: store, configuration, failure
-- count and volume window.
use pump_poly_router.Base.{ℕ, ◌+◌, ◌≡◌, ◌≢◌, ◌⊎◌, inl, inr, refl, arith, false, Bool-cases}
use pump_poly_router.Text.{Text}
use pump_poly_router.Error.{Result, ok, err, panic}
use pump_poly_router.Words.{u64}
use pump_poly_router.Types.{
  OrderStatus, OrderIntent, pending, bridge_complete, polymarket_order_posted,
}
use pump_poly_router.Platform.{Platform}
use pump_poly_router.Executor.State.{TradeRouter, Clients}
use pump_poly_router.Executor.Steps.{market_refused, over_cap, record_posted, step_bridge_complete}
use pump_poly_router.Executor.Drive.{dispatch, step}
use pump_poly_router.Executor.Pipeline.{stage}

-- The order was posted with `n` of bridged USDC, behind the whitelist and the cap.
pub record Posted (r : TradeRouter) (order : OrderIntent) (res : Result OrderStatus)
    (r' : TradeRouter) : Type 0 where
  pub amount : ℕ
  pub order_id : Text
  pub from : order.status ≡ bridge_complete amount
  pub result : res ≡ ok (polymarket_order_posted order_id)
  pub listed : market_refused r.config order.market_id ≡ false
  pub within : over_cap r amount ≡ false
  pub router : r' ≡ record r { daily_volume_usdc = u64 (r.daily_volume_usdc + amount) }

-- Nothing was posted, and the router is as it was.
pub record Idle (r : TradeRouter) (order : OrderIntent) (res : Result OrderStatus)
    (r' : TradeRouter) : Type 0 where
  pub not_posted : (i : Text) → stage order.status ≡ 6 → res ≢ ok (polymarket_order_posted i)
  pub router : r' ≡ r

abbrev pub Effect : TradeRouter → OrderIntent → Result OrderStatus → TradeRouter → Type 0
Effect r order res r' = Posted r order res r' ⊎ Idle r order res r'

record_posted-Effect :
    {World : Type 0} (order : OrderIntent) (n : ℕ) (r : TradeRouter) (out : Result Text × World)
    → order.status ≡ bridge_complete n
    → market_refused r.config order.market_id ≡ false
    → over_cap r n ≡ false
    → let (res, r', w') = record_posted r n out in Effect r order res r'
unfolding record_posted
record_posted-Effect order n r (ok i, w) e m o = inl (record {
  amount = n;
  order_id = i;
  from = e;
  result = refl;
  listed = m;
  within = o;
  router = refl;
})
record_posted-Effect order n r (err x, w) e m o =
    inr (record { not_posted = λ i s q. cc q; router = refl })
record_posted-Effect order n r (panic, w) e m o =
    inr (record { not_posted = λ i s q. cc q; router = refl })

module _ {World : Type 0} (p : Platform World) (c : Clients World) where
  bridge_complete-Effect :
      (order : OrderIntent) (n : ℕ) (r : TradeRouter) (w : World)
      → order.status ≡ bridge_complete n
      → let (res, r', w') = step_bridge_complete p c order n r w in Effect r order res r'
  unfolding step_bridge_complete
  bridge_complete-Effect order n r w e =
      elim (Bool-cases (market_refused r.config order.market_id)) [
        | inl refused ↦ rw refused (inr (record { not_posted = λ i s q. cc q; router = refl }))
        | inr listed ↦ elim (Bool-cases (over_cap r n)) [
          | inl over ↦
              rw (listed, over) (inr (record { not_posted = λ i s q. cc q; router = refl }))
          | inr within ↦ rw (listed, within) (record_posted-Effect order n r _ e listed within)
        ]
      ]

  -- The other stages.
  idle-Effect :
      (s : OrderStatus) (order : OrderIntent) (r : TradeRouter) (res : Result OrderStatus)
      → order.status ≡ s
      → stage s ≢ 6
      → Effect r order res r
  idle-Effect s order r res e other =
      inr (record { not_posted = λ i at q. absurd (other (rw e at at)); router = refl })

  dispatch-Effect :
      (s : OrderStatus) (order : OrderIntent) (r : TradeRouter) (w : World)
      → order.status ≡ s
      → let (res, r', w') = dispatch p c s order r w in Effect r order res r'
  unfolding dispatch
  dispatch-Effect (bridge_complete n) order r w e = bridge_complete-Effect order n r w e
  dispatch-Effect pending order r w e = idle-Effect pending order r _ e (omega arith)
  dispatch-Effect s order r w e = idle-Effect s order r _ e (omega arith)

  -- A step changes nothing of the router but, where it posted an order, the daily volume.
  pub step-Effect :
      (order : OrderIntent) (r : TradeRouter) (w : World)
      → let (res, r', w') = step p c order r w in Effect r order res r'
  unfolding step
  step-Effect order r w = dispatch-Effect order.status order r w refl

-- What a step never touches.
pub Effect-same :
    {r r' : TradeRouter} {order : OrderIntent} {res : Result OrderStatus}
    → Effect r order res r'
    → (r'.store ≡ r.store)
      × (r'.config ≡ r.config)
      × (r'.consecutive_failures ≡ r.consecutive_failures)
      × (r'.daily_volume_reset_ts ≡ r.daily_volume_reset_ts)
Effect-same (inl posted) = ground (arith, posted.router)
Effect-same (inr idle) = ground (arith, idle.router)

-- A step that did not succeed leaves the router as it was.
pub Effect-unposted :
    {r r' : TradeRouter} {order : OrderIntent} {res : Result OrderStatus}
    → ((t : OrderStatus) → res ≢ ok t)
    → Effect r order res r'
    → r' ≡ r
Effect-unposted h (inl posted) = absurd (h (polymarket_order_posted posted.order_id) posted.result)
Effect-unposted h (inr idle) = idle.router
