-- ===== src/Executor/Guards.antt =====
-- The guards of `advance` and of `step_bridge_complete`, on every order they meet.
use mathlib.Core.List.{Memᴰ}
use pump_poly_router.Base.{
  ℕ, ◌+◌, ◌≤◌, ◌<◌, ◌≡◌, ◌⊎◌, none, List, [], ◌∷◌, sym, Bool-cases, Option-cases, inl, inr, refl,
  subst, ◌∙◌, arith, true, false, some, ==_refl,
}
use pump_poly_router.Text.{Text, text, text_eq, text_eq_iff}
use pump_poly_router.Error.{display, Result, ok, err}
use pump_poly_router.Words.{u32, u64}
use pump_poly_router.Types.{
  Uuid, OrderStatus, OrderIntent, bridge_complete, polymarket_order_posted, failed, is_terminal,
  is_expired, set_status,
}
use pump_poly_router.Config.{RouterConfig}
use pump_poly_router.Store.{get}
use pump_poly_router.Store.Laws.{IsStore, id-get}
use pump_poly_router.Platform.{Platform}
use pump_poly_router.Executor.State.{TradeRouter, Clients}
use pump_poly_router.Executor.Steps.{
  is_listed, market_refused, over_cap, cap_error, step_bridge_complete,
}
use pump_poly_router.Executor.Drive.{
  breaker_open, stage_name, dispatch, step, settle, settle_stored, after_step, advance_at,
  advance_order, advance,
}
use pump_poly_router.Executor.Fields.{Effect}
use pump_poly_router.Executor.Transition.{
  Transition, halts, misses, rests, cancels, moves, fails, unwinds,
}
use pump_poly_router.Executor.Transition.Refines.{advance-Transition, store_status-Stored}
use pump_poly_router.Executor.Limits.{within_cap}

-- There is no whitelist, or the market stands on it.
abbrev pub OnWhitelist : RouterConfig → Text → Type 0
OnWhitelist cfg market =
    (cfg.allowed_market_ids ≡ none)
    ⊎ ((whitelist : List Text) × (cfg.allowed_market_ids ≡ some whitelist) × Memᴰ market whitelist)

is_listed-Mem : (market : Text) (ms : List Text) → is_listed market ms ≡ true → Memᴰ market ms
unfolding is_listed
is_listed-Mem market [] e = cc e
is_listed-Mem market (m ∷ ms) e = elim (Bool-cases (text_eq m market)) [
  | inl same ↦ Memᴰ.head (sym ((text_eq_iff m market).0 same))
  | inr other ↦ Memᴰ.tail (is_listed-Mem market ms (rw other at e))
]

market_refused-OnWhitelist :
    (cfg : RouterConfig) (market : Text)
    → market_refused cfg market ≡ false
    → OnWhitelist cfg market
unfolding market_refused
market_refused-OnWhitelist cfg market e = elim (Option-cases cfg.allowed_market_ids) [
  | inl open_to_all ↦ inl open_to_all
  | inr (whitelist, found) ↦
      let listed : is_listed market whitelist ≡ true = ground (arith, rw found at e) in
      inr (whitelist, found, is_listed-Mem market whitelist listed)
]

-- An order whose funds have been bridged was posted: the market is allowed, the cap held, and the
-- volume was raised by the whole balance.
abbrev pub Allowed : OrderIntent → ℕ → TradeRouter → TradeRouter → Type 0
Allowed o n r r' =
    OnWhitelist r.config o.market_id
    × (0 < r.config.daily_volume_cap_usdc_micro
        → u64 (r.daily_volume_usdc + n) ≤ r.config.daily_volume_cap_usdc_micro)
    × (r'.daily_volume_usdc ≡ u64 (r.daily_volume_usdc + n))

moved-Allowed :
    (r r' mid : TradeRouter) (o : OrderIntent) (n : ℕ) (i : Text)
    → o.status ≡ bridge_complete n
    → Effect r o (ok (polymarket_order_posted i)) mid
    → r'.daily_volume_usdc ≡ mid.daily_volume_usdc
    → Allowed o n r r'
moved-Allowed r r' mid o n i bridged (inl posted) volume =
    let amount : posted.amount ≡ n = ground (arith, posted.from, bridged) in
    let at : over_cap r n ≡ false = rw (← amount) posted.within in
    (
      market_refused-OnWhitelist r.config o.market_id posted.listed,
      (λ pos. within_cap r n at pos),
      ground (arith, volume, posted.router, amount),
    )
moved-Allowed r r' mid o n i bridged (inr idle) volume =
    absurd (idle.not_posted i (rw bridged refl) refl)

module _ {id : Uuid} {now : ℕ} {r r' : TradeRouter} {res : Result OrderStatus} {o : OrderIntent}
    {n : ℕ} {i : Text} (found : get id r.store ≡ some o) (bridged : o.status ≡ bridge_complete n)
    (done : res ≡ ok (polymarket_order_posted i)) where
  Transition-Allowed : Transition id now r res r' → Allowed o n r r'
  Transition-Allowed (halts e opened q same) = cc (done, q)
  Transition-Allowed (misses e missing q same) = cc (done, q)
  Transition-Allowed (rests e p at ended q same) = cc (done, q)
  Transition-Allowed (cancels p live late early past st (inl q) failures volume) = cc (done, q)
  Transition-Allowed (cancels p live late early past st (inr (e, q, has_path)) failures volume) =
      cc (done, q)
  Transition-Allowed (moves p t mid live timely adv effect st (inl q) failures volume) =
      let target : t ≡ polymarket_order_posted i = cc (done, q) in
      let same : p ≡ o = cc (found, live.stored) in
      moved-Allowed r r' mid o n i bridged
        (subst (λ (x : OrderStatus). Effect r o (ok x) mid) target
          (subst (λ (q : OrderIntent). Effect r q (ok t) mid) same effect))
        volume
  Transition-Allowed
        (moves p t mid live timely adv effect st (inr (e, q, has_path)) failures volume) =
      cc (done, q)
  Transition-Allowed (fails p e live timely st (inl q) failures volume) = cc (done, q)
  Transition-Allowed (fails p e live timely st (inr (x, q, has_path)) failures volume) =
      cc (done, q)
  Transition-Allowed (unwinds p live timely q same) = cc (done, q)

module _ {World : Type 0} (p : Platform World) (c : Clients World) where
  -- When, on a well-formed store, `advance` posts an order whose n µUSDC had been bridged, there
  -- is no whitelist or the market is one of its members, the recorded volume with n is at most the
  -- daily cap (if there is one), and the volume was raised by exactly n (as a u64).
  pub advance-Allowed :
      (id : Uuid) (r : TradeRouter) (w : World) (o : OrderIntent) (n : ℕ) (i : Text)
      → IsStore r.store
      → get id r.store ≡ some o
      → o.status ≡ bridge_complete n
      → (advance p c id r w).0 ≡ ok (polymarket_order_posted i)
      → Allowed o n r (advance p c id r w).1
  advance-Allowed id r w o n i h found bridged done =
      Transition-Allowed found bridged done (advance-Transition p c id r w h)

  -- `step` on an order that the cap holds back.
  step-over_cap :
      (o : OrderIntent) (n : ℕ) (r : TradeRouter) (w : World)
      → o.status ≡ bridge_complete n
      → market_refused r.config o.market_id ≡ false
      → over_cap r n ≡ true
      → step p c o r w ≡ (err (cap_error r.config.daily_volume_cap_usdc_micro), r, w)
  unfolding step dispatch step_bridge_complete
  step-over_cap o n r w e listed over = rw e (rw (listed, over))

  -- With the breaker closed and the market allowed, a bridged order in time that the daily cap holds
  -- back is failed: `advance` stores `Failed` with the message of the cap and the stage
  -- `BridgeComplete`.
  pub advance-over_cap :
      (id : Uuid) (o : OrderIntent) (n : ℕ) (r : TradeRouter) (w : World)
      → IsStore r.store
      → breaker_open r ≡ false
      → get id r.store ≡ some o
      → o.status ≡ bridge_complete n
      → is_expired (p.read_clock w).0 o ≡ false
      → market_refused r.config o.market_id ≡ false
      → over_cap r n ≡ true
      → (o' : OrderIntent) × (get id (advance p c id r w).1.store ≡ some o')
        × (o'.status
            ≡ failed
                (display (cap_error r.config.daily_volume_cap_usdc_micro))
                (text "BridgeComplete"))
  unfolding advance advance_order advance_at after_step settle_stored settle
  advance-over_cap id o n r w h closed found bridged in_time listed over =
      let w1 = (p.read_clock w).1 in
      let x = cap_error r.config.daily_volume_cap_usdc_micro in
      let t = failed (display x) (stage_name o.status) in
      let counted : TradeRouter = record r {
        consecutive_failures = u32 (r.consecutive_failures + 1);
      } in
      let st = store_status-Stored p id o t (err x) counted w1 (id-get id r.store h found) h in
      let open_status : is_terminal o.status ≡ false = rw bridged refl in
      (
        set_status t st.now o,
        rw (closed, found, open_status, in_time, step-over_cap o n r w1 bridged listed over, found)
            (st.views id ∙ rw (==_refl id)),
        rw bridged (unfold stage_name in refl),
      )
