-- ===== src/Executor/Limits.antt =====
-- The daily volume cap of src/executor.rs over whole passes.
use pump_poly_router.Base.{
  ℕ, ◌+◌, ◌≤◌, ◌<◌, ◌≡◌, inl, inr, sym, subst, ◌∙◌, arith, false, List, [], ◌∷◌,
}
use pump_poly_router.Error.{Result}
use pump_poly_router.Words.{u64}
use pump_poly_router.Types.{Uuid, OrderStatus, OrderIntent}
use pump_poly_router.Store.{pending_ids}
use pump_poly_router.Store.Laws.{IsStore}
use pump_poly_router.Platform.{Platform}
use pump_poly_router.Executor.State.{TradeRouter, Clients}
use pump_poly_router.Executor.Steps.{over_cap}
use pump_poly_router.Executor.Drive.{
  pass_on_router, advance, advance_all, maybe_reset_daily_volume, run_once,
}
use pump_poly_router.Executor.Fields.{Effect, Effect-same}
use pump_poly_router.Executor.History.{advance-IsStore, reset-IsStore}
use pump_poly_router.Executor.Transition.{
  Transition, halts, misses, rests, cancels, moves, fails, unwinds,
}
use pump_poly_router.Executor.Transition.Refines.{advance-Transition}

-- With a cap set, the recorded volume of the window does not pass it.
pub record IsCapped (r : TradeRouter) : Type 0 where
  pub capped :
      0 < r.config.daily_volume_cap_usdc_micro
      → r.daily_volume_usdc ≤ r.config.daily_volume_cap_usdc_micro

IsCapped-eq : {r r' : TradeRouter} → IsCapped r → r' ≡ r → IsCapped r'
IsCapped-eq h e = subst IsCapped (sym e) h

pub within_cap :
    (r : TradeRouter) (n : ℕ)
    → over_cap r n ≡ false
    → 0 < r.config.daily_volume_cap_usdc_micro
    → u64 (r.daily_volume_usdc + n) ≤ r.config.daily_volume_cap_usdc_micro
unfolding over_cap
within_cap r n h pos = ground arith

IsCapped-Effect :
    {r mid : TradeRouter} {o : OrderIntent} {res : Result OrderStatus}
    → IsCapped r
    → Effect r o res mid
    → IsCapped mid
IsCapped-Effect {r} h (inl posted) =
    IsCapped-eq {r = record r { daily_volume_usdc = u64 (r.daily_volume_usdc + posted.amount) }}
      (record { capped = λ pos. within_cap r posted.amount posted.within pos }) posted.router
IsCapped-Effect h (inr idle) = IsCapped-eq h idle.router

-- The same volume under the same configuration.
IsCapped-same :
    {r r' : TradeRouter}
    → IsCapped r
    → r'.config ≡ r.config
    → r'.daily_volume_usdc ≡ r.daily_volume_usdc
    → IsCapped r'
IsCapped-same {r} {r'} h e v = record { capped = λ pos. rw (v, e) (h.capped (rw e at pos)) }

Transition-IsCapped :
    {id : Uuid} {now : ℕ} {r r' : TradeRouter} {res : Result OrderStatus}
    → IsCapped r
    → Transition id now r res r'
    → IsCapped r'
Transition-IsCapped h (halts e opened q same) = IsCapped-eq h same
Transition-IsCapped h (misses e missing q same) = IsCapped-eq h same
Transition-IsCapped h (rests e o found ended q same) = IsCapped-eq h same
Transition-IsCapped h (cancels o live late early past st q failures volume) =
    IsCapped-same h st.config volume
Transition-IsCapped h (moves o t mid live timely adv effect st q failures volume) =
    IsCapped-same (IsCapped-Effect h effect) (st.config ∙ sym ((Effect-same effect).1)) volume
Transition-IsCapped h (fails o e live timely st q failures volume) =
    IsCapped-same h st.config volume
Transition-IsCapped h (unwinds o live timely q same) = IsCapped-eq h same

module _ {World : Type 0} (p : Platform World) (c : Clients World) where
  advance-IsCapped :
      (id : Uuid) (r : TradeRouter) (w : World)
      → IsStore r.store
      → IsCapped r
      → IsCapped (advance p c id r w).1
  advance-IsCapped id r w h k = Transition-IsCapped k (advance-Transition p c id r w h)

  advance_all-IsCapped :
      (ids : List Uuid) (r : TradeRouter) (w : World)
      → IsStore r.store
      → IsCapped r
      → IsCapped (advance_all p c ids r w).1
  unfolding advance_all
  advance_all-IsCapped [] r w h k = k
  advance_all-IsCapped (id ∷ ids) r w h k =
      let first = advance p c id r w in
      let one = advance-IsCapped id r w h k in
      elim (pass_on_router id first (advance_all p c ids first.1 first.2)) [
        | inl e ↦ IsCapped-eq one e
        | inr e ↦
            IsCapped-eq
              (advance_all-IsCapped ids first.1 first.2 (advance-IsStore p c id r w h) one) e
      ]

  reset-IsCapped :
      (r : TradeRouter) (w : World) → IsCapped r → IsCapped (maybe_reset_daily_volume p r w).0
  unfolding maybe_reset_daily_volume
  reset-IsCapped r w k = record { capped = λ pos. ground (arith, k.capped) }

  -- With a daily cap configured, a pass of `run_once` keeps the recorded volume of the window at or
  -- below the cap, whatever the steps do and however the pass ends.
  pub run_once-IsCapped :
      (r : TradeRouter) (w : World) → IsStore r.store → IsCapped r → IsCapped (run_once p c r w).1
  unfolding run_once
  run_once-IsCapped r w h k =
      let reset = maybe_reset_daily_volume p r w in
      advance_all-IsCapped (pending_ids reset.0.store) reset.0 reset.1 (reset-IsStore p r w h)
        (reset-IsCapped r w k)
