-- ===== src/Executor/Transition.antt =====
-- The abstract machine: what one `advance` may do to the map of orders, the failure count and the
-- daily volume. `Transition/Refines` relates `advance` to it.
pub mod Stages
pub mod Refines
use pump_poly_router.Base.{
  ℕ, suc, ◌+◌, ◌/◌, ◌≤◌, ◌<◌, ◌≡◌, ◌≢◌, ◌⊎◌, Bool, true, false, Option, none, some, ◌==◌,
  if◌then◌else◌,
}
use pump_poly_router.Error.{RouterError, display, Result, ok, err, panic}
use pump_poly_router.Words.{u32}
use pump_poly_router.Types.{
  Uuid, DateTime, awaiting_resolution, OrderStatus, OrderIntent, failed, cancelled, is_terminal,
  set_status,
}
use pump_poly_router.Store.{get}
use pump_poly_router.Store.Laws.{IsStore}
use pump_poly_router.Executor.State.{TradeRouter}
use pump_poly_router.Executor.Drive.{breaker_open, outlives_deadline, stage_name}
use pump_poly_router.Executor.Pipeline.{Advances, stage}
use pump_poly_router.Executor.Fields.{Effect}

-- The order `o` under `id` has got the status `s` at some time, and no other order has changed.
pub record Stored (id : Uuid) (o : OrderIntent) (s : OrderStatus) (r r' : TradeRouter)
    : Type 0 where
  pub now : ℕ
  pub views :
      (j : Uuid) → get j r'.store ≡ (if id == j then some (set_status s now o) else get j r.store)
  pub map : IsStore r'.store
  pub path : r'.store.persist_path ≡ r.store.persist_path
  pub config : r'.config ≡ r.config
  pub reset_ts : r'.daily_volume_reset_ts ≡ r.daily_volume_reset_ts

-- The result that a caller gets: `want`, or the error of the snapshot that could not be written, if
-- the store has a path for one.
abbrev pub Flushed : TradeRouter → Result OrderStatus → Result OrderStatus → Type 0
Flushed r want res =
    (res ≡ want) ⊎ ((e : RouterError) × (res ≡ err e) × (r.store.persist_path ≢ none))

-- A stored order that is still under way.
pub record Live (id : Uuid) (o : OrderIntent) (r : TradeRouter) : Type 0 where
  pub closed : breaker_open r ≡ false
  pub stored : get id r.store ≡ some o
  pub open_status : is_terminal o.status ≡ false

-- The market's resolution is being waited for, or is past, or the deadline, in seconds, has not passed
-- at the time `now`, in nanoseconds.
abbrev pub InTime : OrderIntent → DateTime → Type 0
InTime o now =
    (stage awaiting_resolution ≤ stage o.status) ⊎ (now / 1_000_000_000 ≤ o.deadline_unix)

pub data Transition (id : Uuid) (now : DateTime) (r : TradeRouter) (res : Result OrderStatus)
    (r' : TradeRouter) : Type 0 where
  -- the breaker is open
  halts :
      (e : RouterError) → breaker_open r ≡ true → res ≡ err e → r' ≡ r → Transition id now r res r'
  -- there is no such order
  misses :
      (e : RouterError) → get id r.store ≡ none → res ≡ err e → r' ≡ r → Transition id now r res r'
  -- the order has ended
  rests :
      (e : RouterError) (o : OrderIntent)
      → get id r.store ≡ some o
      → is_terminal o.status ≡ true
      → res ≡ err e
      → r' ≡ r
      → Transition id now r res r'
  -- the deadline of an order whose market's resolution is not waited for yet has passed
  cancels :
      (o : OrderIntent)
      → Live id o r
      → outlives_deadline o.status ≡ false
      → stage o.status < stage awaiting_resolution
      → o.deadline_unix < now / 1_000_000_000
      → Stored id o cancelled r r'
      → Flushed r (ok cancelled) res
      → r'.consecutive_failures ≡ r.consecutive_failures
      → r'.daily_volume_usdc ≡ r.daily_volume_usdc
      → Transition id now r res r'
  -- the step succeeded
  moves :
      (o : OrderIntent) (t : OrderStatus) (mid : TradeRouter)
      → Live id o r
      → InTime o now
      → Advances o.status t
      → Effect r o (ok t) mid
      → Stored id o t r r'
      → Flushed r (ok t) res
      → r'.consecutive_failures ≡ 0
      → r'.daily_volume_usdc ≡ mid.daily_volume_usdc
      → Transition id now r res r'
  -- the step failed
  fails :
      (o : OrderIntent) (e : RouterError)
      → Live id o r
      → InTime o now
      → Stored id o (failed (display e) (stage_name o.status)) r r'
      → Flushed r (err e) res
      → r'.consecutive_failures ≡ u32 (r.consecutive_failures + 1)
      → r'.daily_volume_usdc ≡ r.daily_volume_usdc
      → Transition id now r res r'
  -- the step panicked
  unwinds :
      (o : OrderIntent)
      → Live id o r
      → InTime o now
      → res ≡ panic
      → r' ≡ r
      → Transition id now r res r'
