-- ===== src/Executor/History/Reach.antt =====
-- Reachability of one status from another.
use pump_poly_router.Base.{zero, suc, ◌≤◌, ◌≡◌, ◌⊎◌, inl, inr, refl, arith, true, false}
use pump_poly_router.Text.{Text}
use pump_poly_router.Types.{OrderStatus, pending, complete, failed, cancelled, is_terminal}
use pump_poly_router.Executor.Drive.{outlives_deadline, stage_name}
use pump_poly_router.Executor.Pipeline.{stage, Advances}

-- One change of a status that has not ended.
pub data Hop (s t : OrderStatus) : Type 0 where
  forward : is_terminal s ≡ false → Advances s t → Hop s t
  fails_at : (reason : Text) → is_terminal s ≡ false → t ≡ failed reason (stage_name s) → Hop s t
  cancels_at : is_terminal s ≡ false → outlives_deadline s ≡ false → t ≡ cancelled → Hop s t

pub data Reaches (s : OrderStatus) : OrderStatus → Type 0 where
  here : Reaches s s
  onward : {t u : OrderStatus} → Reaches s t → Hop t u → Reaches s u

pub Reaches-trans : {s t u : OrderStatus} → Reaches s t → Reaches t u → Reaches s u
Reaches-trans r here = r
Reaches-trans r (onward q hop) = onward (Reaches-trans r q) hop

Hop-open : {s t : OrderStatus} → Hop s t → is_terminal s ≡ false
Hop-open (forward e a) = e
Hop-open (fails_at reason e q) = e
Hop-open (cancels_at e l q) = e

-- An ended order has ended for good: `Complete`, `Failed` and `Cancelled` are never left.
pub Reaches-terminal : {s t : OrderStatus} → is_terminal s ≡ true → Reaches s t → t ≡ s
Reaches-terminal h here = refl
Reaches-terminal {s} h (onward {t = t} r hop) =
    let same : t ≡ s = Reaches-terminal h r in cc (same, Hop-open hop)

stage_pos : (s : OrderStatus) → is_terminal s ≡ false → suc zero ≤ stage s
stage_pos pending h = omega arith
stage_pos (complete a b) h = cc
stage_pos (failed a b) h = cc
stage_pos cancelled h = cc
stage_pos s h = omega arith

Hop-stage : {s t : OrderStatus} → Hop s t → (stage t ≡ 0) ⊎ (stage s ≤ stage t)
Hop-stage (forward e (inl same)) = inr (rw same (omega arith))
Hop-stage (forward e (inr next)) = inr (omega arith)
Hop-stage (fails_at reason e q) = inl (rw q refl)
Hop-stage (cancels_at e l q) = inl (rw q refl)

-- The pipeline is never walked backwards: a status that is reached has failed, is cancelled, or stands
-- at the same or a later stage.
pub Reaches-stage : {s t : OrderStatus} → Reaches s t → (stage t ≡ 0) ⊎ (stage s ≤ stage t)
Reaches-stage here = inr (omega arith)
Reaches-stage (onward {t = t} r hop) =
    omega (arith, Reaches-stage r, Hop-stage hop, stage_pos t (Hop-open hop))
