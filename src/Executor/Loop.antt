-- ===== src/Executor/Loop.antt =====
-- `run_loop` and the circuit breaker.
use pump_poly_router.Base.{ℕ, zero, suc, ◌≡◌, ◌⊎◌, inl, inr, refl, arith, true, List, [], ◌∷◌, map}
use pump_poly_router.Error.{Result, ok, err}
use pump_poly_router.Types.{Uuid, OrderStatus}
use pump_poly_router.Store.{pending_ids}
use pump_poly_router.Store.Laws.{IsStore}
use pump_poly_router.Platform.{Platform}
use pump_poly_router.Executor.State.{TradeRouter, Clients}
use pump_poly_router.Executor.Drive.{
  breaker_open, breaker_error, advance, advance_all, run_loop, returned, running,
}
use pump_poly_router.Executor.History.{History, History-refl, History-trans, advance_all-History}

module _ {World : Type 0} (p : Platform World) (c : Clients World) where
  advance_halted :
      (id : Uuid) (r : TradeRouter) (w : World)
      → breaker_open r ≡ true
      → advance p c id r w ≡ (err (breaker_error r.consecutive_failures), r, w)
  unfolding advance
  advance_halted id r w h = rw h

  abbrev refusal : TradeRouter → Uuid → Uuid × Result OrderStatus
  refusal r id = (id, err (breaker_error r.consecutive_failures))

  -- With the breaker open a whole pass over any ids is refused, order by order, and neither the router
  -- nor the world changes.
  advance_all_halted :
      (ids : List Uuid) (r : TradeRouter) (w : World)
      → breaker_open r ≡ true
      → advance_all p c ids r w ≡ (ok (map (refusal r) ids), r, w)
  unfolding advance_all
  advance_all_halted [] r w h = refl
  advance_all_halted (id ∷ ids) r w h =
      rw (advance_halted id r w h) (rw (advance_all_halted ids r w h))

  -- `n` waits of the polling interval.
  abbrev pub waits : ℕ → ℕ → World → World
  waits zero interval w = w
  waits (suc n) interval w = waits n interval (p.sleep interval w)

  -- Once the breaker is open while an order is still under way, `run_loop` is still running after
  -- any number of rounds, in the same state, and has done nothing but wait.
  pub run_loop_halted :
      (fuel interval : ℕ) (r : TradeRouter) (w : World) (id : Uuid) (ids : List Uuid)
      → breaker_open r ≡ true
      → pending_ids r.store ≡ id ∷ ids
      → run_loop p c fuel interval r w ≡ running r (waits fuel interval w)
  unfolding run_loop
  run_loop_halted zero interval r w id ids h e = refl
  run_loop_halted (suc fuel) interval r w id ids h e =
      let again = run_loop_halted fuel interval r (p.sleep interval w) id ids h e in
      ground (arith, e, advance_all_halted (pending_ids r.store) r w h, again)

  -- One round of the loop that is not the last.
  loop_round :
      (fuel interval : ℕ) (r r' : TradeRouter) (w w' : World)
      → run_loop p c (suc fuel) interval r w ≡ returned r' w'
      → ((pending_ids r.store ≡ []) × (r' ≡ r))
        ⊎ (let pass = advance_all p c (pending_ids r.store) r w in
            run_loop p c fuel interval pass.1 (p.sleep interval pass.2) ≡ returned r' w')
  unfolding run_loop
  loop_round fuel interval r r' w w' e = ground arith

  -- If `run_loop` returns, no order is left under way, and on the way no order was lost, invented or
  -- moved against the pipeline.
  pub run_loop_returned :
      (fuel interval : ℕ) (r r' : TradeRouter) (w w' : World)
      → IsStore r.store
      → run_loop p c fuel interval r w ≡ returned r' w'
      → (pending_ids r'.store ≡ []) × History r r'
  run_loop_returned zero interval r r' w w' h e = unfold run_loop in cc e
  run_loop_returned (suc fuel) interval r r' w w' h e =
      elim (loop_round fuel interval r r' w w' e) [
        | inl (empty, same) ↦ (rw (same, empty) refl, History-refl r r' h (rw same) (rw same))
        | inr more ↦
            let pass = advance_all p c (pending_ids r.store) r w in
            let first = advance_all-History p c (pending_ids r.store) r w h in
            let (empty, rest) =
              run_loop_returned fuel interval pass.1 r' (p.sleep interval pass.2) w' first.map
                more in
            (empty, History-trans first rest)
      ]
