-- ===== src/Example/Ended.antt =====
-- When the loop of examples/route_trade.rs ends, and how the order stands then.
use pump_poly_router.Base.{
  ℕ, zero, suc, ◌≡◌, inl, inr, refl, sym, ap, subst, ◌∙◌, arith, true, false, some, none,
  Bool-cases,
}
use pump_poly_router.Error.{RouterError, Result, ok, err, panic}
use pump_poly_router.Types.{Uuid, OrderStatus, OrderIntent, cancelled, is_terminal, set_status}
use pump_poly_router.Store.{get}
use pump_poly_router.Store.Laws.{IsStore}
use pump_poly_router.Platform.{Platform}
use pump_poly_router.Executor.State.{TradeRouter, Clients}
use pump_poly_router.Executor.Drive.{returned, get_status, breaker_open, advance}
use pump_poly_router.Executor.Transition.{
  Stored, Transition, halts, misses, rests, cancels, moves, fails, unwinds,
}
use pump_poly_router.Executor.Transition.Refines.{advance-Transition}
use pump_poly_router.Executor.History.{History, History-refl, History-trans, advance-History}
use pump_poly_router.Example.{drive, drive_round, after_advance}

-- An order that the loop may drive: it is stored with this status, and there is no path for a
-- snapshot.
pub record Driven (id : Uuid) (s : OrderStatus) (r : TradeRouter) : Type 0 where
  pub order : OrderIntent
  pub stored : get id r.store ≡ some order
  pub status : order.status ≡ s
  pub map : IsStore r.store
  pub path : r.store.persist_path ≡ none

-- The order has ended.
pub record HasEnded (id : Uuid) (r : TradeRouter) : Type 0 where
  pub order : OrderIntent
  pub stored : get id r.store ≡ some order
  pub terminal : is_terminal order.status ≡ true

-- What `advance` makes of such an order.
data Outcome (id : Uuid) (res : Result OrderStatus) (r' : TradeRouter) : Type 0 where
  goes :
      (t : OrderStatus)
      → res ≡ ok t
      → Driven id t r'
      → (is_terminal t ≡ false → r'.consecutive_failures ≡ 0)
      → Outcome id res r'
  stops : (e : RouterError) → res ≡ err e → HasEnded id r' → Outcome id res r'
  panics : res ≡ panic → Outcome id res r'

Driven-ended :
    {id : Uuid} {s : OrderStatus} {r : TradeRouter}
    → Driven id s r
    → is_terminal s ≡ true
    → HasEnded id r
Driven-ended d h = record {
  order = d.order;
  stored = d.stored;
  terminal = ap is_terminal d.status ∙ h;
}

closed_breaker : (r : TradeRouter) → r.consecutive_failures ≡ 0 → breaker_open r ≡ false
unfolding breaker_open
closed_breaker r h = ground (arith, h)

Stored-Driven :
    {id : Uuid} {o : OrderIntent} {s : OrderStatus} {r r' : TradeRouter}
    → r.store.persist_path ≡ none
    → Stored id o s r r'
    → Driven id s r'
Stored-Driven {id} {o} {s} no_path st = record {
  order = set_status s st.now o;
  stored = ground (arith, st.views id);
  status = refl;
  map = st.map;
  path = st.path ∙ no_path;
}

Transition-Outcome :
    {id : Uuid} {now : ℕ} {s : OrderStatus} {r r' : TradeRouter} {res : Result OrderStatus}
    → Driven id s r
    → is_terminal s ≡ false
    → r.consecutive_failures ≡ 0
    → Transition id now r res r'
    → Outcome id res r'
Transition-Outcome {id} {s} {r} d live zeroed (halts e opened q same) =
    cc (closed_breaker r zeroed, opened)
Transition-Outcome d live zeroed (misses e missing q same) = cc (missing, d.stored)
Transition-Outcome d live zeroed (rests e o found ended q same) =
    let same_order : some o ≡ some d.order = sym found ∙ d.stored in
    cc (ended, live, d.status, same_order)
Transition-Outcome d live zeroed (cancels o l late early past st (inl q) failures volume) =
    goes cancelled q (Stored-Driven d.path st) (λ going. cc)
Transition-Outcome d live zeroed
      (cancels o l late early past st (inr (e, q, has_path)) failures volume) =
    absurd (has_path d.path)
Transition-Outcome d live zeroed (moves o t mid l timely adv effect st (inl q) failures volume) =
    goes t q (Stored-Driven d.path st) (λ going. failures)
Transition-Outcome d live zeroed
      (moves o t mid l timely adv effect st (inr (e, q, has_path)) failures volume) =
    absurd (has_path d.path)
Transition-Outcome d live zeroed (fails o e l timely st (inl q) failures volume) =
    stops e q (Driven-ended (Stored-Driven d.path st) refl)
Transition-Outcome d live zeroed (fails o e l timely st (inr (x, q, has_path)) failures volume) =
    absurd (has_path d.path)
Transition-Outcome d live zeroed (unwinds o l timely q same) = panics q

module _ {World : Type 0} (p : Platform World) (c : Clients World) where
  shown : {id : Uuid} {s : OrderStatus} {r : TradeRouter} → Driven id s r → get_status id r ≡ some s
  unfolding get_status
  shown {id} {s} {r} d = ground (arith, d.stored, d.status)

  round_of :
      (fuel : ℕ) (id : Uuid) (s : OrderStatus) (r : TradeRouter) (w : World)
      → Driven id s r
      → drive p c (suc fuel) id r w ≡ drive_round p c (some s) (drive p c fuel id) id r w
  unfolding drive
  round_of fuel id s r w d = ap (λ x. drive_round p c x (drive p c fuel id) id r w) (shown d)

  -- A round of which the result of `advance` is known.
  advanced :
      (fuel : ℕ) (id : Uuid) (s : OrderStatus) (r : TradeRouter) (w : World)
      (res : Result OrderStatus)
      → Driven id s r
      → is_terminal s ≡ false
      → (advance p c id r w).0 ≡ res
      → drive p c (suc fuel) id r w
        ≡ after_advance p c
            (drive p c fuel id)
            (res, (advance p c id r w).1, (advance p c id r w).2)
  advanced fuel id s r w res d live q =
      let mid = (advance p c id r w).1 in
      let w1 = (advance p c id r w).2 in
      round_of fuel id s r w d
      ∙ (rw live (ap (λ x. after_advance p c (drive p c fuel id) (x, mid, w1)) q))

  -- If the loop ends, without a snapshot to write, the order that it drove has ended, and on the way
  -- no order was lost, invented or moved against the pipeline.
  pub drive_ends :
      (fuel : ℕ) (id : Uuid) (s : OrderStatus) (r r' : TradeRouter) (w w' : World)
      → Driven id s r
      → r.consecutive_failures ≡ 0
      → drive p c fuel id r w ≡ returned r' w'
      → HasEnded id r' × History r r'
  drive_ends zero id s r r' w w' d zeroed e = unfold drive in cc e
  drive_ends (suc fuel) id s r r' w w' d zeroed e = elim (Bool-cases (is_terminal s)) [
    | inl done ↦
        let ended : returned r w ≡ returned r' w' =
          rw done at (sym (round_of fuel id s r w d) ∙ e) in
        let there : r ≡ r' = cc ended in
        (
          subst (HasEnded id) there (Driven-ended d done),
          History-refl r r' d.map (rw there) (rw there),
        )
    | inr live ↦
        let path = advance-History p c id r w d.map in
        let mid = (advance p c id r w).1 in
        let w1 = (advance p c id r w).2 in
        elim (Transition-Outcome d live zeroed (advance-Transition p c id r w d.map)) [
          | goes t q next more ↦ elim (Bool-cases (is_terminal t)) [
            | inl done ↦
                let there : returned mid w1 ≡ returned r' w' =
                  rw done at (sym (advanced fuel id s r w (ok t) d live q) ∙ e) in
                let same : mid ≡ r' = cc there in
                (subst (HasEnded id) same (Driven-ended next done), subst (History r) same path)
            | inr going ↦
                let again = rw going at (sym (advanced fuel id s r w (ok t) d live q) ∙ e) in
                let (ended, rest) =
                  drive_ends fuel id t mid r' (p.sleep 5_000 w1) w' next (more going) again in
                (ended, History-trans path rest)
          ]
          | stops x q ended ↦
              let same : mid ≡ r' = cc (sym (advanced fuel id s r w (err x) d live q) ∙ e) in
              (subst (HasEnded id) same ended, subst (History r) same path)
          | panics q ↦ absurd (cc (sym (advanced fuel id s r w panic d live q) ∙ e))
        ]
  ]
