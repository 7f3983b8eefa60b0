-- ===== src/Executor/Transition/Refines.antt =====
-- `advance` of src/executor.rs against the abstract machine.
use pump_poly_router.Base.{
  ℕ, ◌+◌, ◌≡◌, inl, inr, refl, ◌∙◌, ap, arith, not, ◌&&◌, some, Bool-cases, Option-cases,
}
use pump_poly_router.Error.{display, Result, ok, err, panic, Result-cases}
use pump_poly_router.Words.{u32}
use pump_poly_router.Types.{
  DateTime, Uuid, OrderStatus, OrderIntent, failed, cancelled, is_terminal, is_expired, set_status,
}
use pump_poly_router.Store.{get, update, flush}
use pump_poly_router.Store.Laws.{IsStore, get-update, id-get, update-ne-panic}
use pump_poly_router.Platform.{Platform}
use pump_poly_router.Executor.State.{TradeRouter, Clients}
use pump_poly_router.Executor.Drive.{
  after_flush, breaker_open, outlives_deadline, stage_name, step, store_status, settle,
  settle_stored, after_step, advance_at, advance_order, advance,
}
use pump_poly_router.Executor.Pipeline.{Advances, step-Advances}
use pump_poly_router.Executor.Fields.{Effect, Effect-same, Effect-unposted, step-Effect}
use pump_poly_router.Executor.Transition.Stages.{early_stage, in_time_lem}
use pump_poly_router.Executor.Transition.{
  InTime, Stored, Flushed, Live, Transition, halts, misses, rests, cancels, moves, fails, unwinds,
}

module _ {World : Type 0} (p : Platform World) where
  -- What becomes of a result behind the flush.
  after_flush-Flushed :
      (order : OrderIntent) (res : Result OrderStatus) (r : TradeRouter) (w : World)
      → Flushed r res (after_flush (update p.files order r.store w).0 res)
  unfolding update flush
  after_flush-Flushed order res r w = elim (Option-cases r.store.persist_path) [
    | inl no_path ↦ inl (rw no_path refl)
    | inr (path, has_path) ↦ elim (Result-cases (update p.files order r.store w).0) [
      | inl (u, fine) ↦ inl (ap (λ x. after_flush x res) fine)
      | inr (inl (e, bad)) ↦ inr (e, ap (λ x. after_flush x res) bad, λ q. cc (q, has_path))
      | inr (inr crash) ↦ absurd (update-ne-panic p.files order r.store w crash)
    ]
  ]

  -- What `store_status` does, in the terms of the machine.
  store_status-Flushed :
      (o : OrderIntent) (s : OrderStatus) (res : Result OrderStatus) (r : TradeRouter) (w : World)
      → Flushed r res (store_status p o s res r w).0
  unfolding store_status
  store_status-Flushed o s res r w =
      after_flush-Flushed (set_status s (p.read_clock w).0 o) res r (p.read_clock w).1

  pub store_status-Stored :
      (id : Uuid) (o : OrderIntent) (s : OrderStatus) (res : Result OrderStatus) (r : TradeRouter)
      (w : World)
      → o.id ≡ id
      → IsStore r.store
      → Stored id o s r (store_status p o s res r w).1
  unfolding store_status
  store_status-Stored id o s res r w e h =
      let o' = set_status s (p.read_clock w).0 o in
      let w1 = (p.read_clock w).1 in
      record {
        now = (p.read_clock w).0;
        views = λ j. rw (← e) ((get-update p.files o' r.store w1 j h).0);
        map = (get-update p.files o' r.store w1 id h).2;
        path = (get-update p.files o' r.store w1 id h).1;
        config = refl;
        reset_ts = refl;
      }

  store_status_counts :
      (o : OrderIntent) (s : OrderStatus) (res : Result OrderStatus) (r : TradeRouter) (w : World)
      → let r' = (store_status p o s res r w).1 in
        (r'.consecutive_failures ≡ r.consecutive_failures)
        × (r'.daily_volume_usdc ≡ r.daily_volume_usdc)
  unfolding store_status
  store_status_counts o s res r w = (refl, refl)

  -- `after_step` on the outcome of a step.
  module _ (id : Uuid) (o : OrderIntent) (r : TradeRouter) (live : Live id o r) (now : DateTime)
      (timely : InTime o now) (h : IsStore r.store) where
    still_stored :
        (res : Result OrderStatus) (mid : TradeRouter)
        → Effect r o res mid
        → (get id mid.store ≡ some o) × IsStore mid.store
    still_stored res mid e = let same = (Effect-same e).0 in (rw same live.stored, rw same h)

    -- From the router that the step left, with another failure count, back to `r`.
    Stored-from :
        (res : Result OrderStatus) (mid r' : TradeRouter) (n : ℕ) (s : OrderStatus)
        → Effect r o res mid
        → Stored id o s (record mid { consecutive_failures = n }) r'
        → Stored id o s r r'
    Stored-from res mid r' n s e st =
        let (store, config, failures, reset) = Effect-same e in
        record {
          now = st.now;
          views = λ j. st.views j ∙ rw store;
          map = st.map;
          path = st.path ∙ ap (λ x. x.persist_path) store;
          config = st.config ∙ config;
          reset_ts = st.reset_ts ∙ reset;
        }

    Flushed-from :
        {want : Result OrderStatus} {got : Result OrderStatus} (res : Result OrderStatus)
        (mid : TradeRouter) (n : ℕ)
        → Effect r o res mid
        → Flushed (record mid { consecutive_failures = n }) want got
        → Flushed r want got
    Flushed-from res mid n e (inl same) = inl same
    Flushed-from res mid n e (inr (x, bad, has_path)) =
        inr (x, bad, λ q. has_path (ap (λ y. y.persist_path) (Effect-same e).0 ∙ q))

    after_step-Transition :
        (out : Result OrderStatus × TradeRouter × World)
        → Effect r o out.0 out.1
        → ((t : OrderStatus) → out.0 ≡ ok t → Advances o.status t)
        → let (res, r', w') = after_step p id out in Transition id now r res r'
    unfolding after_step
    after_step-Transition (panic, mid, w) e adv =
        unwinds o live timely refl (Effect-unposted (λ t q. cc q) e)
    after_step-Transition (ok t, mid, w) e adv =
        let (found, map) = still_stored (ok t) mid e in
        let zeroed : TradeRouter = record mid { consecutive_failures = 0 } in
        let (failures, volume) = store_status_counts o t (ok t) zeroed w in
        rw found (
          unfold settle_stored settle in
          moves o t mid live timely (adv t refl) e
            (Stored-from (ok t) mid _ 0 t e
              (store_status-Stored id o t (ok t) zeroed w (id-get id r.store h live.stored) map))
            (Flushed-from (ok t) mid 0 e (store_status-Flushed o t (ok t) zeroed w)) failures
            volume)
    after_step-Transition (err x, mid, w) e adv =
        let (found, map) = still_stored (err x) mid e in
        let same = Effect-unposted (λ t q. cc q) e in
        let n : ℕ = u32 (mid.consecutive_failures + 1) in
        let t : OrderStatus = failed (display x) (stage_name o.status) in
        let counted : TradeRouter = record mid { consecutive_failures = n } in
        let (failures, volume) = store_status_counts o t (err x) counted w in
        rw found (
          unfold settle_stored settle in
          fails o x live timely
            (Stored-from (err x) mid _ n t e
              (store_status-Stored id o t (err x) counted w (id-get id r.store h live.stored) map))
            (Flushed-from (err x) mid n e (store_status-Flushed o t (err x) counted w))
            (failures ∙ rw same) (volume ∙ rw same))

module _ {World : Type 0} (p : Platform World) (c : Clients World) where
  advance_at-Transition :
      (id : Uuid) (now : ℕ) (o : OrderIntent) (r : TradeRouter) (w : World)
      → Live id o r
      → IsStore r.store
      → let (res, r', w') = advance_at p c id now o r w in Transition id now r res r'
  unfolding advance_at
  advance_at-Transition id now o r w live h =
      elim (Bool-cases (is_expired now o && not (outlives_deadline o.status))) [
        | inl late ↦
            let (failures, volume) = store_status_counts p o cancelled (ok cancelled) r w in
            rw late (
              cancels o live (ground (arith, late))
                (early_stage o.status (ground (arith, late)) live.open_status)
                (ground (arith, late))
                (store_status-Stored p id o cancelled (ok cancelled) r w
                  (id-get id r.store h live.stored) h)
                (store_status-Flushed p o cancelled (ok cancelled) r w) failures volume)
        | inr in_time ↦ rw in_time (
            after_step-Transition p id o r live now (in_time_lem now o in_time) h (step p c o r w)
              (step-Effect p c o r w) (λ t e. step-Advances p c o r w t e))
      ]

  -- On a well-formed store `advance` does what the abstract machine allows and nothing else: it is
  -- refused by the breaker, for want of the order or for its terminal status and changes nothing; or
  -- it cancels this one order, which has not come to its resolution and whose deadline is behind the
  -- clock in seconds; or it moves or fails this one order, which is in time or has come to its
  -- resolution; the status, the failure count and the volume then are as the machine says; or the
  -- step panics and nothing of the router changes.
  pub advance-Transition :
      (id : Uuid) (r : TradeRouter) (w : World)
      → IsStore r.store
      → let (res, r', w') = advance p c id r w in Transition id (p.read_clock w).0 r res r'
  unfolding advance advance_order
  advance-Transition id r w h = elim (Bool-cases (breaker_open r)) [
    | inl opened ↦ rw opened (halts _ opened refl refl)
    | inr closed ↦ elim (Option-cases (get id r.store)) [
      | inl missing ↦ rw (closed, missing) (misses _ missing refl refl)
      | inr (o, found) ↦ elim (Bool-cases (is_terminal o.status)) [
        | inl ended ↦ rw (closed, found, ended) (rests _ o found ended refl refl)
        | inr live ↦
            rw (closed, found, live)
              (advance_at-Transition id (p.read_clock w).0 o r (p.read_clock w).1
                (record { closed = closed; stored = found; open_status = live }) h)
      ]
    ]
  ]
