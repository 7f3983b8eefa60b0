-- ===== src/Executor/History.antt =====
-- What becomes of the orders of src/executor.rs while the router runs: which are there, with what
-- terms, and how their statuses move.
pub mod Reach
use pump_poly_router.Base.{
  ℕ, zero, suc, ◌≤◌, ◌≡◌, ◌≢◌, ◌⊎◌, inl, inr, refl, sym, ap, subst, ◌∙◌, arith, Bool, true, false,
  List, [], ◌∷◌, Option, none, some, ◌==◌, ==_iff, if◌then◌else◌, Bool-cases, Option-cases,
}
use pump_poly_router.Error.{RouterError, display, Result, ok, err, panic, Result-cases}
use pump_poly_router.Types.{
  Uuid, OrderStatus, OrderIntent, failed, cancelled, is_terminal, set_status,
}
use pump_poly_router.Store.{get, pending_ids}
use pump_poly_router.Store.Laws.{IsStore}
use pump_poly_router.Platform.{Platform}
use pump_poly_router.Executor.State.{TradeRouter, Clients}
use pump_poly_router.Executor.Drive.{
  outlives_deadline, stage_name, pass_on_router, advance, advance_all, maybe_reset_daily_volume,
  run_once,
}
use pump_poly_router.Executor.Pipeline.{stage, Advances}
use pump_poly_router.Executor.Transition.{
  Stored, Live, Transition, halts, misses, rests, cancels, moves, fails, unwinds,
}
use pump_poly_router.Executor.Transition.Refines.{advance-Transition}
use pump_poly_router.Executor.History.Reach.{
  Hop, Reaches, Reaches-trans, Reaches-terminal, Reaches-stage, here, onward, forward, fails_at,
  cancels_at,
}

-- The terms of an order: all but its status and the time of its last change.
pub record SameTerms (o o' : OrderIntent) : Type 0 where
  pub terms : o' ≡ record o { status = o'.status; updated_at = o'.updated_at }

abbrev pub Evolves : OrderIntent → OrderIntent → Type 0
Evolves o o' = SameTerms o o' × Reaches o.status o'.status

pub record History (r r' : TradeRouter) : Type 0 where
  pub orders :
      (j : Uuid) (o : OrderIntent)
      → get j r.store ≡ some o
      → (o' : OrderIntent) × (get j r'.store ≡ some o') × Evolves o o'
  pub unknown : (j : Uuid) → get j r.store ≡ none → get j r'.store ≡ none
  pub map : IsStore r'.store
  pub config : r'.config ≡ r.config

pub History-refl :
    (r r' : TradeRouter)
    → IsStore r.store
    → r'.store ≡ r.store
    → r'.config ≡ r.config
    → History r r'
History-refl r r' h e f = record {
  orders = λ j o q. (o, rw e q, (record { terms = refl }, here));
  unknown = λ j q. rw e q;
  map = rw e h;
  config = f;
}

SameTerms-trans : {a b c : OrderIntent} → SameTerms a b → SameTerms b c → SameTerms a c
SameTerms-trans {a} {b} {c} h k = record {
  terms =
      k.terms
      ∙ ap (λ (x : OrderIntent). record x { status = c.status; updated_at = c.updated_at }) h.terms;
}

pub History-trans : {a b c : TradeRouter} → History a b → History b c → History a c
History-trans h k = record {
  orders = λ j o q.
      let (o1, q1, e1) = h.orders j o q in
      let (o2, q2, e2) = k.orders j o1 q1 in
      (o2, q2, (SameTerms-trans e1.0 e2.0, Reaches-trans e1.1 e2.1));
  unknown = λ j q. k.unknown j (h.unknown j q);
  map = k.map;
  config = k.config ∙ h.config;
}

-- One order changed its status by a hop.
Stored-History :
    {id : Uuid} {o : OrderIntent} {s : OrderStatus} {r r' : TradeRouter}
    → get id r.store ≡ some o
    → Hop o.status s
    → Stored id o s r r'
    → History r r'
Stored-History {id} {o} {s} {r} {r'} found hop st = record {
  orders = λ j q e. elim (Bool-cases (id == j)) [
    | inl same ↦
        let at : id ≡ j = (==_iff id j).0 same in
        let equal : o ≡ q = cc (found, e, at) in
        (
          set_status s st.now o,
          st.views j ∙ rw same,
          (
            record { terms = rw (← equal) },
            onward here (subst (λ (x : OrderIntent). Hop x.status s) equal hop),
          ),
        )
    | inr other ↦ (q, st.views j ∙ rw other e, (record { terms = refl }, here))
  ];
  unknown = λ j e. elim (Bool-cases (id == j)) [
    | inl same ↦ cc (found, e, (==_iff id j).0 same)
    | inr other ↦ st.views j ∙ rw other e
  ];
  map = st.map;
  config = st.config;
}

Transition-History :
    {id : Uuid} {now : ℕ} {r r' : TradeRouter} {res : Result OrderStatus}
    → IsStore r.store
    → Transition id now r res r'
    → History r r'
Transition-History h (halts e opened q same) = History-refl _ _ h (rw same) (rw same)
Transition-History h (misses e missing q same) = History-refl _ _ h (rw same) (rw same)
Transition-History h (rests e o found ended q same) = History-refl _ _ h (rw same) (rw same)
Transition-History h (cancels o live late early past st q failures volume) =
    Stored-History live.stored (cancels_at live.open_status late refl) st
Transition-History h (moves o t mid live timely adv effect st q failures volume) =
    Stored-History live.stored (forward live.open_status adv) st
Transition-History h (fails o e live timely st q failures volume) =
    Stored-History live.stored (fails_at (display e) live.open_status refl) st
Transition-History h (unwinds o live timely q same) = History-refl _ _ h (rw same) (rw same)

module _ {World : Type 0} (p : Platform World) where
  reset-History :
      (r : TradeRouter) (w : World) → IsStore r.store → History r (maybe_reset_daily_volume p r w).0
  unfolding maybe_reset_daily_volume
  reset-History r w h = History-refl r _ h (ground arith) (ground arith)

  pub reset-IsStore :
      (r : TradeRouter) (w : World)
      → IsStore r.store
      → IsStore (maybe_reset_daily_volume p r w).0.store
  reset-IsStore r w h = (reset-History r w h).map

module _ {World : Type 0} (p : Platform World) (c : Clients World) where
  pub advance-History :
      (id : Uuid) (r : TradeRouter) (w : World) → IsStore r.store → History r (advance p c id r w).1
  advance-History id r w h = Transition-History h (advance-Transition p c id r w h)

  pub advance_all-History :
      (ids : List Uuid) (r : TradeRouter) (w : World)
      → IsStore r.store
      → History r (advance_all p c ids r w).1
  unfolding advance_all
  advance_all-History [] r w h = History-refl r r h refl refl
  advance_all-History (id ∷ ids) r w h =
      let first = advance p c id r w in
      let one = advance-History id r w h in
      let more = History-trans one (advance_all-History ids first.1 first.2 one.map) in
      elim (pass_on_router id first (advance_all p c ids first.1 first.2)) [
        | inl e ↦ subst (λ (x : TradeRouter). History r x) (sym e) one
        | inr e ↦ subst (λ (x : TradeRouter). History r x) (sym e) more
      ]

  pub advance-IsStore :
      (id : Uuid) (r : TradeRouter) (w : World)
      → IsStore r.store
      → IsStore (advance p c id r w).1.store
  advance-IsStore id r w h = (advance-History id r w h).map

  -- A pass of `run_once` over a well-formed store, whatever the chains and services answer: every
  -- stored order is still there, with all its terms (and its `proofs`) unchanged and a status that is
  -- reached from the old one by the documented pipeline, a failure or a cancellation; no order
  -- appears; the configuration is the same and the store stays well formed.
  pub run_once-History :
      (r : TradeRouter) (w : World) → IsStore r.store → History r (run_once p c r w).1
  unfolding run_once
  run_once-History r w h =
      let reset = maybe_reset_daily_volume p r w in
      let one = reset-History p r w h in
      History-trans one (advance_all-History (pending_ids reset.0.store) reset.0 reset.1 one.map)

  -- A pass of `run_once` over a well-formed store never takes an order back: one whose status is
  -- terminal keeps it, and any other is afterwards failed or cancelled, or at the same or a later stage
  -- of the documented pipeline.
  pub run_once_forward :
      (r : TradeRouter) (w : World) (j : Uuid) (o : OrderIntent)
      → IsStore r.store
      → get j r.store ≡ some o
      → (o' : OrderIntent) × (get j (run_once p c r w).1.store ≡ some o')
        × (is_terminal o.status ≡ true → o'.status ≡ o.status)
        × ((stage o'.status ≡ 0) ⊎ (stage o.status ≤ stage o'.status))
  run_once_forward r w j o h found =
      let (o', now, (terms, reached)) = (run_once-History r w h).orders j o found in
      (o', now, (λ ended. Reaches-terminal ended reached), Reaches-stage reached)
