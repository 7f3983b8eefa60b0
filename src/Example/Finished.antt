-- ===== src/Example/Finished.antt =====
-- What it means that `main` of examples/route_trade.rs ends well.
use pump_poly_router.Base.{ℕ, ◌≡◌, sym, ap, ◌∙◌, subst, true, none, some}
use pump_poly_router.Error.{Result, ok, err, panic}
use pump_poly_router.Types.{Uuid, OrderIntent, pending, is_terminal}
use pump_poly_router.Config.{RouterConfig}
use pump_poly_router.Config.Env.{from_env}
use pump_poly_router.Store.{get}
use pump_poly_router.Platform.{Platform}
use pump_poly_router.Executor.State.{TradeRouter, Clients}
use pump_poly_router.Executor.Drive.{LoopRun, returned, running, unwound}
use pump_poly_router.Executor.New.{Parts, started}
use pump_poly_router.Executor.History.{History, Evolves}
use pump_poly_router.Example.{Shell, run_from, build_intent, set_up, drive, finished, exit_of, main}
use pump_poly_router.Example.Ended.{HasEnded, drive_ends}
use pump_poly_router.Example.SetUp.{set_up-SetUp, SetUp-IsReady}

-- A loop that ended well.
exit_of-finished :
    {World : Type 0} (k id : Uuid) (run : LoopRun World) (r : TradeRouter) (w : World)
    → exit_of k run ≡ finished id r w
    → (k ≡ id) × (run ≡ returned r w)
exit_of-finished k id (returned q v) r w e =
    let same : k ≡ id = cc e in
    let router : q ≡ r = cc e in let there : v ≡ w = cc e in (same, cc (router, there))
exit_of-finished k id (running q v) r w e = absurd (cc e)
exit_of-finished k id unwound r w e = absurd (cc e)

-- The order that `main` built in the world `v`, and the one that is stored in the end.
pub record Concluded {World : Type 0} (p : Platform World) (shell : Shell World)
    (config : RouterConfig) (v : World) (id : Uuid) (r' : TradeRouter) : Type 0 where
  pub order : OrderIntent
  pub built_in : World
  pub built : build_intent p shell config v ≡ (ok order, built_in)
  pub named : order.id ≡ id
  pub final : OrderIntent
  pub stored : get id r'.store ≡ some final
  pub terminal : is_terminal final.status ≡ true
  pub evolves : Evolves order final

ended_evolved :
    {id : Uuid} {order : OrderIntent} {r r' : TradeRouter}
    → get id r.store ≡ some order
    → HasEnded id r'
    → History r r'
    → (final : OrderIntent) × (get id r'.store ≡ some final)
      × (is_terminal final.status ≡ true)
      × Evolves order final
ended_evolved {id} {order} {r} {r'} stored ended history =
    let (final, found, evolves) = history.orders id order stored in
    let equal : ended.order ≡ final = cc (ended.stored, found) in
    (
      final,
      found,
      subst (λ (x : OrderIntent). is_terminal x.status ≡ true) equal ended.terminal,
      evolves,
    )

module _ {World : Type 0} (p : Platform World) (shell : Shell World)
    (connect : Parts → Clients World) where
  -- What a good end of `main` went through.
  run_from-finished :
      (fuel : ℕ) (out : Result (Uuid × Parts × TradeRouter) × World) (id : Uuid) (r' : TradeRouter)
      (w : World)
      → run_from p shell connect fuel out ≡ finished id r' w
      → (parts : Parts) × (r : TradeRouter) × (v : World) × (out ≡ (ok (id, parts, r), v))
        × (drive p (connect parts) fuel id r v ≡ returned r' w)
  run_from-finished fuel (ok (k, parts, r), v) id r' w e =
      let (same, ran) = exit_of-finished k id (drive p (connect parts) fuel k r v) r' w e in
      (
        parts,
        r,
        v,
        ap (λ x. (ok (x, parts, r), v)) same,
        subst (λ x. drive p (connect parts) fuel x r v ≡ returned r' w) same ran,
      )
  run_from-finished fuel (err x, v) id r' w e = absurd (cc e)
  run_from-finished fuel (panic, v) id r' w e = absurd (cc e)

  -- If `main` ends well and no snapshot path is configured, the order that it built from the environment
  -- is in the router's store under the id that was submitted, with the terms that it was built with; it
  -- has ended, and its status is one that the pipeline reaches from the first.
  pub main_finished :
      (fuel : ℕ) (config : RouterConfig) (id : Uuid) (r' : TradeRouter) (v w : World)
      → from_env shell.variable ≡ ok config
      → config.order_store_path ≡ none
      → main p shell connect fuel v ≡ finished id r' w
      → Concluded p shell config v id r'
  unfolding main
  main_finished fuel config id r' v w loaded no_path e =
      let (parts, r, u, started, ran) = run_from-finished fuel (set_up p shell v) id r' w e in
      let s = set_up-SetUp p shell id parts r v u started in
      let same : s.config ≡ config = cc (sym s.loaded ∙ loaded) in
      let ready =
        SetUp-IsReady p shell s (ap (λ (x : RouterConfig). x.order_store_path) same ∙ no_path) in
      let (ended, history) =
        drive_ends p (connect parts) fuel id pending r r' u w ready.driven ready.zeroed ran in
      let (final, found, terminal, evolves) = ended_evolved ready.stored ended history in
      record {
        order = s.order;
        built_in = s.v1;
        built = subst (λ x. build_intent p shell x v ≡ (ok s.order, s.v1)) same s.built;
        named = ready.named;
        final = final;
        stored = found;
        terminal = terminal;
        evolves = evolves;
      }
