-- ===== src/Example/SetUp.antt =====
-- What `main` of examples/route_trade.rs has set up when its loop starts.
use pump_poly_router.Base.{◌≡◌, refl, sym, ap, ◌∙◌, subst, arith, none, some, ==_refl}
use pump_poly_router.Error.{Result, ok, err, panic}
use pump_poly_router.Types.{Uuid, OrderIntent, pending}
use pump_poly_router.Config.{RouterConfig}
use pump_poly_router.Config.Env.{from_env}
use pump_poly_router.Store.{OrderStore, new_store, get, lookup, insert, update}
use pump_poly_router.Store.Laws.{IsStore, insert_lem}
use pump_poly_router.Effect.{and_then-ok, lift-ok, pure-ok}
use pump_poly_router.Platform.{Platform}
use pump_poly_router.Executor.State.{TradeRouter}
use pump_poly_router.Executor.Drive.{submit_intent, secs}
use pump_poly_router.Executor.New.{Parts, new_parts, new_router, started}
use pump_poly_router.Example.{Shell, build_intent, open_store, submitted, set_up}
use pump_poly_router.Example.Ended.{Driven}

module _ {World : Type 0} (p : Platform World) (shell : Shell World) where
  -- The order that was built is pending.
  build_intent-pending :
      (config : RouterConfig) (order : OrderIntent) (v w : World)
      → build_intent p shell config v ≡ (ok order, w)
      → order.status ≡ pending
  unfolding build_intent
  build_intent-pending config order v w e = ground (arith, e)

  started-ok :
      (config : RouterConfig) (store : OrderStore) (parts : Result Parts) (r : TradeRouter)
      (v w : World)
      → started p config store parts v ≡ (ok r, w)
      → (r.store ≡ store) × (r.consecutive_failures ≡ 0)
  started-ok config store (ok parts) r v w e =
      let built : TradeRouter = record {
        config = config;
        store = store;
        consecutive_failures = 0;
        daily_volume_usdc = 0;
        daily_volume_reset_ts = secs (p.read_clock v).0;
      } in
      let same : built ≡ r = cc e in
      (
        sym (ap (λ (x : TradeRouter). x.store) same),
        sym (ap (λ (x : TradeRouter). x.consecutive_failures) same),
      )
  started-ok config store (err x) r v w e = absurd (cc e)
  started-ok config store panic r v w e = absurd (cc e)

  -- A router that was built has no failure counted, and the store that it was given.
  new_router-ok :
      (config : RouterConfig) (store : OrderStore) (r : TradeRouter) (v w : World)
      → new_router p config store v ≡ (ok r, w)
      → (r.store ≡ store) × (r.consecutive_failures ≡ 0)
  unfolding new_router
  new_router-ok config store r v w e = started-ok config store (new_parts p config) r v w e

  -- An order that is submitted to an empty router without a path.
  submit_intent-stored :
      (order : OrderIntent) (r : TradeRouter) (w : World)
      → r.store ≡ new_store
      → let r' = (submit_intent p order r w).1 in
        (get order.id r'.store ≡ some order) × IsStore r'.store × (r'.store.persist_path ≡ none)
  unfolding submit_intent
  submit_intent-stored order r w blank =
      let fresh : get order.id r.store ≡ none = rw blank (unfold get lookup in refl) in
      let (taken, put, map) = insert_lem p.files order r.store w order.id (rw blank tt) in
      let path : (insert p.files order r.store w).1.persist_path ≡ none =
        ap (λ x. (insert p.files order x w).1.persist_path) blank
        ∙ (unfold insert update get lookup in refl) in
      (put fresh ∙ rw (==_refl order.id) refl, map, path)

  submitted-ok :
      (parts parts' : Parts) (id : Uuid) (out : Result Uuid × TradeRouter × World)
      (r' : TradeRouter) (w : World)
      → submitted p shell parts out ≡ (ok (id, parts', r'), w)
      → (out.0 ≡ ok id) × (out.1 ≡ r')
  submitted-ok parts parts' id (ok k, r, v) r' w e = (cc e, cc e)
  submitted-ok parts parts' id (err x, r, v) r' w e = absurd (cc e)
  submitted-ok parts parts' id (panic, r, v) r' w e = absurd (cc e)

  submit_intent-id :
      (order : OrderIntent) (id : Uuid) (r : TradeRouter) (w : World)
      → (submit_intent p order r w).0 ≡ ok id
      → order.id ≡ id
  unfolding submit_intent
  submit_intent-id order id r w e = ground (arith, e)

  submit_intent-failures :
      (order : OrderIntent) (r : TradeRouter) (w : World)
      → (submit_intent p order r w).1.consecutive_failures ≡ r.consecutive_failures
  unfolding submit_intent
  submit_intent-failures order r w = refl

  -- The parts of `set_up`, where it succeeded.
  pub record SetUp (id : Uuid) (parts : Parts) (r : TradeRouter) (v w : World) : Type 0 where
    pub config : RouterConfig
    pub order : OrderIntent
    pub store : OrderStore
    pub router : TradeRouter
    pub v1 : World
    pub v2 : World
    pub v3 : World
    pub loaded : from_env shell.variable ≡ ok config
    pub built : build_intent p shell config v ≡ (ok order, v1)
    pub opened : open_store p shell config.order_store_path v1 ≡ (ok store, v2)
    pub begun : new_router p config store v2 ≡ (ok router, v3)
    pub named : (submit_intent p order router v3).0 ≡ ok id
    pub left : (submit_intent p order router v3).1 ≡ r

  pub set_up-SetUp :
      (id : Uuid) (parts : Parts) (r : TradeRouter) (v w : World)
      → set_up p shell v ≡ (ok (id, parts, r), w)
      → SetUp id parts r v w
  unfolding set_up
  set_up-SetUp id parts r v w e =
      let end : Uuid × Parts × TradeRouter = (id, parts, r) in
      let (config, loaded, e1) = lift-ok (from_env shell.variable) _ end v w e in
      let (order, v1, built, e2) = and_then-ok (build_intent p shell config v) _ end w e1 in
      let (store, v2, opened, e3) =
        and_then-ok (open_store p shell config.order_store_path v1) _ end w e2 in
      let (router, v3, begun, e4) = and_then-ok (new_router p config store v2) _ end w e3 in
      let (parts', made, e5) = lift-ok (new_parts p config) _ end v3 w e4 in
      let (named, left) = submitted-ok parts' parts id (submit_intent p order router v3) r w e5 in
      record {
        config = config;
        order = order;
        store = store;
        router = router;
        v1 = v1;
        v2 = v2;
        v3 = v3;
        loaded = loaded;
        built = built;
        opened = opened;
        begun = begun;
        named = named;
        left = left;
      }

  -- The order that the loop drives.
  pub record IsReady (id : Uuid) (order : OrderIntent) (r : TradeRouter) : Type 0 where
    pub named : order.id ≡ id
    pub driven : Driven id pending r
    pub stored : get id r.store ≡ some order
    pub zeroed : r.consecutive_failures ≡ 0

  blank_store :
      (config : RouterConfig) (store : OrderStore) (v w : World)
      → config.order_store_path ≡ none
      → open_store p shell config.order_store_path v ≡ (ok store, w)
      → store ≡ new_store
  blank_store config store v w no_path e = sym (pure-ok new_store store v w (rw no_path at e)).0

  pub SetUp-IsReady :
      {id : Uuid} {parts : Parts} {r : TradeRouter} {v w : World} (s : SetUp id parts r v w)
      → s.config.order_store_path ≡ none
      → IsReady id s.order r
  SetUp-IsReady {id} {parts} {r} {v} {w} s no_path =
      let (stores, zeros) = new_router-ok s.config s.store s.router s.v2 s.v3 s.begun in
      let blank = stores ∙ blank_store s.config s.store s.v1 s.v2 no_path s.opened in
      let name = submit_intent-id s.order id s.router s.v3 s.named in
      let pends = build_intent-pending s.config s.order v s.v1 s.built in
      let (stored, map, path) = submit_intent-stored s.order s.router s.v3 blank in
      let failures = submit_intent-failures s.order s.router s.v3 ∙ zeros in
      let there : get id r.store ≡ some s.order =
        subst (λ k. get k r.store ≡ some s.order) name
          (subst (λ (x : TradeRouter). get s.order.id x.store ≡ some s.order) s.left stored) in
      record {
        named = name;
        driven = record {
          order = s.order;
          stored = there;
          status = pends;
          map = subst (λ (x : TradeRouter). IsStore x.store) s.left map;
          path = subst (λ (x : TradeRouter). x.store.persist_path ≡ none) s.left path;
        };
        stored = there;
        zeroed = subst (λ (x : TradeRouter). x.consecutive_failures ≡ 0) s.left failures;
      }
