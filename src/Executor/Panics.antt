-- ===== src/Executor/Panics.antt =====
-- When a step panics, and when it cannot.
use pump_poly_router.Base.{
  ℕ, ◌≡◌, ◌≢◌, inl, inr, refl, arith, true, false, not, ◌&&◌, List, Option, none, some, Bool-cases,
  Option-cases,
}
use pump_poly_router.Text.{Text}
use pump_poly_router.Error.{Result, ok, err, panic}
use pump_poly_router.Types.{
  Uuid, Pubkey, Outcome, OrderStatus, OrderIntent, pending, solana_swap_in_progress,
  solana_swap_complete, bridge_pending, bridge_relaying, bridge_complete, polymarket_order_posted,
  awaiting_resolution, redeeming, settlement_swapping, settlement_bridging, cancelled, is_terminal,
  is_expired,
}
use pump_poly_router.Config.{RouterConfig, usdc_solana_mint}
use pump_poly_router.Store.{get, update, flush, write_snapshot}
use pump_poly_router.Platform.{Platform, Keypair}
use pump_poly_router.Bridge.Attestation.{AttestationResponse, is_complete}
use pump_poly_router.Polymarket.Resolver.{ResolutionOutcome}
use pump_poly_router.Solana.Jupiter.{QuoteResponse}
use pump_poly_router.Executor.State.{TradeRouter, Clients}
use pump_poly_router.Executor.Steps.{
  transfer_sol, step_pending, step_solana_swap_in_progress, step_solana_swap_complete,
  step_bridge_pending, step_bridge_relaying, step_bridge_complete, step_poly_order_posted,
  step_awaiting_resolution, step_redeeming, step_settlement_bridging, step_settlement_swapping,
  index_sets_for_outcome,
}
use pump_poly_router.Executor.Drive.{
  dispatch, step, breaker_open, advance, advance_order, advance_at, after_step, settle_stored,
  settle, store_status, outlives_deadline,
}
use pump_poly_router.Executor.Fields.{step-Effect, Effect-same}

module _ {World : Type 0} (p : Platform World) (c : Clients World) where
  -- The attestation service has answered `complete` without an attestation.
  step_bridge_pending_panics :
      (n : ℕ) (hash message : Text) (w : World) (att : AttestationResponse)
      → (c.get_attestation hash w).0 ≡ ok att
      → is_complete att ≡ true
      → att.attestation ≡ none
      → (step_bridge_pending p c n hash message w).0 ≡ panic
  unfolding step_bridge_pending
  step_bridge_pending_panics n hash message w att e full missing = ground arith

  -- With the breaker closed, a stored order in time that waits for the bridge, and an attestation that
  -- is reported `complete` without the bytes, `advance` panics and leaves the router as it was.
  pub advance_missing_attestation :
      (id : Uuid) (o : OrderIntent) (n : ℕ) (hash message : Text) (r : TradeRouter) (w : World)
      (att : AttestationResponse)
      → breaker_open r ≡ false
      → get id r.store ≡ some o
      → o.status ≡ bridge_pending n hash message
      → is_expired (p.read_clock w).0 o ≡ false
      → (c.get_attestation hash (p.read_clock w).1).0 ≡ ok att
      → is_complete att ≡ true
      → att.attestation ≡ none
      → ((advance p c id r w).0 ≡ panic) × ((advance p c id r w).1 ≡ r)
  unfolding advance advance_order advance_at step dispatch after_step
  advance_missing_attestation id o n hash message r w att closed found waiting in_time e full
        missing =
      let open_status : is_terminal o.status ≡ false = rw waiting refl in
      let bad = step_bridge_pending_panics n hash message (p.read_clock w).1 att e full missing in
      rw (closed, found, open_status, in_time, waiting) (ground (arith, bad))

-- Clients that never panic, the wait for a fill in an early world, and answer `complete` only with an
-- attestation; the hard-coded mint parses.
pub record IsCalm {World : Type 0} (p : Platform World) (c : Clients World) (early : World → Type 0)
    : Type 0 where
  pub mint : p.pubkey_from_str usdc_solana_mint ≢ none
  pub attested :
      (hash : Text) (w : World) (att : AttestationResponse)
      → (c.get_attestation hash w).0 ≡ ok att
      → is_complete att ≡ true
      → att.attestation ≢ none
  pub get_quote : (a b : Text) (n m : ℕ) (w : World) → (c.get_quote a b n m w).0 ≢ panic
  pub get_swap_transaction :
      (q : QuoteResponse) (k : Pubkey) (fee : Option ℕ) (w : World)
      → (c.get_swap_transaction q k fee w).0 ≢ panic
  pub execute_swap : (tx : Text) (k : Keypair) (w : World) → (c.execute_swap tx k w).0 ≢ panic
  pub swap : (a b : Text) (n m : ℕ) (k : Keypair) (w : World) → (c.swap a b n m k w).0 ≢ panic
  pub token_balance : (a b : Pubkey) (w : World) → (c.token_balance a b w).0 ≢ panic
  pub deposit_for_burn :
      (k : Keypair) (m : Pubkey) (n : ℕ) (to : Text) (w : World)
      → (c.deposit_for_burn k m n to w).0 ≢ panic
  pub solana_receive_message :
      (k : Keypair) (m a : List ℕ) (w : World) → (c.solana_receive_message k m a w).0 ≢ panic
  pub polygon_receive_message :
      (m a : Text) (w : World) → (c.polygon_receive_message m a w).0 ≢ panic
  pub deposit_for_burn_return_leg :
      (a : Text) (n : ℕ) (to : List ℕ) (b : Text) (w : World)
      → (c.deposit_for_burn_return_leg a n to b w).0 ≢ panic
  pub get_attestation : (hash : Text) (w : World) → (c.get_attestation hash w).0 ≢ panic
  pub post_order :
      (token : Text) (n : ℕ) (side : Outcome) (w : World) → (c.post_order token n side w).0 ≢ panic
  pub wait_for_fill : (i : Text) (w : World) → early w → (c.wait_for_fill i w).0 ≢ panic
  pub is_resolved : (i : Text) (w : World) → (c.is_resolved i w).0 ≢ panic
  -- for a condition that the resolver has looked up
  pub redeem_positions :
      (a i : Text) (s : List ℕ) (found : Option ResolutionOutcome) (v w : World)
      → (c.is_resolved i v).0 ≡ ok found
      → (c.redeem_positions a i s w).0 ≢ panic
  pub usdc_balance : (a b : Text) (w : World) → (c.usdc_balance a b w).0 ≢ panic

module _ {World : Type 0} (p : Platform World) (c : Clients World) (early : World → Type 0)
    (calm : IsCalm p c early) where
  pending_calm :
      (cfg : RouterConfig) (order : OrderIntent) (w : World)
      → (step_pending p c cfg order w).0 ≢ panic
  unfolding step_pending
  pending_calm cfg order w e =
      grind (arith, calm.mint, calm.get_quote, calm.get_swap_transaction, calm.execute_swap)

  bridge_pending_calm :
      (n : ℕ) (hash message : Text) (w : World)
      → (step_bridge_pending p c n hash message w).0 ≢ panic
  unfolding step_bridge_pending
  bridge_pending_calm n hash message w e =
      grind (arith, calm.get_attestation, calm.attested, calm.polygon_receive_message)

  swap_in_progress_calm :
      (cfg : RouterConfig) (order : OrderIntent) (w : World)
      → (step_solana_swap_in_progress p c cfg order w).0 ≢ panic
  unfolding step_solana_swap_in_progress
  swap_in_progress_calm cfg order w e = grind (arith, calm.mint, calm.token_balance)

  swap_complete_calm :
      (cfg : RouterConfig) (n : ℕ) (w : World) → (step_solana_swap_complete p c cfg n w).0 ≢ panic
  unfolding step_solana_swap_complete
  swap_complete_calm cfg n w e = grind (arith, calm.mint, calm.deposit_for_burn)

  bridge_relaying_calm :
      (cfg : RouterConfig) (a tx : Text) (w : World)
      → (step_bridge_relaying p c cfg a tx w).0 ≢ panic
  unfolding step_bridge_relaying
  bridge_relaying_calm cfg a tx w e = grind (arith, calm.usdc_balance)

  bridge_complete_calm :
      (order : OrderIntent) (n : ℕ) (r : TradeRouter) (w : World)
      → (step_bridge_complete p c order n r w).0 ≢ panic
  unfolding step_bridge_complete
  bridge_complete_calm order n r w e = grind (arith, calm.post_order)

  order_posted_calm : (i : Text) (w : World) → early w → (step_poly_order_posted p c i w).0 ≢ panic
  unfolding step_poly_order_posted
  order_posted_calm i w now e = grind (arith, calm.wait_for_fill i w now)

  index_sets_calm :
      (side : Outcome) (payouts : List ℕ) → index_sets_for_outcome side payouts ≢ panic
  unfolding index_sets_for_outcome
  index_sets_calm side payouts e = ground arith

  awaiting_calm :
      (cfg : RouterConfig) (order : OrderIntent) (w : World)
      → (step_awaiting_resolution p c cfg order w).0 ≢ panic
  unfolding step_awaiting_resolution
  awaiting_calm cfg order w e =
      grind (arith, calm.is_resolved, calm.redeem_positions, index_sets_calm)

  redeeming_calm :
      (cfg : RouterConfig) (tx : Text) (w : World) → (step_redeeming p c cfg tx w).0 ≢ panic
  unfolding step_redeeming
  redeeming_calm cfg tx w e =
      grind (arith, calm.mint, calm.usdc_balance, calm.deposit_for_burn_return_leg)

  settlement_bridging_calm :
      (cfg : RouterConfig) (n : ℕ) (hash message : Text) (w : World)
      → (step_settlement_bridging p c cfg n hash message w).0 ≢ panic
  unfolding step_settlement_bridging
  settlement_bridging_calm cfg n hash message w e =
      grind (arith, calm.get_attestation, calm.attested, calm.solana_receive_message)

  settlement_swapping_calm :
      (cfg : RouterConfig) (order : OrderIntent) (w : World)
      → (step_settlement_swapping p c cfg order w).0 ≢ panic
  unfolding step_settlement_swapping transfer_sol
  settlement_swapping_calm cfg order w e = grind (arith, calm.mint, calm.token_balance, calm.swap)

  dispatch_calm :
      (s : OrderStatus) (order : OrderIntent) (r : TradeRouter) (w : World)
      → early w
      → (dispatch p c s order r w).0 ≢ panic
  unfolding dispatch
  dispatch_calm pending order r w now = pending_calm r.config order w
  dispatch_calm (solana_swap_in_progress tx) order r w now = swap_in_progress_calm r.config order w
  dispatch_calm (solana_swap_complete n) order r w now = swap_complete_calm r.config n w
  dispatch_calm (bridge_pending n hash m) order r w now = bridge_pending_calm n hash m w
  dispatch_calm (bridge_relaying a tx) order r w now = bridge_relaying_calm r.config a tx w
  dispatch_calm (bridge_complete n) order r w now = bridge_complete_calm order n r w
  dispatch_calm (polymarket_order_posted i) order r w now = order_posted_calm i w now
  dispatch_calm awaiting_resolution order r w now = awaiting_calm r.config order w
  dispatch_calm (redeeming tx) order r w now = redeeming_calm r.config tx w
  dispatch_calm (settlement_bridging n hash m) order r w now =
      settlement_bridging_calm r.config n hash m w
  dispatch_calm settlement_swapping order r w now = settlement_swapping_calm r.config order w
  dispatch_calm s order r w now = λ e. cc e

  settle_calm :
      (id : Uuid) (out : Result OrderStatus × TradeRouter × World)
      → out.0 ≢ panic
      → get id out.1.store ≢ none
      → (after_step p id out).0 ≢ panic
  unfolding after_step settle_stored settle store_status update flush write_snapshot
  settle_calm id (ok s, r, w) h found = ground arith
  settle_calm id (err e, r, w) h found = ground arith
  settle_calm id (panic, r, w) h found = absurd (h refl)

  step_calm :
      (order : OrderIntent) (r : TradeRouter) (w : World) → early w → (step p c order r w).0 ≢ panic
  unfolding step
  step_calm order r w now = dispatch_calm order.status order r w now

  after_step_calm :
      (id : Uuid) (o order : OrderIntent) (r : TradeRouter) (w : World)
      → get id r.store ≡ some o
      → early w
      → (after_step p id (step p c order r w)).0 ≢ panic
  after_step_calm id o order r w found now =
      let (store_same, _, _, _) = Effect-same (step-Effect p c order r w) in
      settle_calm id (step p c order r w) (step_calm order r w now) (λ e. cc (found, store_same, e))

  store_status_calm :
      (o : OrderIntent) (s t : OrderStatus) (r : TradeRouter) (w : World)
      → (store_status p o s (ok t) r w).0 ≢ panic
  unfolding store_status update flush write_snapshot
  store_status_calm o s t r w = ground arith

  -- With clients that do not panic themselves, a mint address that parses and attestations that come
  -- with their bytes, `advance` returns on every order in every state, if the world that the step runs
  -- in is early: none of its `unwrap`s fails.
  pub advance_total :
      (id : Uuid) (r : TradeRouter) (w : World)
      → early (p.read_clock w).1
      → (advance p c id r w).0 ≢ panic
  unfolding advance advance_order advance_at
  advance_total id r w now = elim (Bool-cases (breaker_open r)) [
    | inl opened ↦ rw opened (λ e. cc e)
    | inr closed ↦ elim (Option-cases (get id r.store)) [
      | inl missing ↦ rw (closed, missing) (λ e. cc e)
      | inr (o, found) ↦ elim (Bool-cases (is_terminal o.status)) [
        | inl ended ↦ rw (closed, found, ended) (λ e. cc e)
        | inr live ↦
            elim (Bool-cases
              (is_expired (p.read_clock w).0 o && not (outlives_deadline o.status))) [
                | inl late ↦
                    rw (closed, found, live, late) (store_status_calm o cancelled cancelled r _)
                | inr in_time ↦
                    rw (closed, found, live, in_time)
                      (after_step_calm id o o r (p.read_clock w).1 found now)
              ]
      ]
    ]
  ]
