-- ===== src/Executor/Money.antt =====
-- The amounts that the steps compute.
use pump_poly_router.Base.{
  ℕ, ◌+◌, ◌-◌, ◌*◌, ◌/◌, ◌≤◌, ◌<◌, ◌≡◌, ◌≢◌, ◌⊎◌, arith, List, [], ◌∷◌, some, none, Option,
  get_elem?,
}
use pump_poly_router.Words.{IsU64, unwrap_or}
use pump_poly_router.Error.{ok}
use pump_poly_router.Text.{Text}
use pump_poly_router.Effect.{and_then-ok, lift-ok}
use pump_poly_router.Platform.{Keypair, Signature}
use pump_poly_router.Solana.Jupiter.{QuoteResponse}
use pump_poly_router.Types.{
  Pubkey, OrderStatus, OrderIntent, Outcome, yes_side, no_side, solana_swap_complete,
}
use pump_poly_router.Config.{RouterConfig, usdc_solana_mint}
use pump_poly_router.Platform.{Platform}
use pump_poly_router.Executor.State.{Clients}
use pump_poly_router.Executor.Steps.{
  unwrap, protocol_fee, load_keypair, step_pending, step_solana_swap_in_progress,
  index_sets_for_outcome,
}

fee_exact_lem : (amount bps : ℕ) → IsU64 amount → bps ≤ 10_000 → amount * bps / 10_000 ≤ amount
fee_exact_lem amount bps h k =
    let bound : amount * bps ≤ amount * 10_000 = grind arith in omega arith

-- A fee of at most 10,000 basis points is computed without overflow, rounded down.
protocol_fee_exact :
    (amount bps : ℕ) → IsU64 amount → bps ≤ 10_000 → protocol_fee amount bps ≡ amount * bps / 10_000
unfolding protocol_fee
protocol_fee_exact amount bps h k =
    let small = fee_exact_lem amount bps h k in
    let bound : amount * bps ≤ amount * 10_000 = grind arith in omega arith

-- The winning side's slot must be paid: the index set is 1 for YES and 2 for NO, and a side that did
-- not win, or a payout list that is too short, is refused.
pub index_sets_lem :
    (outcome : Outcome) (payouts : List ℕ) (sets : List ℕ)
    → index_sets_for_outcome outcome payouts ≡ ok sets
    → ((outcome ≡ yes_side) × (sets ≡ 1 ∷ []) × (0 < unwrap_or (get_elem? payouts 0) 0))
      ⊎ ((outcome ≡ no_side) × (sets ≡ 2 ∷ []) × (0 < unwrap_or (get_elem? payouts 1) 0))
unfolding index_sets_for_outcome
index_sets_lem yes_side payouts sets h = ground arith
index_sets_lem no_side payouts sets h = ground arith

unwrap-ok : {A : Type 0} (o : Option A) (a : A) → unwrap o ≡ ok a → o ≡ some a
unwrap-ok none a e = absurd (cc e)
unwrap-ok (some x) a e = cc e

module _ {World : Type 0} (p : Platform World) (c : Clients World) where
  -- What a swap was quoted for and is in progress on: the order's mint, the slippage of the
  -- configuration, and an amount.
  pub record SwapAsked (cfg : RouterConfig) (order : OrderIntent) (amount : ℕ) : Type 0 where
    pub usdc_mint : Pubkey
    pub asked_at : World
    pub heard_at : World
    pub built_at : World
    pub done_at : World
    pub quote : QuoteResponse
    pub payer : Keypair
    pub tx_b64 : Text
    pub sig : Signature
    pub mint : p.pubkey_from_str usdc_solana_mint ≡ some usdc_mint
    pub quoted :
        c.get_quote
          (p.pubkey_to_string order.input_mint)
          (p.pubkey_to_string usdc_mint)
          amount
          cfg.jupiter_slippage_bps
          asked_at
        ≡ (ok quote, heard_at)
    pub built :
        c.get_swap_transaction quote (p.pubkey_of payer) none heard_at ≡ (ok tx_b64, built_at)
    pub sent : c.execute_swap tx_b64 payer built_at ≡ (ok sig, done_at)

  step_pending-SwapAsked :
      (cfg : RouterConfig) (order : OrderIntent) (v w : World) (s : OrderStatus)
      → step_pending p c cfg order v ≡ (ok s, w)
      → SwapAsked cfg order (order.input_amount - protocol_fee order.input_amount order.fee_bps)
  unfolding step_pending
  step_pending-SwapAsked cfg order v w s e =
      let (payer, v1, e1, k1) = and_then-ok (load_keypair p c cfg v) _ s w e in
      let (mint, e2, k2) = lift-ok (unwrap (p.pubkey_from_str usdc_solana_mint)) _ s v1 w k1 in
      let amount = order.input_amount - protocol_fee order.input_amount order.fee_bps in
      let asked =
        c.get_quote (p.pubkey_to_string order.input_mint) (p.pubkey_to_string mint) amount
          cfg.jupiter_slippage_bps v1 in
      let (quote, v2, e3, k3) = and_then-ok asked _ s w k2 in
      let made = c.get_swap_transaction quote (p.pubkey_of payer) none v2 in
      let (tx_b64, v3, e4, k4) = and_then-ok made _ s w k3 in
      let (sig, v4, e5, k5) = and_then-ok (c.execute_swap tx_b64 payer v3) _ s w k4 in
      record {
        usdc_mint = mint;
        asked_at = v1;
        heard_at = v2;
        built_at = v3;
        done_at = v4;
        quote = quote;
        payer = payer;
        tx_b64 = tx_b64;
        sig = sig;
        mint = unwrap-ok (p.pubkey_from_str usdc_solana_mint) mint e2;
        quoted = e3;
        built = e4;
        sent = e5;
      }

  -- A first step that succeeds, for an order of a u64 amount with a fee of at most 10,000 basis
  -- points, has asked for a quote, built the transaction of that quote and sent it, for an amount
  -- that together with the fee, the input's share in basis points rounded down, makes up the input
  -- exactly.
  pub step_pending_fee :
      (cfg : RouterConfig) (order : OrderIntent) (v w : World) (s : OrderStatus)
      → IsU64 order.input_amount
      → order.fee_bps ≤ 10_000
      → step_pending p c cfg order v ≡ (ok s, w)
      → (amount : ℕ) × SwapAsked cfg order amount
        × (amount + order.input_amount * order.fee_bps / 10_000 ≡ order.input_amount)
  step_pending_fee cfg order v w s h k e =
      let fee = protocol_fee_exact order.input_amount order.fee_bps h k in
      let small = fee_exact_lem order.input_amount order.fee_bps h k in
      (
        order.input_amount - protocol_fee order.input_amount order.fee_bps,
        step_pending-SwapAsked cfg order v w s e,
        omega (arith, fee, small),
      )

  -- However much USDC the wallet holds, an order that leaves the swap stage takes at most
  -- `max_order_usdc_micro` on with it.
  pub swap_complete_capped :
      (cfg : RouterConfig) (order : OrderIntent) (w : World) (n : ℕ)
      → order.status ≢ solana_swap_complete n
      → (step_solana_swap_in_progress p c cfg order w).0 ≡ ok (solana_swap_complete n)
      → n ≤ cfg.max_order_usdc_micro
  unfolding step_solana_swap_in_progress
  swap_complete_capped cfg order w n h e = ground arith
