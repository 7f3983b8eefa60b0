-- ===== src/Types.antt =====
-- src/types.rs: the data model of an order. A `Uuid` is its 128-bit value, a `Pubkey` its bytes, a
-- `DateTime<Utc>` its nanoseconds since the epoch, and an `f64` its bit pattern (the router stores
-- and prints floats, and computes with none).
use pump_poly_router.Base.{ℕ, ◌/◌, Bool, true, false, Option, none, List, ltb}
use pump_poly_router.Text.{Text}

abbrev pub Uuid : Type 0
Uuid = ℕ

abbrev pub Pubkey : Type 0
Pubkey = List ℕ

abbrev pub Float : Type 0
Float = ℕ

abbrev pub DateTime : Type 0
DateTime = ℕ

pub data Outcome : Type 0 where
  yes_side no_side : Outcome

pub record OrderProofs : Type 0 where
  pub solana_swap_tx : Option Text
  pub cctp_deposit_tx : Option Text
  pub cctp_message_hash : Option Text
  pub cctp_receive_tx : Option Text
  pub poly_order_id : Option Text
  pub poly_fill_tx : Option Text
  pub redeem_tx : Option Text
  pub return_cctp_deposit_tx : Option Text
  pub return_cctp_message_hash : Option Text
  pub return_cctp_receive_tx : Option Text
  pub return_swap_tx : Option Text
  pub payout_tx : Option Text

pub data OrderStatus : Type 0 where
  pending : OrderStatus
  solana_swap_in_progress : (tx : Text) → OrderStatus
  solana_swap_complete : (usdc_amount : ℕ) → OrderStatus
  bridge_pending : (cctp_nonce : ℕ) (message_hash message_bytes : Text) → OrderStatus
  bridge_relaying : (attestation polygon_tx : Text) → OrderStatus
  bridge_complete : (polygon_usdc : ℕ) → OrderStatus
  polymarket_order_posted : (order_id : Text) → OrderStatus
  polymarket_filled : (shares avg_price : Float) → OrderStatus
  awaiting_resolution : OrderStatus
  redeeming : (redeem_tx : Text) → OrderStatus
  settlement_bridging : (cctp_nonce : ℕ) (message_hash message_bytes : Text) → OrderStatus
  settlement_swapping : OrderStatus
  complete : (sol_paid : ℕ) (payout_tx : Text) → OrderStatus
  failed : (reason stage : Text) → OrderStatus
  cancelled : OrderStatus

abbrev pub is_terminal : OrderStatus → Bool
is_terminal (complete sol_paid payout_tx) = true
is_terminal (failed reason stage) = true
is_terminal cancelled = true
is_terminal _ = false

pub record OrderIntent : Type 0 where
  pub id : Uuid
  pub user_pubkey : Pubkey
  pub input_mint : Pubkey
  pub input_amount : ℕ
  pub market_id : Text
  pub outcome_token_id : Text
  pub outcome : Outcome
  pub min_position_shares : Float
  pub deadline_unix : ℕ
  pub fee_bps : ℕ
  pub status : OrderStatus
  pub proofs : OrderProofs
  pub created_at : DateTime
  pub updated_at : DateTime

-- `OrderProofs::default()`
abbrev no_proofs : OrderProofs
no_proofs = record {
  solana_swap_tx = none;
  cctp_deposit_tx = none;
  cctp_message_hash = none;
  cctp_receive_tx = none;
  poly_order_id = none;
  poly_fill_tx = none;
  redeem_tx = none;
  return_cctp_deposit_tx = none;
  return_cctp_message_hash = none;
  return_cctp_receive_tx = none;
  return_swap_tx = none;
  payout_tx = none;
}

-- `OrderIntent::new`: the fresh id and the time are what `Uuid::new_v4()` and `Utc::now()` return.
abbrev pub new_order :
    Uuid → DateTime → Pubkey → Pubkey → ℕ → Text → Text → Outcome → Float → ℕ → ℕ → OrderIntent
new_order fresh now user_pubkey input_mint input_amount market_id outcome_token_id outcome
      min_position_shares deadline_unix fee_bps =
    record {
      id = fresh;
      user_pubkey = user_pubkey;
      input_mint = input_mint;
      input_amount = input_amount;
      market_id = market_id;
      outcome_token_id = outcome_token_id;
      outcome = outcome;
      min_position_shares = min_position_shares;
      deadline_unix = deadline_unix;
      fee_bps = fee_bps;
      status = pending;
      proofs = no_proofs;
      created_at = now;
      updated_at = now;
    }

-- `set_status` at the time `now`.
abbrev pub set_status : OrderStatus → DateTime → OrderIntent → OrderIntent
set_status s now o = record o { status = s; updated_at = now }

-- `is_expired` at the time `now`.
abbrev pub is_expired : DateTime → OrderIntent → Bool
is_expired now o = ltb o.deadline_unix (now / 1_000_000_000)
