-- ===== src/Executor/Steps.antt =====
-- The stage implementations of `TradeRouter`. A step that leaves the router's own fields alone is an
-- action on the world; `step_bridge_complete` also returns the router, whose daily volume it raises.
use pump_poly_router.Base.{
  ℕ, ◌+◌, ◌-◌, ◌*◌, ◌/◌, ◌%◌, ◌^◌, min, List, [], ◌∷◌, ◌++◌, Bool, true, false, not, ◌&&◌, Option,
  none, some, ltb, ◌==◌, if◌then◌else◌, length, get_elem?,
}
use pump_poly_router.Text.{Text, text, text_eq, trim_0x, decimal}
use pump_poly_router.Error.{
  RouterError, config, cctp_receive, ctf_redeem, solana_rpc, Result, ok, err, panic,
}
use pump_poly_router.Words.{u64, unwrap_or}
use pump_poly_router.External.{fine, fault}
use pump_poly_router.Effect.{Action, call, lift, pure, of_reply, ◌>>=◌}
use pump_poly_router.Types.{
  Pubkey, Outcome, yes_side, no_side, OrderStatus, OrderIntent, solana_swap_in_progress,
  solana_swap_complete, bridge_pending, bridge_relaying, bridge_complete, polymarket_order_posted,
  polymarket_filled, awaiting_resolution, redeeming, settlement_bridging, settlement_swapping,
  complete,
}
use pump_poly_router.Config.{RouterConfig, usdc_solana_mint}
use pump_poly_router.Platform.{Platform, Keypair, Signature}
use pump_poly_router.Evm.Cctp.{cctp_message_hash, extract_nonce_from_cctp_message}
use pump_poly_router.Evm.Signer.{address_from_key}
use pump_poly_router.Bridge.Attestation.{is_complete}
use pump_poly_router.Polymarket.Resolver.{ResolutionOutcome}
use pump_poly_router.Executor.State.{TradeRouter, Clients}

-- `.unwrap()` and `.expect(..)`
abbrev pub unwrap {ℓ} : {A : Type ℓ} → Option A → Result A
unwrap none = panic
unwrap (some a) = ok a

-- `index_sets_for_outcome`
unfoldable pub index_sets_for_outcome : Outcome → List ℕ → Result (List ℕ)
index_sets_for_outcome yes_side payouts =
    if unwrap_or (get_elem? payouts 0) 0 == 0
    then err (ctf_redeem (text "YES outcome did not win — cannot redeem"))
    else ok (1 ∷ [])
index_sets_for_outcome no_side payouts =
    if unwrap_or (get_elem? payouts 1) 0 == 0
    then err (ctf_redeem (text "NO outcome did not win — cannot redeem"))
    else ok (2 ∷ [])

-- The protocol fee of `step_pending`: a u128 product, cut to a u64.
unfoldable pub protocol_fee : ℕ → ℕ → ℕ
protocol_fee input_amount fee_bps = u64 (input_amount * fee_bps % 2 ^ 128 / 10_000)

-- `whitelist.contains(&market_id)`
unfoldable pub is_listed : Text → List Text → Bool
is_listed market [] = false
is_listed market (m ∷ ms) = if text_eq m market then true else is_listed market ms

abbrev pub sol_mint : Text
sol_mint = text "So11111111111111111111111111111111111111112"

-- The whitelist and the daily cap.
unfoldable pub market_refused : RouterConfig → Text → Bool
market_refused cfg market_id = elim cfg.allowed_market_ids [
  | none ↦ false
  | some whitelist ↦ not (is_listed market_id whitelist)
]

unfoldable pub over_cap : TradeRouter → ℕ → Bool
over_cap r polygon_usdc =
    ltb 0 r.config.daily_volume_cap_usdc_micro
    && ltb r.config.daily_volume_cap_usdc_micro (u64 (r.daily_volume_usdc + polygon_usdc))

abbrev pub market_error : Text → RouterError
market_error market_id =
    config (text "market " ++ (market_id ++ text " is not in the allowed_market_ids whitelist"))

abbrev pub cap_error : ℕ → RouterError
cap_error cap = config (
    text "daily volume cap reached ("
    ++ (decimal cap ++ text " µUSDC limit). Order paused until next window."))

-- What follows `post_order`: the volume is raised only when the order was posted.
unfoldable pub record_posted :
    {World : Type 0}
    → TradeRouter
    → ℕ
    → Result Text × World
    → Result OrderStatus × TradeRouter × World
record_posted r polygon_usdc (ok order_id, w) = (
  ok (polymarket_order_posted order_id),
  record r { daily_volume_usdc = u64 (r.daily_volume_usdc + polygon_usdc) },
  w,
)
record_posted r polygon_usdc (err e, w) = (err e, r, w)
record_posted r polygon_usdc (panic, w) = (panic, r, w)

module _ {World : Type 0} (p : Platform World) (c : Clients World) where
  unfoldable pub load_keypair : RouterConfig → Action World Keypair
  load_keypair cfg =
      call (p.read_keypair cfg.solana_keypair_path)
        (λ e. config (text "failed to read keypair: " ++ e))

  unfoldable pub executor_evm_address : RouterConfig → Text
  executor_evm_address cfg =
      elim (address_from_key p.hex p.crypto cfg.polygon_executor_private_key) [
        | ok addr ↦ text "0x" ++ addr
        | _ ↦ text "0x0000000000000000000000000000000000000000"
      ]

  unfoldable pub transfer_sol : RouterConfig → Pubkey → ℕ → Action World Signature
  unfolding load_keypair
  transfer_sol cfg recipient lamports = do
    payer ← load_keypair cfg
    let ix = p.transfer (p.pubkey_of payer) recipient lamports
    recent_blockhash ← call p.latest_blockhash solana_rpc
    call (p.send_and_confirm (p.signed_transaction (ix ∷ []) payer recent_blockhash)) solana_rpc

  unfoldable pub step_pending : RouterConfig → OrderIntent → Action World OrderStatus
  unfolding load_keypair
  step_pending cfg order = do
    payer ← load_keypair cfg
    usdc_mint ← lift (unwrap (p.pubkey_from_str usdc_solana_mint))
    let fee = protocol_fee order.input_amount order.fee_bps
    let amount_after_fee = order.input_amount - fee
    quote ←
        c.get_quote (p.pubkey_to_string order.input_mint) (p.pubkey_to_string usdc_mint)
          amount_after_fee cfg.jupiter_slippage_bps
    tx_b64 ← c.get_swap_transaction quote (p.pubkey_of payer) none
    sig ← c.execute_swap tx_b64 payer
    pure (solana_swap_in_progress (p.signature_to_string sig))

  unfoldable pub step_solana_swap_in_progress :
      RouterConfig → OrderIntent → Action World OrderStatus
  unfolding load_keypair
  step_solana_swap_in_progress cfg order = do
    payer ← load_keypair cfg
    usdc_mint ← lift (unwrap (p.pubkey_from_str usdc_solana_mint))
    usdc_balance ← c.token_balance (p.pubkey_of payer) usdc_mint
    pure (
        if usdc_balance == 0
        then order.status
        else solana_swap_complete (min usdc_balance cfg.max_order_usdc_micro))

  -- The attestation hash and the nonce of a burn: from the message, or from the signature where no
  -- message could be decoded.
  unfoldable pub burn_reference : Signature → Text → Text × ℕ
  burn_reference sig message_bytes_hex =
      let fallback : Text × ℕ = (text "0x" ++ p.hex.hex_encode sig, 0) in
      if ltb 2 (length message_bytes_hex)
      then (elim (p.hex.hex_decode (trim_0x message_bytes_hex)) [
        | fine bytes ↦
            (cctp_message_hash p.hex p.crypto bytes, extract_nonce_from_cctp_message bytes)
        | fault e ↦ fallback
      ])
      else fallback

  unfoldable pub step_solana_swap_complete : RouterConfig → ℕ → Action World OrderStatus
  unfolding load_keypair
  step_solana_swap_complete cfg usdc_amount = do
    payer ← load_keypair cfg
    usdc_mint ← lift (unwrap (p.pubkey_from_str usdc_solana_mint))
    (sig, message_bytes_hex) ←
        c.deposit_for_burn payer usdc_mint usdc_amount (executor_evm_address cfg)
    let (message_hash, cctp_nonce) = burn_reference sig message_bytes_hex
    pure (bridge_pending cctp_nonce message_hash message_bytes_hex)

  unfoldable pub step_bridge_pending : ℕ → Text → Text → Action World OrderStatus
  step_bridge_pending cctp_nonce message_hash message_bytes = do
    att ← c.get_attestation message_hash
    if is_complete att
        then (do
          attestation_bytes ← lift (unwrap att.attestation)
          polygon_tx ← c.polygon_receive_message message_bytes attestation_bytes
          pure (bridge_relaying attestation_bytes polygon_tx))
        else pure (bridge_pending cctp_nonce message_hash message_bytes)

  unfoldable pub step_bridge_relaying : RouterConfig → Text → Text → Action World OrderStatus
  step_bridge_relaying cfg attestation polygon_tx = do
    balance ← c.usdc_balance cfg.usdc_polygon_address (executor_evm_address cfg)
    pure (if balance == 0 then bridge_relaying attestation polygon_tx else bridge_complete balance)

  unfoldable pub step_bridge_complete :
      OrderIntent → ℕ → TradeRouter → World → Result OrderStatus × TradeRouter × World
  unfolding record_posted
  step_bridge_complete order polygon_usdc r w =
      if market_refused r.config order.market_id
      then (err (market_error order.market_id), r, w)
      else if over_cap r polygon_usdc
      then (err (cap_error r.config.daily_volume_cap_usdc_micro), r, w)
      else record_posted r polygon_usdc
          (c.post_order order.outcome_token_id polygon_usdc order.outcome w)

  unfoldable pub step_poly_order_posted : Text → Action World OrderStatus
  step_poly_order_posted order_id = do
    result ← c.wait_for_fill order_id
    pure (polymarket_filled result.shares_filled result.avg_price)

  unfoldable pub redeem :
      RouterConfig → OrderIntent → Option ResolutionOutcome → Action World OrderStatus
  redeem cfg order none = pure awaiting_resolution
  redeem cfg order (some res) = do
    index_sets ← lift (index_sets_for_outcome order.outcome res.payout_numerators)
    redeem_tx ← c.redeem_positions cfg.usdc_polygon_address order.market_id index_sets
    pure (redeeming redeem_tx)

  unfoldable pub step_awaiting_resolution : RouterConfig → OrderIntent → Action World OrderStatus
  unfolding redeem
  step_awaiting_resolution cfg order = do
    outcome ← c.is_resolved order.market_id
    redeem cfg order outcome

  -- As `burn_reference`, for the return leg.
  unfoldable pub return_reference : Text → Text → Text × ℕ
  return_reference deposit_tx message_bytes_hex =
      elim (p.hex.hex_decode (trim_0x message_bytes_hex)) [
        | fine bytes ↦
            (cctp_message_hash p.hex p.crypto bytes, extract_nonce_from_cctp_message bytes)
        | fault e ↦ (text "0x" ++ trim_0x deposit_tx, 0)
      ]

  unfoldable pub step_redeeming : RouterConfig → Text → Action World OrderStatus
  unfolding load_keypair
  step_redeeming cfg redeem_tx = do
    balance ← c.usdc_balance cfg.usdc_polygon_address (executor_evm_address cfg)
    if balance == 0 then pure (redeeming redeem_tx) else (do
      payer ← load_keypair cfg
      usdc_mint ← lift (unwrap (p.pubkey_from_str usdc_solana_mint))
      let executor_ata = p.associated_token_address (p.pubkey_of payer) usdc_mint
      (deposit_tx, message_bytes_hex) ←
          c.deposit_for_burn_return_leg cfg.usdc_polygon_address balance executor_ata
            cfg.usdc_polygon_address
      let (message_hash, cctp_nonce) = return_reference deposit_tx message_bytes_hex
      pure (settlement_bridging cctp_nonce message_hash message_bytes_hex))

  unfoldable pub step_settlement_bridging :
      RouterConfig → ℕ → Text → Text → Action World OrderStatus
  unfolding load_keypair
  step_settlement_bridging cfg cctp_nonce message_hash message_bytes = do
    att ← c.get_attestation message_hash
    if is_complete att
        then (do
          attestation_hex ← lift (unwrap att.attestation)
          msg_bytes ← lift (
              of_reply (p.hex.hex_decode (trim_0x message_bytes))
                (λ e. cctp_receive (text "message_bytes hex decode: " ++ e)))
          att_bytes ← lift (
              of_reply (p.hex.hex_decode (trim_0x attestation_hex))
                (λ e. cctp_receive (text "attestation hex decode: " ++ e)))
          payer ← load_keypair cfg
          sig ← c.solana_receive_message payer msg_bytes att_bytes
          pure settlement_swapping)
        else pure (settlement_bridging cctp_nonce message_hash message_bytes)

  unfoldable pub step_settlement_swapping : RouterConfig → OrderIntent → Action World OrderStatus
  unfolding load_keypair
  step_settlement_swapping cfg order = do
    payer ← load_keypair cfg
    usdc_mint ← lift (unwrap (p.pubkey_from_str usdc_solana_mint))
    usdc_balance ← c.token_balance (p.pubkey_of payer) usdc_mint
    (sig, sol_received) ←
        c.swap usdc_solana_mint sol_mint usdc_balance cfg.jupiter_slippage_bps payer
    payout_sig ← transfer_sol cfg order.user_pubkey sol_received
    pure (complete sol_received (p.signature_to_string payout_sig))
