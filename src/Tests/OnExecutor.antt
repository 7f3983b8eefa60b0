-- ===== src/Tests/OnExecutor.antt =====
-- The theorems on the executor, applied to a router with one order.
use pump_poly_router.Base.{
  ℕ, ◌+◌, ◌*◌, ◌/◌, ◌≤◌, ◌<◌, ◌≡◌, ◌⊎◌, refl, arith, true, false, List, [], ◌∷◌, none, some,
  get_elem?, replicate,
}
use pump_poly_router.Text.{text, text_eq}
use pump_poly_router.Error.{Result, ok, panic, display}
use pump_poly_router.Words.{unwrap_or}
use pump_poly_router.Types.{
  yes_side, no_side, OrderStatus, OrderIntent, pending, solana_swap_in_progress,
  solana_swap_complete, bridge_pending, bridge_complete, polymarket_order_posted,
  settlement_swapping, failed, is_terminal,
}
use pump_poly_router.Store.{
  get, lookup, put, pending_ids, open_ids, values, update, flush, write_snapshot,
}
use pump_poly_router.Store.Laws.{IsStore}
use pump_poly_router.Bridge.Attestation.{AttestationResponse, is_complete}
use pump_poly_router.Executor.State.{TradeRouter}
use pump_poly_router.Executor.Steps.{
  over_cap, market_refused, cap_error, step_pending, index_sets_for_outcome,
  step_solana_swap_in_progress, step_bridge_complete, step_settlement_swapping, transfer_sol,
  load_keypair, record_posted,
}
use pump_poly_router.Executor.Drive.{
  breaker_open, dispatch, step, store_status, settle, settle_stored, after_step, advance_at,
  advance_order, advance, advance_all, run_once, run_loop, LoopRun, running, returned,
}
use pump_poly_router.Executor.Pipeline.{stage, Advances, step-Advances}
use pump_poly_router.Executor.Transition.{Transition}
use pump_poly_router.Executor.Transition.Refines.{advance-Transition}
use pump_poly_router.Executor.History.{History, run_once-History, run_once_forward}
use pump_poly_router.Executor.Guards.{Allowed, advance-Allowed, advance-over_cap}
use pump_poly_router.Executor.Limits.{IsCapped, run_once-IsCapped}
use pump_poly_router.Executor.Loop.{waits, run_loop_halted, run_loop_returned}
use pump_poly_router.Executor.Panics.{advance_missing_attestation}
use pump_poly_router.Executor.Money.{
  SwapAsked, step_pending_fee, index_sets_lem, swap_complete_capped,
}
use pump_poly_router.Tests.Fixtures.{Machine, boot, desk, ready, unattested, settings, bet, holding}

holding-IsStore : (s : OrderStatus) (n : ℕ) → IsStore (holding s n).store
unfolding lookup
holding-IsStore s n = (refl, refl, tt)

holding-get : (s : OrderStatus) (n : ℕ) → get 1 (holding s n).store ≡ some (bet s)
unfolding get lookup
holding-get s n = refl

abbrev bridged : TradeRouter
bridged = holding (bridge_complete 700) 0

abbrev posted : Result OrderStatus
posted = ok (polymarket_order_posted (text "order-1"))

bridged-posted : (advance desk ready 1 bridged boot).0 ≡ posted
unfolding advance advance_order advance_at after_step settle_stored settle store_status update flush
    write_snapshot step dispatch step_bridge_complete breaker_open get market_refused over_cap
bridged-posted = refl

advance-Transition_example :
    let (res, r', w') = advance desk ready 1 bridged boot in Transition 1 0 bridged res r'
advance-Transition_example =
    advance-Transition desk ready 1 bridged boot (holding-IsStore (bridge_complete 700) 0)

run_once-History_example : History bridged (run_once desk ready bridged boot).1
run_once-History_example =
    run_once-History desk ready bridged boot (holding-IsStore (bridge_complete 700) 0)

step-posted : (step desk ready (bet (bridge_complete 700)) bridged boot).0 ≡ posted
unfolding step dispatch step_bridge_complete market_refused over_cap record_posted
step-posted = refl

step-Advances_example : Advances (bridge_complete 700) (polymarket_order_posted (text "order-1"))
step-Advances_example =
    step-Advances desk ready (bet (bridge_complete 700)) bridged boot
      (polymarket_order_posted (text "order-1")) step-posted

advance-Allowed_example :
    Allowed (bet (bridge_complete 700)) 700 bridged (advance desk ready 1 bridged boot).1
advance-Allowed_example =
    advance-Allowed desk ready 1 bridged boot (bet (bridge_complete 700)) 700 (text "order-1")
      (holding-IsStore (bridge_complete 700) 0) (holding-get (bridge_complete 700) 0) refl
      bridged-posted

bridged-IsCapped : IsCapped bridged
bridged-IsCapped = record { capped = λ pos. omega arith }

run_once-IsCapped_example : IsCapped (run_once desk ready bridged boot).1
run_once-IsCapped_example =
    run_once-IsCapped desk ready bridged boot (holding-IsStore (bridge_complete 700) 0)
      bridged-IsCapped

-- The same order where 900 µUSDC of the 1,000 are used.
abbrev nearly_full : TradeRouter
nearly_full = holding (bridge_complete 700) 900

nearly_full-over_cap : over_cap nearly_full 700 ≡ true
unfolding over_cap
nearly_full-over_cap = refl

closed_breaker : (s : OrderStatus) (n : ℕ) → breaker_open (holding s n) ≡ false
unfolding breaker_open
closed_breaker s n = refl

listed : market_refused settings (text "market") ≡ false
unfolding market_refused
listed = refl

advance-over_cap_example :
    (o' : OrderIntent) × (get 1 (advance desk ready 1 nearly_full boot).1.store ≡ some o')
    × (o'.status ≡ failed (display (cap_error 1_000)) (text "BridgeComplete"))
advance-over_cap_example =
    advance-over_cap desk ready 1 (bet (bridge_complete 700)) 700 nearly_full boot
      (holding-IsStore (bridge_complete 700) 900) (closed_breaker (bridge_complete 700) 900)
      (holding-get (bridge_complete 700) 900) refl refl listed nearly_full-over_cap

abbrev burnt : OrderStatus
burnt = bridge_pending 4 (text "0xab") (text "0xcd")

abbrev bare : AttestationResponse
bare = record { status = text "complete"; attestation = none }

bare-is_complete : is_complete bare ≡ true
unfolding is_complete text_eq text
bare-is_complete = refl

advance_missing_attestation_example :
    ((advance desk unattested 1 (holding burnt 0) boot).0 ≡ panic)
    × ((advance desk unattested 1 (holding burnt 0) boot).1 ≡ holding burnt 0)
advance_missing_attestation_example =
    advance_missing_attestation desk unattested 1 (bet burnt) 4 (text "0xab") (text "0xcd")
      (holding burnt 0) boot bare (closed_breaker burnt 0) (holding-get burnt 0) refl refl refl
      bare-is_complete refl

-- Three failures in a row have opened the breaker.
abbrev halted : TradeRouter
halted = record bridged { consecutive_failures = 3 }

halted-breaker_open : breaker_open halted ≡ true
unfolding breaker_open
halted-breaker_open = refl

bridged-pending_ids : pending_ids bridged.store ≡ 1 ∷ []
unfolding pending_ids open_ids values
bridged-pending_ids = refl

run_loop_halted_example :
    run_loop desk ready 4 5_000 halted boot ≡ running halted (waits desk ready 4 5_000 boot)
run_loop_halted_example =
    run_loop_halted desk ready 4 5_000 halted boot 1 [] halted-breaker_open bridged-pending_ids

-- An order on its last stage.
abbrev swapping : TradeRouter
swapping = holding settlement_swapping 0

abbrev last_run : LoopRun Machine
last_run = run_loop desk ready 2 5_000 swapping boot

abbrev paid : TradeRouter
paid = (advance desk ready 1 swapping boot).1

abbrev waited : Machine
waited = desk.sleep 5_000 boot

last_run_returned : last_run ≡ returned paid waited
unfolding run_loop advance_all advance advance_order advance_at after_step settle_stored settle
    store_status update flush write_snapshot step dispatch step_settlement_swapping transfer_sol
    load_keypair pending_ids open_ids values get lookup put breaker_open
last_run_returned = refl

run_loop_returned_example : (pending_ids paid.store ≡ []) × History swapping paid
run_loop_returned_example =
    run_loop_returned desk ready 2 5_000 swapping paid boot waited
      (holding-IsStore settlement_swapping 0) last_run_returned

run_once_forward_example :
    (o' : OrderIntent) × (get 1 (run_once desk ready bridged boot).1.store ≡ some o')
    × (is_terminal (bridge_complete 700) ≡ true → o'.status ≡ bridge_complete 700)
    × ((stage o'.status ≡ 0) ⊎ (6 ≤ stage o'.status))
run_once_forward_example =
    run_once_forward desk ready bridged boot 1 (bet (bridge_complete 700))
      (holding-IsStore (bridge_complete 700) 0) (holding-get (bridge_complete 700) 0)

abbrev swap_begun : OrderStatus
swap_begun = solana_swap_in_progress (replicate 64 1)

pending_swaps : step_pending desk ready settings (bet pending) boot ≡ (ok swap_begun, boot)
unfolding step_pending load_keypair
pending_swaps = refl

step_pending_fee_example :
    (amount : ℕ) × SwapAsked desk ready settings (bet pending) amount
    × (amount + 900 * 100 / 10_000 ≡ 900)
step_pending_fee_example =
    step_pending_fee desk ready settings (bet pending) boot boot swap_begun (omega arith)
      (omega arith) pending_swaps

abbrev no_set : List ℕ
no_set = 2 ∷ []

abbrev yes_set : List ℕ
yes_set = 1 ∷ []

abbrev payouts : List ℕ
payouts = 0 ∷ 1 ∷ []

no_wins : index_sets_for_outcome no_side payouts ≡ ok no_set
unfolding index_sets_for_outcome
no_wins = refl

index_sets_lem_example :
    ((no_side ≡ yes_side) × (no_set ≡ yes_set) × (0 < unwrap_or (get_elem? payouts 0) 0))
    ⊎ ((no_side ≡ no_side) × (no_set ≡ no_set) × (0 < unwrap_or (get_elem? payouts 1) 0))
index_sets_lem_example = index_sets_lem no_side payouts no_set no_wins

abbrev swapped : OrderStatus
swapped = solana_swap_in_progress (text "tx")

swap_runs :
    (step_solana_swap_in_progress desk ready settings (bet swapped) boot).0
    ≡ ok (solana_swap_complete 500)
unfolding step_solana_swap_in_progress
swap_runs = refl

swap_complete_capped_example : 500 ≤ settings.max_order_usdc_micro
swap_complete_capped_example =
    swap_complete_capped desk ready settings (bet swapped) boot 500 (λ e. cc e) swap_runs
