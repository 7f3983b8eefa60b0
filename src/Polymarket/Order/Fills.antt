-- ===== src/Polymarket/Order/Fills.antt =====
-- When `wait_for_fill` of src/polymarket/order.rs returns, and what its result says of the order.
use pump_poly_router.Base.{
  ℕ, suc, ◌+◌, ◌*◌, ◌≤◌, ◌<◌, false, ltb, Option-cases, ◌≡◌, ◌≢◌, ◌⊎◌, inl, inr, refl, subst, sym,
  ap, ◌∙◌, arith, true, none, some, Bool-cases,
}
use pump_poly_router.Text.{Text}
use pump_poly_router.Error.{poly_order_post, poly_fill_timeout, Result, ok, err, panic}
use pump_poly_router.Effect.{call-cases}
use pump_poly_router.External.{fine, Reply-cases}
use pump_poly_router.Polling.{
  IsTimed, rounds_end, Ended, rounds-Ended, answered, refused, crashed, gave_up,
}
use pump_poly_router.Polymarket.Order.{OrderResult}
use pump_poly_router.Polymarket.Order.Client.{
  PolymarketOrderClient, OrderState, Clob, is_filled, or_zero, connect, fill_result, fill_round,
  polled, wait_for_fill,
}

module _ {World Signer Draft Session Decimal Amount Order Signed : Type 0}
    (clob : Clob World Signer Draft Session Decimal Amount Order Signed)
    (client : PolymarketOrderClient) where
  -- The clock does not run backwards while an order is fetched, and a sleep lasts.
  pub record IsClock : Type 0 where
    pub fetch_forward :
        (session : Session) (order_id : Text) (w : World)
        → clob.instant w ≤ clob.instant (clob.fetch_order session order_id w).1
    pub sleeps :
        (secs : ℕ) (w : World)
        → clob.instant w + secs * 1_000_000_000 ≤ clob.instant (clob.sleep_secs secs w)

  fill_round-IsTimed :
      IsClock
      → (session : Session) (order_id : Text) (deadline : ℕ)
      → IsTimed
          (fill_round clob client session order_id deadline)
          clob.instant
          deadline
          (2 * 1_000_000_000)
  fill_round-IsTimed clock session order_id deadline = record {
    forward = λ w. grind (arith, clock.fetch_forward session order_id w);
    pauses = λ w. clock.sleeps 2 w;
    late = λ w h. ground arith;
  }

  -- What a result of `wait_for_fill` in the world `w` rests on.
  pub data FillOutcome (order_id : Text) (w : World) : Result OrderResult → Type 0 where
    filled :
        (session : Session) (asked_at : World) (s : OrderState)
        → clob.fetch_order session order_id asked_at ≡ (fine s, w)
        → is_filled s ≡ true
        → FillOutcome order_id w (
            ok (record {
              order_id = order_id;
              shares_filled = or_zero (clob.parse_f64 s.size_matched);
              avg_price = or_zero (clob.parse_f64 s.price);
            }))
    cancelled :
        (session : Session) (late_at : World)
        → w ≡ (clob.cancel_order session order_id late_at).1
        → FillOutcome order_id w (err (poly_fill_timeout client.fill_timeout_secs order_id))
    failed : (m : Text) → FillOutcome order_id w (err (poly_order_post m))
    overflowed :
        clob.last_instant < clob.instant w + client.fill_timeout_secs * 1_000_000_000
        → FillOutcome order_id w panic

  judged :
      (session : Session) (order_id : Text) (v w : World) (s : OrderState) (r : Result OrderResult)
      → clob.fetch_order session order_id v ≡ (fine s, w)
      → fill_result clob client order_id s ≡ some r
      → FillOutcome order_id w r
  unfolding fill_result
  judged session order_id v w s r e j = elim (Bool-cases (is_filled s)) [
    | inr unfilled ↦ absurd (cc (rw unfilled at j))
    | inl full ↦
        let given = rw full at j in
        subst (FillOutcome order_id w) (cc given) (filled session v s e full)
  ]

  ended :
      (session : Session) (order_id : Text) (deadline : ℕ) (w : World) (r : Result OrderResult)
      → Ended (fill_round clob client session order_id deadline) r w
      → FillOutcome order_id w r
  ended session order_id deadline w r (answered v s e j) =
      elim (call-cases (clob.fetch_order session order_id) poly_order_post v) [
        | inl (s', u, got, shown) ↦
            let seen = sym shown ∙ e in
            let same : s' ≡ s = cc seen in
            let there : u ≡ w = cc seen in
            judged session order_id v w s r
              (got ∙ (ap (λ x. (fine x, u)) same ∙ ap (λ y. (fine s, y)) there)) j
        | inr (m, u, shown) ↦ absurd (cc (sym shown ∙ e))
      ]
  ended session order_id deadline w r (refused v x e q) =
      elim (call-cases (clob.fetch_order session order_id) poly_order_post v) [
        | inl (s', u, got, shown) ↦ absurd (cc (sym shown ∙ e))
        | inr (m, u, shown) ↦
            let seen = sym shown ∙ e in
            let same : poly_order_post m ≡ x = cc seen in
            subst (FillOutcome order_id w) (ap err same ∙ sym q) (failed m)
      ]
  ended session order_id deadline w r (crashed v e q) =
      elim (call-cases (clob.fetch_order session order_id) poly_order_post v) [
        | inl (s', u, got, shown) ↦ absurd (cc (sym shown ∙ e))
        | inr (m, u, shown) ↦ absurd (cc (sym shown ∙ e))
      ]
  ended session order_id deadline w r (gave_up v late e) =
      subst (FillOutcome order_id w) (ap (λ out. out.0) e)
        (cancelled session v (sym (ap (λ out. out.1) e)))

  -- Connecting succeeds or fails with an error of its own; it does not panic.
  connect-cases :
      (w : World)
      → ((a : Signer × Session) × (u : World) × (connect clob client w ≡ (ok a, u)))
        ⊎ ((m : Text) × (u : World) × (connect clob client w ≡ (err (poly_order_post m), u)))
  unfolding connect
  connect-cases w = elim (Reply-cases (clob.signer_from_str client.private_key_hex)) [
    | inr (m, bad) ↦ inr (m, w, rw bad refl)
    | inl (signer, good) ↦ elim (Reply-cases (clob.new_client client.clob_url)) [
      | inr (m, bad) ↦ inr (m, w, rw (good, bad) refl)
      | inl (draft, made) ↦ elim (call-cases (clob.authenticate draft signer) poly_order_post w) [
        | inr (m, u, shown) ↦ inr (m, u, rw (good, made, shown) refl)
        | inl (session, u, got, shown) ↦ inl ((signer, session), u, rw (good, made, shown) refl)
      ]
    ]
  ]

  polled-FillOutcome :
      (fuel : ℕ) (order_id : Text) (session : Session) (signer : Signer) (v w : World)
      (r : Result OrderResult)
      → polled clob client fuel order_id (ok (signer, session), v) ≡ some (r, w)
      → FillOutcome order_id w r
  unfolding polled
  polled-FillOutcome fuel order_id session signer v w r e =
      let deadline = clob.instant v + client.fill_timeout_secs * 1_000_000_000 in
      elim (Bool-cases (ltb clob.last_instant deadline)) [
        | inl behind ↦
            let late : clob.last_instant < deadline = ground (arith, behind) in
            let given : some (panic, v) ≡ some (r, w) = rw behind at e in
            let result : panic ≡ r = cc given in
            let there : v ≡ w = cc given in
            subst (FillOutcome order_id w) result (
              overflowed (
                subst
                  (λ u.
                    clob.last_instant < clob.instant u + client.fill_timeout_secs * 1_000_000_000)
                  there late))
        | inr fits ↦ ended session order_id deadline w r (
            rounds-Ended (fill_round clob client session order_id deadline) fuel v w r
              (rw fits at e))
      ]

  -- Whenever `wait_for_fill` returns, it has seen the order filled and returns what that answer
  -- says, or it has given up, cancelled the order as the last thing that it did, and returns the
  -- timeout, or it returns an error of the exchange. It panics only where the deadline is behind
  -- the last instant that an `Instant` holds.
  pub wait_for_fill-FillOutcome :
      (fuel : ℕ) (order_id : Text) (v w : World) (r : Result OrderResult)
      → wait_for_fill clob client fuel order_id v ≡ some (r, w)
      → FillOutcome order_id w r
  unfolding wait_for_fill polled
  wait_for_fill-FillOutcome fuel order_id v w r e = elim (connect-cases v) [
    | inl ((signer, session), u, shown) ↦
        polled-FillOutcome fuel order_id session signer u w r (rw shown at e)
    | inr (m, u, shown) ↦
        let given : some (err (poly_order_post m), u) ≡ some (r, w) = rw (shown, polled) at e in
        subst (FillOutcome order_id w) (cc given) (failed m)
  ]

  polled_ends :
      (n : ℕ) (order_id : Text) (out : Result (Signer × Session) × World)
      → IsClock
      → client.fill_timeout_secs ≤ 2 * n
      → polled clob client (suc n) order_id out ≢ none
  unfolding polled
  polled_ends n order_id (ok (signer, session), v) clock enough =
      let deadline = clob.instant v + client.fill_timeout_secs * 1_000_000_000 in
      let ends =
        rounds_end (fill_round clob client session order_id deadline) clob.instant deadline
          (2 * 1_000_000_000) (fill_round-IsTimed clock session order_id deadline) n v
          (omega (arith, enough)) in
      elim (Bool-cases (ltb clob.last_instant deadline)) [
        | inl behind ↦ rw behind (λ q. cc q)
        | inr fits ↦ rw fits ends
      ]
  polled_ends n order_id (err e, v) clock enough = (λ q. cc q)
  polled_ends n order_id (panic, v) clock enough = (λ q. cc q)

  -- The fuel is enough, whether or not the deadline can be computed.
  pub wait_for_fill_ends :
      (n : ℕ) (order_id : Text) (w : World)
      → IsClock
      → client.fill_timeout_secs ≤ 2 * n
      → wait_for_fill clob client (suc n) order_id w ≢ none
  unfolding wait_for_fill
  wait_for_fill_ends n order_id w clock enough =
      polled_ends n order_id (connect clob client w) clock enough

  fill_result_calm :
      (order_id : Text) (s : OrderState) (r : Result OrderResult)
      → fill_result clob client order_id s ≡ some r
      → r ≢ panic
  unfolding fill_result
  fill_result_calm order_id s r e q = ground (arith, e, q)

  Ended-calm :
      (session : Session) (order_id : Text) (deadline : ℕ) (w : World) (r : Result OrderResult)
      → Ended (fill_round clob client session order_id deadline) r w
      → r ≢ panic
  Ended-calm session order_id deadline w r (answered v s e j) = fill_result_calm order_id s r j
  Ended-calm session order_id deadline w r (refused v x e q) = λ z. cc (q, z)
  Ended-calm session order_id deadline w r (crashed v e q) =
      elim (call-cases (clob.fetch_order session order_id) poly_order_post v) [
        | inl (s, u, got, shown) ↦ absurd (cc (sym shown ∙ e))
        | inr (m, u, shown) ↦ absurd (cc (sym shown ∙ e))
      ]
  Ended-calm session order_id deadline w r (gave_up v late e) = λ z. cc (ap (λ out. out.0) e, z)

  polled_calm :
      (fuel : ℕ) (order_id : Text) (out : Result (Signer × Session) × World) (w : World)
      (r : Result OrderResult)
      → out.0 ≢ panic
      → clob.instant out.1 + client.fill_timeout_secs * 1_000_000_000 ≤ clob.last_instant
      → polled clob client fuel order_id out ≡ some (r, w)
      → r ≢ panic
  unfolding polled
  polled_calm fuel order_id (ok (signer, session), v) w r calm in_range e =
      let deadline = clob.instant v + client.fill_timeout_secs * 1_000_000_000 in
      let fits : ltb clob.last_instant deadline ≡ false = ground (arith, in_range) in
      Ended-calm session order_id deadline w r
        (rounds-Ended (fill_round clob client session order_id deadline) fuel v w r (rw fits at e))
  polled_calm fuel order_id (err x, v) w r calm in_range e = λ z. cc (e, z)
  polled_calm fuel order_id (panic, v) w r calm in_range e = absurd (calm refl)

  connect_calm : (w : World) → (connect clob client w).0 ≢ panic
  unfolding connect
  connect_calm w e = ground arith

  pub wait_for_fill_calm :
      (fuel : ℕ) (order_id : Text) (v w : World) (r : Result OrderResult)
      → clob.instant (connect clob client v).1 + client.fill_timeout_secs * 1_000_000_000
        ≤ clob.last_instant
      → wait_for_fill clob client fuel order_id v ≡ some (r, w)
      → r ≢ panic
  unfolding wait_for_fill
  wait_for_fill_calm fuel order_id v w r in_range e =
      polled_calm fuel order_id (connect clob client v) w r (connect_calm v) in_range e

  -- With a clock that does not run backwards and sleeps that last, `wait_for_fill` returns a
  -- result or an error, without a panic, within n + 1 rounds as soon as 2 * n seconds make up its
  -- timeout, where the deadline, counted from when it has connected, is not behind the last
  -- instant that an `Instant` holds.
  pub wait_for_fill_returns :
      (n : ℕ) (order_id : Text) (w : World)
      → IsClock
      → client.fill_timeout_secs ≤ 2 * n
      → clob.instant (connect clob client w).1 + client.fill_timeout_secs * 1_000_000_000
        ≤ clob.last_instant
      → (r : Result OrderResult) × (w' : World) × (wait_for_fill clob client (suc n) order_id w
          ≡ some (r, w'))
        × (r ≢ panic)
  wait_for_fill_returns n order_id w clock enough in_range =
      elim (Option-cases (wait_for_fill clob client (suc n) order_id w)) [
        | inl stuck ↦ absurd (wait_for_fill_ends n order_id w clock enough stuck)
        | inr ((r, w'), found) ↦
            (r, w', found, wait_for_fill_calm (suc n) order_id w w' r in_range found)
      ]
