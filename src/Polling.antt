-- ===== src/Polling.antt =====
-- Loops that ask a service, judge its answer, give up after a deadline, and wait before they ask
-- again. They have no bound in the source and run on fuel, one unit a round; `none` says that the fuel
-- is used up.
use pump_poly_router.Base.{
  ℕ, zero, suc, ◌+◌, ◌*◌, ◌≤◌, ◌≡◌, ◌≢◌, ◌⊎◌, inl, inr, refl, ap, arith, Bool, true, Option, none,
  some, if◌then◌else◌, Bool-cases, Option-cases, ◌∙◌,
}
use pump_poly_router.Error.{RouterError, Result, ok, err, panic}
use pump_poly_router.Effect.{Action}

-- What one loop does in a round.
pub record Round (World A B : Type 0) : Type 0 where
  pub ask : Action World A
  -- The result that an answer ends the loop with, if it does.
  pub judge : A → Option (Result B)
  pub is_late : World → Bool
  pub give_up : World → Result B × World
  pub pause : World → World

module _ {World A B : Type 0} (round : Round World A B) where
  unfoldable pub after_answer :
      (World → Option (Result B × World)) → Option (Result B) → World → Option (Result B × World)
  after_answer again (some r) w = some (r, w)
  after_answer again none w =
      if round.is_late w then some (round.give_up w) else again (round.pause w)

  unfoldable pub after_ask :
      (World → Option (Result B × World)) → Result A × World → Option (Result B × World)
  unfolding after_answer
  after_ask again (ok a, w) = after_answer again (round.judge a) w
  after_ask again (err e, w) = some (err e, w)
  after_ask again (panic, w) = some (panic, w)

  unfoldable pub rounds : ℕ → World → Option (Result B × World)
  unfolding after_ask
  rounds zero w = none
  rounds (suc fuel) w = after_ask (λ v. rounds fuel v) (round.ask w)

  -- A clock for the loop: asking does not turn it back, a pause lasts `step`, and it is late from
  -- `deadline` on.
  pub record IsTimed (instant : World → ℕ) (deadline step : ℕ) : Type 0 where
    pub forward : (w : World) → instant w ≤ instant (round.ask w).1
    pub pauses : (w : World) → instant w + step ≤ instant (round.pause w)
    pub late : (w : World) → deadline ≤ instant w → round.is_late w ≡ true

  module _ (instant : World → ℕ) (deadline step : ℕ) (timed : IsTimed instant deadline step) where
    after_answer_ends :
        (again : World → Option (Result B × World)) (o : Option (Result B)) (w : World)
        → ((v : World) → instant w + step ≤ instant v → again v ≢ none) ⊎ (deadline ≤ instant w)
        → after_answer again o w ≢ none
    unfolding after_answer
    after_answer_ends again (some r) w h e = cc e
    after_answer_ends again none w (inr passed) e = cc (rw (timed.late w passed) at e)
    after_answer_ends again none w (inl h) e =
        let rest = h (round.pause w) (timed.pauses w) in ground arith

    after_ask_ends :
        (again : World → Option (Result B × World)) (out : Result A × World)
        → ((v : World) → instant out.1 + step ≤ instant v → again v ≢ none)
          ⊎ (deadline ≤ instant out.1)
        → after_ask again out ≢ none
    unfolding after_ask
    after_ask_ends again (ok a, w) h e = after_answer_ends again (round.judge a) w h e
    after_ask_ends again (err x, w) h e = cc e
    after_ask_ends again (panic, w) h e = cc e

    -- Enough fuel: a round more than the steps up to the deadline.
    pub rounds_end : (n : ℕ) (w : World) → deadline ≤ instant w + n * step → rounds (suc n) w ≢ none
    unfolding rounds
    rounds_end zero w h =
        after_ask_ends (λ v. rounds zero v) (round.ask w) (inr (omega (arith, timed.forward w)))
    rounds_end (suc n) w h =
        after_ask_ends _ (round.ask w)
          (inl (λ v later. rounds_end n v (grind (arith, timed.forward w))))

  -- How a loop ended: by an answer, a failed request, or giving up.
  pub data Ended (r : Result B) (w : World) : Type 0 where
    answered : (v : World) (a : A) → round.ask v ≡ (ok a, w) → round.judge a ≡ some r → Ended r w
    refused : (v : World) (e : RouterError) → round.ask v ≡ (err e, w) → r ≡ err e → Ended r w
    crashed : (v : World) → round.ask v ≡ (panic, w) → r ≡ panic → Ended r w
    gave_up : (v : World) → round.is_late v ≡ true → round.give_up v ≡ (r, w) → Ended r w

  after_ask-Ended :
      (again : World → Option (Result B × World)) (out : Result A × World) (w w' : World)
      (r : Result B)
      → round.ask w ≡ out
      → ((v : World) → again v ≡ some (r, w') → Ended r w')
      → after_ask again out ≡ some (r, w')
      → Ended r w'
  unfolding after_ask after_answer
  after_ask-Ended again (err x, v) w w' r e later q = refused w x (e ∙ cc q) (cc q)
  after_ask-Ended again (panic, v) w w' r e later q = crashed w (e ∙ cc q) (cc q)
  after_ask-Ended again (ok a, v) w w' r e later q = elim (Option-cases (round.judge a)) [
    | inr (x, found) ↦
        let given : some (x, v) ≡ some (r, w') = rw found at q in
        let same : x ≡ r = cc given in
        let reached : v ≡ w' = cc given in
        answered w a (e ∙ ap (λ u. (ok a, u)) reached) (found ∙ ap some same)
    | inl unfit ↦ elim (Bool-cases (round.is_late v)) [
      | inl late ↦ gave_up v late (cc (rw (unfit, late) at q))
      | inr early ↦ later (round.pause v) (rw (unfit, early) at q)
    ]
  ]

  pub rounds-Ended :
      (fuel : ℕ) (w w' : World) (r : Result B) → rounds fuel w ≡ some (r, w') → Ended r w'
  unfolding rounds
  rounds-Ended zero w w' r e = cc e
  rounds-Ended (suc fuel) w w' r e =
      after_ask-Ended _ (round.ask w) w w' r refl (λ v q. rounds-Ended fuel v w' r q) e
