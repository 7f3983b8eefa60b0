-- ===== src/Bridge/Attestation/Polling.antt =====
-- When the polling of an attestation ends, and with what.
use pump_poly_router.Base.{
  ℕ, suc, ◌+◌, ◌*◌, ◌≤◌, ◌≡◌, ◌≢◌, inl, inr, ap, arith, false, ltb, ◌++◌, Option-cases, some,
  Bool-cases,
}
use pump_poly_router.Text.{Text, text, text_eq_iff}
use pump_poly_router.Error.{http, cctp_attestation, Result, ok, panic, ok_or-ok}
use pump_poly_router.External.{fine}
use pump_poly_router.Effect.{call, and_then-ok, lift-ok, call-ok, of_reply-ok}
use pump_poly_router.Polling.{
  IsTimed, rounds, rounds_end, Ended, rounds-Ended, answered, refused, crashed, gave_up,
}
use pump_poly_router.Bridge.Attestation.{
  AttestationResponse, is_complete, Polls, get_attestation, missing_bytes, complete_result,
  poll_round, poll_until_complete,
}

-- The clock does not run backwards, and a sleep lasts as long as it was asked to.
pub record IsClock {World Response : Type 0} (polls : Polls World Response) : Type 0 where
  pub fetch_forward :
      (url : Text) (w : World) → polls.instant w ≤ polls.instant (polls.fetch url w).1
  pub read_forward :
      (resp : Response) (w : World)
      → polls.instant w ≤ polls.instant (polls.read_attestation resp w).1
  pub sleeps :
      (secs : ℕ) (w : World)
      → polls.instant w + secs * 1_000_000_000 ≤ polls.instant (polls.sleep_secs secs w)

module _ {World Response : Type 0} (polls : Polls World Response) (base_url : Text)
    (clock : IsClock polls) where
  request_forward :
      (hash : Text) (w : World)
      → polls.instant w ≤ polls.instant (get_attestation polls base_url hash w).1
  unfolding get_attestation
  request_forward hash w = grind (arith, clock.fetch_forward, clock.read_forward)

  poll_round-IsTimed :
      (hash : Text) (timeout_secs interval deadline : ℕ)
      → IsTimed
          (poll_round polls base_url hash timeout_secs interval deadline)
          polls.instant
          deadline
          (interval * 1_000_000_000)
  poll_round-IsTimed hash timeout_secs interval deadline = record {
    forward = request_forward hash;
    pauses = clock.sleeps interval;
    late = λ w h. ground arith;
  }

  complete_result_calm :
      (att : AttestationResponse) (r : Result Text)
      → complete_result polls base_url att ≡ some r
      → r ≢ panic
  unfolding complete_result
  complete_result_calm att r e q = ground (arith, e, q)

  get_attestation_calm :
      (hash : Text) (w : World) → (get_attestation polls base_url hash w).0 ≢ panic
  unfolding get_attestation
  get_attestation_calm hash w e = ground arith

  Ended-calm :
      (hash : Text) (timeout_secs interval deadline : ℕ) (w : World) (r : Result Text)
      → Ended (poll_round polls base_url hash timeout_secs interval deadline) r w
      → r ≢ panic
  Ended-calm hash timeout_secs interval deadline w r (answered v att e j) =
      complete_result_calm att r j
  Ended-calm hash timeout_secs interval deadline w r (refused v x e q) = λ z. cc (q, z)
  Ended-calm hash timeout_secs interval deadline w r (crashed v e q) =
      absurd (get_attestation_calm hash v (ap (λ out. out.0) e))
  Ended-calm hash timeout_secs interval deadline w r (gave_up v late e) =
      λ z. cc (ap (λ out. out.0) e, z)

  -- With a clock that does not run backwards and sleeps that last, `poll_until_complete` returns a
  -- result or an error, without a panic, within n + 1 requests as soon as n intervals make up the
  -- timeout, where the deadline is not behind the last instant that an `Instant` holds.
  pub poll_until_complete_returns :
      (n : ℕ) (hash : Text) (timeout_secs interval : ℕ) (w : World)
      → timeout_secs ≤ n * interval
      → polls.instant w + timeout_secs * 1_000_000_000 ≤ polls.last_instant
      → (r : Result Text) × (w' : World) × (poll_until_complete polls base_url
            (suc n)
            hash
            timeout_secs
            interval
            w
          ≡ some (r, w'))
        × (r ≢ panic)
  unfolding poll_until_complete
  poll_until_complete_returns n hash timeout_secs interval w enough in_range =
      let deadline = polls.instant w + timeout_secs * 1_000_000_000 in
      let round = poll_round polls base_url hash timeout_secs interval deadline in
      let fits : ltb polls.last_instant deadline ≡ false = ground (arith, in_range) in
      let ends =
        rounds_end round polls.instant deadline (interval * 1_000_000_000)
          (poll_round-IsTimed hash timeout_secs interval deadline) n w (grind arith) in
      elim (Option-cases (rounds round (suc n) w)) [
        | inl stuck ↦ absurd (ends stuck)
        | inr ((r, w'), found) ↦ (
          r,
          w',
          rw fits found,
          Ended-calm hash timeout_secs interval deadline w' r
              (rounds-Ended round (suc n) w w' r found),
        )
      ]

module _ {World Response : Type 0} (polls : Polls World Response) (base_url : Text) where
  -- The service was asked for this message hash, and its answer has the status `complete` and these
  -- bytes.
  pub record Attested (hash bytes : Text) : Type 0 where
    pub asked_at : World
    pub response : Response
    pub heard_at : World
    pub accepted : Response
    pub read_at : World
    pub answer : AttestationResponse
    pub asked :
        polls.fetch (base_url ++ (text "/v1/attestations/" ++ hash)) asked_at
        ≡ (fine response, heard_at)
    pub well : polls.accept_status response ≡ fine accepted
    pub read : polls.read_attestation accepted heard_at ≡ (fine answer, read_at)
    pub status : answer.status ≡ text "complete"
    pub carries : answer.attestation ≡ some bytes

  complete-Attested :
      (hash bytes : Text) (v w : World) (att : AttestationResponse)
      → get_attestation polls base_url hash v ≡ (ok att, w)
      → complete_result polls base_url att ≡ some (ok bytes)
      → Attested hash bytes
  unfolding complete_result get_attestation is_complete
  complete-Attested hash bytes v w att e j = elim (Bool-cases (is_complete att)) [
    | inr waiting ↦ absurd (cc (rw waiting at j))
    | inl full ↦
        let given = rw full at j in
        let url : Text = base_url ++ (text "/v1/attestations/" ++ hash) in
        let (resp, heard, e1, k1) = and_then-ok (call (polls.fetch url) http v) _ att w e in
        let (accepted, e2, k2) = lift-ok _ _ att heard w k1 in
        record {
          asked_at = v;
          response = resp;
          heard_at = heard;
          accepted = accepted;
          read_at = w;
          answer = att;
          asked = call-ok (polls.fetch url) http resp v heard e1;
          well = of_reply-ok _ _ accepted e2;
          read = call-ok (polls.read_attestation accepted) cctp_attestation att heard w k2;
          status = (text_eq_iff att.status (text "complete")).0 full;
          carries = ok_or-ok att.attestation (cctp_attestation missing_bytes) bytes (cc given);
        }
  ]

  Ended-Attested :
      (hash bytes : Text) (timeout_secs interval deadline : ℕ) (w : World)
      → Ended (poll_round polls base_url hash timeout_secs interval deadline) (ok bytes) w
      → Attested hash bytes
  Ended-Attested hash bytes timeout_secs interval deadline w (answered v att e j) =
      complete-Attested hash bytes v w att e j
  Ended-Attested hash bytes timeout_secs interval deadline w (refused v x e q) = absurd (cc q)
  Ended-Attested hash bytes timeout_secs interval deadline w (crashed v e q) = absurd (cc q)
  Ended-Attested hash bytes timeout_secs interval deadline w (gave_up v late e) =
      absurd (cc (ap (λ out. out.0) e))

  -- The bytes that `poll_until_complete` returns stood in the body of an answer to a GET request for
  -- `/v1/attestations/` and this very message hash, and its status was `complete`.
  pub poll_until_complete-Attested :
      (fuel : ℕ) (hash : Text) (timeout_secs interval : ℕ) (w w' : World) (bytes : Text)
      → poll_until_complete polls base_url fuel hash timeout_secs interval w ≡ some (ok bytes, w')
      → Attested hash bytes
  unfolding poll_until_complete
  poll_until_complete-Attested fuel hash timeout_secs interval w w' bytes e =
      let deadline = polls.instant w + timeout_secs * 1_000_000_000 in
      elim (Bool-cases (ltb polls.last_instant deadline)) [
        | inl behind ↦ absurd (cc (rw behind at e))
        | inr fits ↦ Ended-Attested hash bytes timeout_secs interval deadline w' (
            rounds-Ended (poll_round polls base_url hash timeout_secs interval deadline) fuel w w'
              (ok bytes) (rw fits at e))
      ]
