-- ===== src/Bridge/Attestation.antt =====
-- src/bridge/attestation.rs: `CircleAttestationClient`. The polling loop has no bound in the source and
-- runs on fuel, one unit a round; `none` says that the fuel is used up.
pub mod Polling
use pump_poly_router.Base.{ℕ, ◌+◌, ◌*◌, Bool, ◌++◌, Option, none, some, leb, ltb, if◌then◌else◌}
use pump_poly_router.Text.{Text, text, text_eq}
use pump_poly_router.Error.{
  http, cctp_attestation, cctp_attestation_timeout, Result, ok, err, panic, ok_or,
}
use pump_poly_router.External.{Reply}
use pump_poly_router.Polling.{Round, rounds}
use pump_poly_router.Effect.{Action, call, lift, of_reply, ◌>>=◌}

pub record AttestationResponse : Type 0 where
  pub status : Text
  pub attestation : Option Text

unfoldable pub is_complete : AttestationResponse → Bool
is_complete r = text_eq r.status (text "complete")

-- What the client uses of `reqwest` and `tokio`: a GET request, the body read as an
-- `AttestationResponse`, `Instant::now()` in nanoseconds, the last instant that an `Instant` can hold,
-- and sleeping for seconds.
pub record Polls (World Response : Type 0) : Type 0 where
  pub fetch : Text → World → Reply Response × World
  pub accept_status : Response → Reply Response
  pub read_attestation : Response → World → Reply AttestationResponse × World
  pub instant : World → ℕ
  pub last_instant : ℕ
  pub sleep_secs : ℕ → World → World

abbrev pub missing_bytes : Text
missing_bytes = text "status=complete but attestation field missing"

module _ {World Response : Type 0} (polls : Polls World Response) (base_url : Text) where
  unfoldable pub get_attestation : Text → Action World AttestationResponse
  get_attestation message_hash = do
    resp ← call (polls.fetch (base_url ++ (text "/v1/attestations/" ++ message_hash))) http
    accepted ← lift (of_reply (polls.accept_status resp) cctp_attestation)
    call (polls.read_attestation accepted) cctp_attestation

  -- What ends the loop: an attestation that is complete, with its bytes or the error for none.
  unfoldable pub complete_result : AttestationResponse → Option (Result Text)
  complete_result att =
      if is_complete att
      then some (ok_or att.attestation (cctp_attestation missing_bytes))
      else none

  -- One round of the loop.
  abbrev pub poll_round : Text → ℕ → ℕ → ℕ → Round World AttestationResponse Text
  poll_round hash timeout_secs interval deadline = record {
    ask = get_attestation hash;
    judge = complete_result;
    is_late = λ w. leb deadline (polls.instant w);
    give_up = λ w. (err (cctp_attestation_timeout timeout_secs hash), w);
    pause = polls.sleep_secs interval;
  }

  -- `Instant + Duration` panics behind the last instant.
  unfoldable pub poll_until_complete : ℕ → Text → ℕ → ℕ → World → Option (Result Text × World)
  poll_until_complete fuel hash timeout_secs interval w =
      let deadline = polls.instant w + timeout_secs * 1_000_000_000 in
      if ltb polls.last_instant deadline
      then some (panic, w)
      else rounds (poll_round hash timeout_secs interval deadline) fuel w
