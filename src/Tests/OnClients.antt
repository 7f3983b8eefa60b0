-- ===== src/Tests/OnClients.antt =====
-- The theorems on the clients of the services, applied.
use pump_poly_router.Base.{
  ℕ, ◌^◌, ◌+◌, ◌*◌, ◌≡◌, ◌≢◌, refl, arith, List, [], ◌∷◌, ◌++◌, none, some, leb, if◌then◌else◌,
  replicate, All-replicate,
}
use pump_poly_router.Text.{Text, text, text_eq, trim_0x, pad_left, hex_value}
use pump_poly_router.Error.{Result, ok, panic}
use pump_poly_router.Words.{IsByte}
use pump_poly_router.External.{fine}
use pump_poly_router.Bridge.Attestation.{
  is_complete, Polls, get_attestation, complete_result, poll_until_complete,
}
use pump_poly_router.Bridge.Attestation.Polling.{
  IsClock, Attested, poll_until_complete_returns, poll_until_complete-Attested,
}
use pump_poly_router.Polling.{rounds, after_ask, after_answer}
use pump_poly_router.Polymarket.Resolver.{decode_payout_numerators}
use pump_poly_router.Polymarket.Resolver.Payouts.{
  event_data, decode_payout_numerators-event_data, decode_payout_numerators_overflow,
}
use pump_poly_router.Slices.{copied_behind}
use pump_poly_router.Abi.{word}
use pump_poly_router.Polymarket.Settlement.{
  pad32_address, bytes32_from_hex, redeem_arguments, encode_redeem_positions,
}
use pump_poly_router.Polymarket.Settlement.Calldata.{
  RedeemArguments, encode_redeem_positions-RedeemArguments,
}
use pump_poly_router.Tests.Codecs.{to_hex, from_hex, hex_codec, hex_codec-IsHex}
use pump_poly_router.Tests.Fixtures.{Machine, boot}

-- A service that has the attestation ready four seconds after the start.
abbrev pub iris : Polls Machine Text
iris = record {
  fetch = λ url m. (fine url, m);
  accept_status = fine;
  read_attestation = λ resp m. (
    fine (
        if leb 4_000_000_000 m.nanos
        then record { status = text "complete"; attestation = some (text "0xcc") }
        else record { status = text "pending"; attestation = none }),
    m,
  );
  instant = λ m. m.nanos;
  last_instant = 2 ^ 63 * 1_000_000_000;
  sleep_secs = λ secs m. record m { nanos = m.nanos + secs * 1_000_000_000 };
}

iris-IsClock : IsClock iris
iris-IsClock = record {
  fetch_forward = λ url w. omega arith;
  read_forward = λ resp w. omega arith;
  sleeps = λ secs w. omega arith;
}

abbrev hash : Text
hash = text "0xab"

poll_until_complete_returns_example :
    (r : Result Text) × (w' : Machine) × (poll_until_complete iris
        (text "https://iris")
        4
        hash
        12
        5
        boot
      ≡ some (r, w'))
    × (r ≢ panic)
poll_until_complete_returns_example =
    poll_until_complete_returns iris (text "https://iris") iris-IsClock 3 hash 12 5 boot
      (omega arith) (omega arith)

abbrev later : Machine
later = iris.sleep_secs 5 boot

poll_ends :
    poll_until_complete iris (text "https://iris") 4 hash 12 5 boot ≡ some (ok (text "0xcc"), later)
unfolding poll_until_complete rounds after_ask after_answer complete_result get_attestation
    is_complete text_eq text
poll_ends = refl

poll_until_complete-Attested_example : Attested iris (text "https://iris") hash (text "0xcc")
poll_until_complete-Attested_example =
    poll_until_complete-Attested iris (text "https://iris") 4 hash 12 5 boot later (text "0xcc")
      poll_ends

abbrev no_won : List ℕ
no_won = 0 ∷ 1_000_000_000 ∷ []

decode_payout_numerators-event_data_example :
    decode_payout_numerators hex_codec (text "0x" ++ hex_codec.hex_encode (event_data 2 no_won))
    ≡ ok no_won
decode_payout_numerators-event_data_example =
    decode_payout_numerators-event_data hex_codec hex_codec-IsHex 2 no_won (omega arith)
      (omega arith)

abbrev last_offset : ℕ
last_offset = 18_446_744_073_709_551_615

decode_payout_numerators_overflow_example :
    decode_payout_numerators hex_codec
      (text "0x" ++ hex_codec.hex_encode (word 2 ++ (word last_offset ++ replicate 64 0)))
    ≡ panic
decode_payout_numerators_overflow_example =
    decode_payout_numerators_overflow hex_codec hex_codec-IsHex 2 last_offset (replicate 64 0)
      (All-replicate IsByte 64 0 (omega arith)) (omega arith) (omega arith)

abbrev usdc : Text
usdc = text "0x" ++ replicate 40 b'1'

abbrev condition : Text
condition = text "0xabc123"

abbrev yes_set : List ℕ
yes_set = 1 ∷ []

abbrev redeem_call : Text
redeem_call =
    text "0x8c5d7d37"
    ++ hex_codec.hex_encode (
        redeem_arguments (replicate 12 0 ++ replicate 20 0x11)
          (replicate 29 0 ++ (0xab ∷ 0xc1 ∷ 0x23 ∷ [])) yes_set)

redeem_encodes : encode_redeem_positions hex_codec usdc condition yes_set ≡ ok redeem_call
unfolding encode_redeem_positions pad32_address bytes32_from_hex copied_behind trim_0x pad_left text
    to_hex from_hex hex_value
redeem_encodes = refl

encode_redeem_positions-RedeemArguments_example :
    RedeemArguments hex_codec usdc condition yes_set redeem_call
encode_redeem_positions-RedeemArguments_example =
    encode_redeem_positions-RedeemArguments hex_codec hex_codec-IsHex usdc condition yes_set
      redeem_call (omega arith) (omega arith) redeem_encodes
