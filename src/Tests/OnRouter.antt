-- ===== src/Tests/OnRouter.antt =====
-- The theorems on the router with the clients that it builds, applied.
use pump_poly_router.Base.{
  ℕ, ◌≡◌, ◌≢◌, ◌++◌, refl, arith, List, [], ◌∷◌, some, none, true, false, Bool-cases, inl, inr, leb,
  replicate, subst, ap, Option, if◌then◌else◌,
}
use pump_poly_router.Text.{Text, text, text_eq, trim_0x}
use pump_poly_router.Words.{be_value, be_bytes}
use pump_poly_router.Abi.{word}
use pump_poly_router.Error.{ok, panic}
use pump_poly_router.External.{Net, Body, str, obj, field, fine}
use pump_poly_router.Types.{awaiting_resolution}
use pump_poly_router.Solana.Spl.{SplRpc}
use pump_poly_router.Polymarket.Resolver.Payouts.{event_data}
use pump_poly_router.Executor.Drive.{advance}
use pump_poly_router.Executor.New.{Parts, clients}
use pump_poly_router.Executor.New.Calm.Polygon.{IsShort}
use pump_poly_router.Executor.New.Calm.Resolver.{IsModest}
use pump_poly_router.Executor.New.Calm.Whole.{IsReliable, IsEarly, advance_with_clients_total}
use pump_poly_router.Evm.Signer.{EvmWallet}
use pump_poly_router.Polymarket.Order.Client.{connect}
use pump_poly_router.Text.{hex_digit, hex_value}
use pump_poly_router.Bridge.Attestation.{AttestationResponse, get_attestation, is_complete}
use pump_poly_router.Tests.Codecs.{to_hex, from_hex, hex_codec, hex_codec-IsHex}
use pump_poly_router.Tests.Fixtures.{Machine, boot, desk, holding}
use pump_poly_router.Tests.OnClients.{iris}
use pump_poly_router.Tests.OnServices.{exchange, exchange-IsClock, jupiter, trader}

abbrev won : List ℕ
won = event_data 2 (1 ∷ 0 ∷ [])

-- A `MessageSent` event with a message of one byte.
abbrev posted : List ℕ
posted = word 32 ++ (word 1 ++ (7 ∷ replicate 31 0))

-- The JSON values of a node.
data Doc : Type 0 where
  call_answer receipt_answer logs_answer receipt sent_logs sent_log resolved_logs : Doc
  resolved_log topics topic quantity sent_data won_data absent : Doc

-- What the node answers to a method.
abbrev reply : Body → Doc
reply (obj (field version body (field key (str method) rest))) =
    if text_eq method (text "eth_getLogs")
    then logs_answer
    else (if text_eq method (text "eth_getTransactionReceipt") then receipt_answer else call_answer)
reply body = absent

abbrev log_part : Text → Doc → Doc
log_part key payload = if text_eq key (text "topics") then topics else payload

abbrev member : Doc → Text → Doc
member call_answer key = quantity
member receipt_answer key = receipt
member logs_answer key = resolved_logs
member receipt key = sent_logs
member sent_log key = log_part key sent_data
member resolved_log key = log_part key won_data
member other key = absent

abbrev string : Doc → Option Text
string topic = some (text "0x" ++ hex_codec.hex_encode (replicate 32 2))
string quantity = some (text "0x" ++ hex_codec.hex_encode (1 ∷ []))
string sent_data = some (text "0x" ++ hex_codec.hex_encode posted)
string won_data = some (text "0x" ++ hex_codec.hex_encode won)
string other = none

abbrev elements : Doc → Option (List Doc)
elements sent_logs = some (resolved_log ∷ sent_log ∷ [])
elements resolved_logs = some (resolved_log ∷ [])
elements topics = some (topic ∷ [])
elements other = none

-- A node that mines every transaction, with a `MessageSent` event, and has the log of a condition
-- that YES has won.
abbrev polygon : Net Machine Doc Doc
polygon = record {
  post = λ url body m. (fine (reply body), m);
  get = λ url m. (fine absent, m);
  error_for_status = fine;
  read_json = λ resp m. (fine resp, m);
  index = member;
  get_field = λ j key. if text_eq key (text "result") then some (member j key) else none;
  as_str = string;
  as_array = elements;
  is_null = λ j. false;
  to_string = λ j. text "{}";
  sleep = λ ms m. m;
}

abbrev solana : SplRpc Machine
solana = record {
  account_amount = λ account m. (fine (text "700"), m);
  supply_decimals = λ mint m. (fine 6, m);
}

abbrev executor : EvmWallet
executor = record { private_key = text "03"; address = text "0x04"; chain_id = 137 }

abbrev parts : Parts
parts = record {
  jupiter = text "https://jupiter";
  cctp_solana = record {
    token_messenger_program = replicate 32 9;
    message_transmitter_program = replicate 32 8;
  };
  cctp_polygon = record {
    rpc_url = text "https://polygon";
    message_transmitter = text "0x01";
    token_messenger = text "0x02";
    wallet = executor;
  };
  attestation = text "https://iris";
  poly_client = trader;
  resolver = record { polygon_rpc = text "https://polygon"; ctf_address = text "0x04" };
  settlement = record {
    polygon_rpc = text "https://polygon";
    ctf_address = text "0x04";
    wallet = executor;
  };
}

won_bytes : hex_codec.hex_decode (trim_0x (text "0x" ++ hex_codec.hex_encode won)) ≡ fine won
unfolding trim_0x text be_bytes from_hex to_hex hex_digit hex_value
won_bytes = refl

posted_bytes :
    hex_codec.hex_decode (trim_0x (text "0x" ++ hex_codec.hex_encode posted)) ≡ fine posted
unfolding trim_0x text be_bytes from_hex to_hex hex_digit hex_value
posted_bytes = refl

quantity_bytes :
    hex_codec.hex_decode (trim_0x (text "0x" ++ hex_codec.hex_encode (1 ∷ []))) ≡ fine (1 ∷ [])
unfolding trim_0x text be_bytes from_hex to_hex hex_digit hex_value
quantity_bytes = refl

abbrev IsAmple : List ℕ → Type 0
IsAmple bytes = IsShort bytes × IsModest bytes

won-IsAmple : IsAmple won
unfolding be_value be_bytes
won-IsAmple = (omega arith, (omega arith, omega arith))

posted-IsAmple : IsAmple posted
unfolding be_value be_bytes
posted-IsAmple = (omega arith, (omega arith, omega arith))

quantity-IsAmple : IsAmple (1 ∷ [])
unfolding be_value be_bytes
quantity-IsAmple = (omega arith, (omega arith, omega arith))

-- Whatever is decoded from the text of some bytes is those bytes.
decoded_same :
    (written bytes : List ℕ) (data_hex : Text)
    → hex_codec.hex_decode (trim_0x (text "0x" ++ hex_codec.hex_encode written)) ≡ fine written
    → IsAmple written
    → some (text "0x" ++ hex_codec.hex_encode written) ≡ some data_hex
    → hex_codec.hex_decode (trim_0x data_hex) ≡ fine bytes
    → IsAmple bytes
decoded_same written bytes data_hex back ample found decoded =
    let same : written ≡ bytes = cc (found, decoded, back) in subst IsAmple same ample

-- The data of every log of the node.
member-IsAmple :
    (log : Doc) (data_hex : Text) (bytes : List ℕ)
    → string (member log (text "data")) ≡ some data_hex
    → hex_codec.hex_decode (trim_0x data_hex) ≡ fine bytes
    → IsAmple bytes
unfolding text_eq text
member-IsAmple call_answer d bytes found decoded =
    decoded_same (1 ∷ []) bytes d quantity_bytes quantity-IsAmple found decoded
member-IsAmple sent_log d bytes found decoded =
    decoded_same posted bytes d posted_bytes posted-IsAmple found decoded
member-IsAmple resolved_log d bytes found decoded =
    decoded_same won bytes d won_bytes won-IsAmple found decoded
member-IsAmple receipt_answer d bytes found decoded = absurd (cc found)
member-IsAmple logs_answer d bytes found decoded = absurd (cc found)
member-IsAmple receipt d bytes found decoded = absurd (cc found)
member-IsAmple sent_logs d bytes found decoded = absurd (cc found)
member-IsAmple resolved_logs d bytes found decoded = absurd (cc found)
member-IsAmple topics d bytes found decoded = absurd (cc found)
member-IsAmple topic d bytes found decoded = absurd (cc found)
member-IsAmple quantity d bytes found decoded = absurd (cc found)
member-IsAmple sent_data d bytes found decoded = absurd (cc found)
member-IsAmple won_data d bytes found decoded = absurd (cc found)
member-IsAmple absent d bytes found decoded = absurd (cc found)

-- The service reports `complete` with the bytes.
iris-attested :
    (hash : Text) (w : Machine) (att : AttestationResponse)
    → (get_attestation iris parts.attestation hash w).0 ≡ ok att
    → is_complete att ≡ true
    → att.attestation ≢ none
unfolding get_attestation is_complete text_eq text
iris-attested hash w att e full missing = elim (Bool-cases (leb 4_000_000_000 w.nanos)) [
  | inl late ↦ cc (rw late at e, missing)
  | inr early ↦ ground (arith, rw early at e, full)
]

good : IsReliable desk polygon solana iris jupiter exchange exchange-IsClock parts
good = record {
  codec = hex_codec-IsHex;
  mint = λ e. cc e;
  attested = iris-attested;
  sent_events = λ calldata hash u v mined sent got logs log listed i d bytes marked found decoded.
      (member-IsAmple log d bytes found decoded).0;
  resolution_events = λ t d v resp json log logs bytes posted read listed found decoded.
      (member-IsAmple log d bytes found decoded).1;
}

connects : (connect exchange parts.poly_client boot).1 ≡ boot
unfolding connect
connects = refl

in_range : IsEarly desk polygon solana iris jupiter exchange exchange-IsClock parts boot
in_range = omega (arith, ap exchange.instant connects)

advance_with_clients_total_example :
    (advance desk
      (clients desk polygon solana iris jupiter exchange exchange-IsClock parts)
      1
      (holding awaiting_resolution 0)
      boot).0
    ≢ panic
advance_with_clients_total_example =
    advance_with_clients_total desk polygon solana iris jupiter exchange exchange-IsClock parts good
      1 (holding awaiting_resolution 0) boot in_range
