-- ===== src/Tests/OnSending.antt =====
-- The theorem on concurrent senders, applied to a node that accepts one transaction.
use pump_poly_router.Base.{
  ℕ, ◌≤◌, ◌<◌, ◌≡◌, refl, ap, arith, [], ◌∷◌, none, some, true, false, ◌==◌, if◌then◌else◌,
}
use pump_poly_router.Text.{Text, text, trim_0x, parse_hex_u64, hex_value}
use pump_poly_router.Error.{ok}
use pump_poly_router.External.{
  Reply, fine, fault, Net, Body, str, arr, obj, Bodies, nil, cons, field,
}
use pump_poly_router.Evm.Signer.{EvmWallet, parse_secret_key, sign_fields, sign_transaction}
use pump_poly_router.Evm.Signer.Rpc.{
  get_nonce, get_gas_price, estimate_gas, eth_send_raw_transaction,
}
use pump_poly_router.Evm.Signer.Sending.{
  Job, broadcast, idle, is_running, Senders, resume, resumed, acquired, Reach, acquire,
  advance_call, start, then_step,
}
use pump_poly_router.Evm.Signer.Sending.Calls.{Descending, IsNode}
use pump_poly_router.Evm.Signer.Sending.Nonces.{send_transaction_nonces}
use pump_poly_router.Tests.Codecs.{from_hex, hex_codec, plain_crypto}

-- Whether the node has accepted a transaction.
data Pool : Type 0 where
  empty_pool : Pool
  full_pool : Pool

abbrev count : Pool → ℕ
count empty_pool = 0
count full_pool = 1

-- The parameters of a request.
abbrev params : Body → Bodies
params (obj (field a b (field c d (field e (arr ps) rest)))) = ps
params body = nil

-- What the node answers, by the shape of the parameters, which differs between the four requests.
abbrev answer : Bodies → Pool → Reply ℕ × Pool
answer nil w = (fine 2, w)
answer (cons (obj fs) nil) w = (fine 2, w)
answer (cons (str raw) nil) empty_pool = (fine 3, full_pool)
answer (cons (str raw) nil) full_pool = (fault (text "nonce too low"), full_pool)
answer (cons (str address) (cons block more)) empty_pool = (fine 0, empty_pool)
answer (cons (str address) (cons block more)) full_pool = (fine 1, full_pool)
answer other w = (fault (text "bad request"), w)

abbrev shown : ℕ → Text
shown n = if n == 0 then text "0x0" else text "0x1"

abbrev node : Net Pool ℕ ℕ
node = record {
  post = λ url body w. answer (params body) w;
  get = λ url w. (fault (text "bad request"), w);
  error_for_status = fine;
  read_json = λ resp w. (fine resp, w);
  index = λ j key. j;
  get_field = λ j key. none;
  as_str = λ j. some (shown j);
  as_array = λ j. none;
  is_null = λ j. false;
  to_string = λ j. text "{}";
  sleep = λ secs w. w;
}

abbrev signer : EvmWallet
signer = record {
  private_key = text "0x0303030303030303030303030303030303030303030303030303030303030303";
  address = text "0x01";
  chain_id = 137;
}

abbrev job : Job
job = record { to = text "0x1111"; calldata = text "0xab"; value = 0 }

nonce_forward : (w : Pool) → count w ≤ count (get_nonce node signer [] w).1
unfolding get_nonce parse_hex_u64 trim_0x text
nonce_forward empty_pool = omega arith
nonce_forward full_pool = omega arith

price_forward : (w : Pool) → count w ≤ count (get_gas_price node [] w).1
unfolding get_gas_price parse_hex_u64 trim_0x text
price_forward empty_pool = omega arith
price_forward full_pool = omega arith

gas_forward :
    (to calldata : Text) (w : Pool) → count w ≤ count (estimate_gas node signer [] to calldata w).1
unfolding estimate_gas parse_hex_u64 trim_0x text
gas_forward to calldata empty_pool = omega arith
gas_forward to calldata full_pool = omega arith

send_forward :
    (raw_tx : Text) (w : Pool) → count w ≤ count (eth_send_raw_transaction node [] raw_tx w).1
unfolding eth_send_raw_transaction text
send_forward raw_tx empty_pool = omega arith
send_forward raw_tx full_pool = omega arith

pending_answer :
    (w v : Pool) (n : ℕ) → get_nonce node signer [] w ≡ (ok n, v) → (n ≡ count w) × (v ≡ w)
unfolding get_nonce parse_hex_u64 trim_0x text
pending_answer empty_pool v n e = (cc e, cc e)
pending_answer full_pool v n e = (cc e, cc e)

pending :
    (w v : Pool) (n : ℕ) → get_nonce node signer [] w ≡ (ok n, v) → (count w ≤ n) × (n ≤ count v)
pending w v n e =
    let (same, still) = pending_answer w v n e in
    let level : count v ≡ count w = ap count still in
    (omega (arith, same), omega (arith, same, level))

accepted :
    (nonce : ℕ) (raw_tx hash : Text) (w v : Pool)
    → eth_send_raw_transaction node [] raw_tx w ≡ (ok hash, v)
    → nonce ≤ count w
    → nonce < count v
unfolding eth_send_raw_transaction
accepted nonce raw_tx hash full_pool v e h = absurd (cc e)
accepted nonce raw_tx hash empty_pool v e h =
    let full : full_pool ≡ v = ap (λ out. out.1) e in
    let one : 1 ≡ count v = ap count full in omega (arith, one, h)

node-IsNode : IsNode node hex_codec plain_crypto signer [] count
node-IsNode = record {
  nonce_forward = nonce_forward;
  price_forward = price_forward;
  gas_forward = gas_forward;
  send_forward = send_forward;
  pending = pending;
  accepted = λ to calldata value nonce gas_price gas_limit raw_tx hash w v signed e h.
      accepted nonce raw_tx hash w v e h;
}

-- Call 0 runs to its end; then call 1 takes the lock and reads its nonce.
abbrev jobs : ℕ → Job
jobs i = job

abbrev s0 : Senders Pool
s0 = record { lock = none; stage = λ i. idle; world = empty_pool; accepted = [] }

abbrev step_of : ℕ → Senders Pool → Senders Pool
step_of i s = resumed node hex_codec plain_crypto signer [] job i s

abbrev s1 : Senders Pool
s1 = acquired node hex_codec plain_crypto signer [] 0 s0

abbrev s2 : Senders Pool
s2 = step_of 0 s1

abbrev s3 : Senders Pool
s3 = step_of 0 s2

abbrev s4 : Senders Pool
s4 = step_of 0 s3

abbrev s5 : Senders Pool
s5 = step_of 0 s4

reached : Reach node hex_codec plain_crypto signer [] jobs count s4
unfolding resume get_nonce get_gas_price estimate_gas parse_hex_u64 trim_0x text
reached =
    then_step s3 s4
      (then_step s2 s3
        (then_step s1 s2 (then_step s0 s1 (start empty_pool) (acquire 0 refl refl))
          (advance_call 0 refl))
        (advance_call 0 refl))
      (advance_call 0 refl)

abbrev s6 : Senders Pool
s6 = acquired node hex_codec plain_crypto signer [] 1 s5

abbrev s7 : Senders Pool
s7 = step_of 1 s6

-- The first call has returned and released the lock.
sent : (s5.lock ≡ none) × (s5.accepted ≡ 0 ∷ [])
unfolding resume broadcast sign_transaction parse_secret_key sign_fields get_nonce get_gas_price
    estimate_gas eth_send_raw_transaction parse_hex_u64 trim_0x text from_hex hex_value
sent = (refl, refl)

ended : Reach node hex_codec plain_crypto signer [] jobs count s7
unfolding resume get_nonce get_gas_price estimate_gas parse_hex_u64 trim_0x text
ended =
    then_step s6 s7
      (then_step s5 s6 (then_step s4 s5 reached (advance_call 0 refl)) (acquire 1 refl sent.0))
      (advance_call 1 refl)

send_transaction_nonces_example :
    Descending s7.accepted
    × ((i j : ℕ) → is_running (s7.stage i) ≡ true → is_running (s7.stage j) ≡ true → i ≡ j)
send_transaction_nonces_example =
    send_transaction_nonces node hex_codec plain_crypto signer [] count node-IsNode jobs s7 ended
