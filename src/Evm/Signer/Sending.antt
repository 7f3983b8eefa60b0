-- ===== src/Evm/Signer/Sending.antt =====
-- Concurrent calls of `send_transaction` of src/evm/signer.rs on one wallet. A call takes `send_lock`,
-- awaits the node four times, and releases the lock when it returns; at every await another call, or
-- another program, may run. `resume` is what a call does from one await to the next.
pub mod Calls
pub mod Nonces
pub mod Alone
use pump_poly_router.Base.{
  ℕ, ◌≤◌, ◌≡◌, List, [], ◌∷◌, Option, none, some, Bool, true, false, ◌==◌, if◌then◌else◌,
}
use pump_poly_router.Text.{Text}
use pump_poly_router.Error.{Result, ok, err, panic}
use pump_poly_router.External.{HexCodec, Crypto, Net}
use pump_poly_router.Effect.{Action, lift, ◌>>=◌}
use pump_poly_router.Evm.Signer.{EvmWallet, sign_transaction}
use pump_poly_router.Evm.Signer.Rpc.{
  get_nonce, get_gas_price, estimate_gas, eth_send_raw_transaction,
}

-- The arguments of a call.
pub record Job : Type 0 where
  pub to : Text
  pub calldata : Text
  pub value : ℕ

-- Where a call stands: before the lock, behind it, with the values that it has read, or returned.
pub data Stage : Type 0 where
  idle : Stage
  holding : Stage
  numbered : (nonce : ℕ) → Stage
  priced : (nonce gas_price : ℕ) → Stage
  limited : (nonce gas_price gas_limit : ℕ) → Stage
  finished : Result Text → Stage

-- The call is between taking and releasing the lock.
abbrev pub is_running : Stage → Bool
is_running idle = false
is_running holding = true
is_running (numbered nonce) = true
is_running (priced nonce gas_price) = true
is_running (limited nonce gas_price gas_limit) = true
is_running (finished r) = false

-- The guard is dropped when the call returns.
abbrev pub release : Stage → Option ℕ → Option ℕ
release (finished r) lock = none
release idle lock = lock
release holding lock = lock
release (numbered nonce) lock = lock
release (priced nonce gas_price) lock = lock
release (limited nonce gas_price gas_limit) lock = lock

-- The nonces of the transactions that were accepted, the newest first: a call that returns a hash has
-- one more.
abbrev pub record_hash : ℕ → Stage → List ℕ → List ℕ
record_hash nonce (finished (ok hash)) log = nonce ∷ log
record_hash nonce (finished (err e)) log = log
record_hash nonce (finished panic) log = log
record_hash nonce idle log = log
record_hash nonce holding log = log
record_hash nonce (numbered n) log = log
record_hash nonce (priced n gas_price) log = log
record_hash nonce (limited n gas_price gas_limit) log = log

abbrev pub logged : Stage → Stage → List ℕ → List ℕ
logged (limited nonce gas_price gas_limit) after log = record_hash nonce after log
logged idle after log = log
logged holding after log = log
logged (numbered nonce) after log = log
logged (priced nonce gas_price) after log = log
logged (finished r) after log = log

abbrev pub put : ℕ → Stage → (ℕ → Stage) → ℕ → Stage
put i s stage j = if j == i then s else stage j

-- All calls, the lock's holder, the world and the accepted nonces.
pub record Senders (World : Type 0) : Type 0 where
  pub lock : Option ℕ
  pub stage : ℕ → Stage
  pub world : World
  pub accepted : List ℕ

-- What `?` makes of an awaited result.
abbrev pub continue : {World A : Type 0} → (A → Stage) → Result A × World → Stage × World
continue f (ok a, w) = (f a, w)
continue f (err e, w) = (finished (err e), w)
continue f (panic, w) = (finished panic, w)

module _ {World Response Json : Type 0} (net : Net World Response Json) (hex : HexCodec)
    (crypto : Crypto) (wallet : EvmWallet) (rpc_url : Text) where
  unfoldable pub broadcast : Job → ℕ → ℕ → ℕ → Action World Text
  broadcast job nonce gas_price gas_limit = do
    raw_tx ←
        lift (
          sign_transaction hex crypto wallet job.to job.calldata job.value nonce gas_price
            gas_limit)
    eth_send_raw_transaction net rpc_url raw_tx

  -- From one await to the next.
  unfoldable pub resume : Job → Stage → World → Stage × World
  resume job idle w = (idle, w)
  resume job holding w = continue numbered (get_nonce net wallet rpc_url w)
  resume job (numbered nonce) w = continue (priced nonce) (get_gas_price net rpc_url w)
  resume job (priced nonce gas_price) w =
      continue (limited nonce gas_price) (estimate_gas net wallet rpc_url job.to job.calldata w)
  resume job (limited nonce gas_price gas_limit) w =
      continue (λ hash. finished (ok hash)) (broadcast job nonce gas_price gas_limit w)
  resume job (finished r) w = (finished r, w)

  abbrev pub resumed : Job → ℕ → Senders World → Senders World
  resumed job i s =
      let (after, w) = resume job (s.stage i) s.world in
      record {
        lock = release after s.lock;
        stage = put i after s.stage;
        world = w;
        accepted = logged (s.stage i) after s.accepted;
      }

  abbrev pub acquired : ℕ → Senders World → Senders World
  acquired i s = record s { lock = some i; stage = put i holding s.stage }

  -- One step of some call, or of the world outside, which does not take nonces back.
  pub data Step (jobs : ℕ → Job) (count : World → ℕ) (s : Senders World)
      : Senders World → Type 0 where
    acquire : (i : ℕ) → s.stage i ≡ idle → s.lock ≡ none → Step jobs count s (acquired i s)
    advance_call :
        (i : ℕ) → is_running (s.stage i) ≡ true → Step jobs count s (resumed (jobs i) i s)
    outside : (w : World) → count s.world ≤ count w → Step jobs count s (record s { world = w })

  -- Every state that calls which have not begun can reach, in any order of their steps.
  pub data Reach (jobs : ℕ → Job) (count : World → ℕ) : Senders World → Type 0 where
    start :
        (w : World)
        → Reach jobs count (record { lock = none; stage = λ i. idle; world = w; accepted = [] })
    then_step :
        (s t : Senders World) → Reach jobs count s → Step jobs count s t → Reach jobs count t
