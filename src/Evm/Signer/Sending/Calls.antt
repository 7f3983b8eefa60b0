-- ===== src/Evm/Signer/Sending/Calls.antt =====
-- One call among concurrent ones of `send_transaction` of src/evm/signer.rs.
use pump_poly_router.Base.{ℕ, ◌≤◌, ◌<◌, ◌≡◌, refl, arith, List, [], ◌∷◌, false, All}
use pump_poly_router.Text.{Text}
use pump_poly_router.Error.{Result, ok, err, panic}
use pump_poly_router.External.{HexCodec, Crypto, Net}
use pump_poly_router.Effect.{and_then, lift}
use pump_poly_router.Evm.Signer.{EvmWallet, sign_transaction}
use pump_poly_router.Evm.Signer.Rpc.{
  get_nonce, get_gas_price, estimate_gas, eth_send_raw_transaction,
}
use pump_poly_router.Evm.Signer.Sending.{
  Job, Stage, idle, holding, numbered, priced, limited, finished, is_running, logged, record_hash,
  continue, broadcast, resume,
}

-- Newest first, each nonce is above all older ones; so none occurs twice.
abbrev pub Descending : List ℕ → Type 0
Descending [] = Unit
Descending (n ∷ ns) = All (λ m. m < n) ns × Descending ns

pub All-below : (a b : ℕ) (ns : List ℕ) → a ≤ b → All (λ m. m < a) ns → All (λ m. m < b) ns
All-below a b [] h hs = tt
All-below a b (n ∷ ns) h (hn, hs) = (omega (arith, h, hn), All-below a b ns h hs)

module _ {World Response Json : Type 0} (net : Net World Response Json) (hex : HexCodec)
    (crypto : Crypto) (wallet : EvmWallet) (rpc_url : Text) where
  -- A node, `count` being the number of transactions of the wallet's address that it has accepted: no
  -- call takes it back, `eth_getTransactionCount` for `pending` answers a number that it had between
  -- the request and the answer, and it is above the nonce of a transaction that was accepted when its
  -- nonce was not beyond it.
  pub record IsNode (count : World → ℕ) : Type 0 where
    pub nonce_forward : (w : World) → count w ≤ count (get_nonce net wallet rpc_url w).1
    pub price_forward : (w : World) → count w ≤ count (get_gas_price net rpc_url w).1
    pub gas_forward :
        (to calldata : Text) (w : World)
        → count w ≤ count (estimate_gas net wallet rpc_url to calldata w).1
    pub send_forward :
        (raw_tx : Text) (w : World)
        → count w ≤ count (eth_send_raw_transaction net rpc_url raw_tx w).1
    pub pending :
        (w v : World) (n : ℕ)
        → get_nonce net wallet rpc_url w ≡ (ok n, v)
        → (count w ≤ n) × (n ≤ count v)
    pub accepted :
        (to calldata : Text) (value nonce gas_price gas_limit : ℕ) (raw_tx hash : Text)
        (w v : World)
        → sign_transaction hex crypto wallet to calldata value nonce gas_price gas_limit ≡ ok raw_tx
        → eth_send_raw_transaction net rpc_url raw_tx w ≡ (ok hash, v)
        → nonce ≤ count w
        → nonce < count v

  module _ (count : World → ℕ) (node : IsNode count) where
    -- A nonce that a call carries is above all accepted ones, and not beyond the node's count.
    abbrev pub Carried : Stage → World → List ℕ → Type 0
    Carried idle w log = Unit
    Carried holding w log = Unit
    Carried (numbered n) w log = All (λ m. m < n) log × (n ≤ count w)
    Carried (priced n gas_price) w log = All (λ m. m < n) log × (n ≤ count w)
    Carried (limited n gas_price gas_limit) w log = All (λ m. m < n) log × (n ≤ count w)
    Carried (finished r) w log = Unit

    pub Carried-forward :
        (s : Stage) (w v : World) (log : List ℕ)
        → count w ≤ count v
        → Carried s w log
        → Carried s v log
    Carried-forward idle w v log h c = tt
    Carried-forward holding w v log h c = tt
    Carried-forward (numbered n) w v log h (c, le) = (c, omega (arith, h, le))
    Carried-forward (priced n g) w v log h (c, le) = (c, omega (arith, h, le))
    Carried-forward (limited n g l) w v log h (c, le) = (c, omega (arith, h, le))
    Carried-forward (finished r) w v log h c = tt

    pub Carried-still :
        (s : Stage) (w : World) (log : List ℕ) → is_running s ≡ false → Carried s w log
    Carried-still idle w log e = tt
    Carried-still (finished r) w log e = tt
    Carried-still holding w log e = tt
    Carried-still (numbered n) w log e = absurd (cc e)
    Carried-still (priced n g) w log e = absurd (cc e)
    Carried-still (limited n g l) w log e = absurd (cc e)

    -- What holds of one call together with the log.
    pub record Sound (s : Stage) (w : World) (log : List ℕ) : Type 0 where
      pub below : All (λ m. m < count w) log
      pub ordered : Descending log
      pub carried : Carried s w log

    -- The lock's holder reads, or the node refuses.
    continue-Sound :
        {A : Type 0} (f : A → Stage) (out : Result A × World) (w : World) (log : List ℕ)
        → count w ≤ count out.1
        → All (λ m. m < count w) log
        → Descending log
        → ((a : A) (v : World) → out ≡ (ok a, v) → count w ≤ count v → Carried (f a) v log)
        → Sound (continue f out).0 (continue f out).1 log
    continue-Sound f (ok a, v) w log h below ordered c = record {
      below = All-below (count w) (count v) log h below;
      ordered = ordered;
      carried = c a v refl h;
    }
    continue-Sound f (err e, v) w log h below ordered c = record {
      below = All-below (count w) (count v) log h below;
      ordered = ordered;
      carried = tt;
    }
    continue-Sound f (panic, v) w log h below ordered c = record {
      below = All-below (count w) (count v) log h below;
      ordered = ordered;
      carried = tt;
    }

    -- A transaction that is accepted takes its place in front.
    sent-Sound :
        (n : ℕ) (out : Result Text × World) (w : World) (log : List ℕ)
        → count w ≤ count out.1
        → All (λ m. m < count w) log
        → Descending log
        → All (λ m. m < n) log
        → ((hash : Text) (v : World) → out ≡ (ok hash, v) → n < count v)
        → Sound
            (continue (λ hash. finished (ok hash)) out).0
            (continue (λ hash. finished (ok hash)) out).1
            (record_hash n (continue (λ hash. finished (ok hash)) out).0 log)
    sent-Sound n (ok hash, v) w log h below ordered above taken = record {
      below = (taken hash v refl, All-below (count w) (count v) log h below);
      ordered = (above, ordered);
      carried = tt;
    }
    sent-Sound n (err e, v) w log h below ordered above taken = record {
      below = All-below (count w) (count v) log h below;
      ordered = ordered;
      carried = tt;
    }
    sent-Sound n (panic, v) w log h below ordered above taken = record {
      below = All-below (count w) (count v) log h below;
      ordered = ordered;
      carried = tt;
    }

    -- The same of the signature and the broadcast together.
    signed_forward :
        (r : Result Text) (w : World)
        → count w ≤ count (and_then (lift r w) (eth_send_raw_transaction net rpc_url)).1
    signed_forward (ok raw_tx) w = node.send_forward raw_tx w
    signed_forward (err e) w = omega arith
    signed_forward panic w = omega arith

    signed_accepted :
        (job : Job) (n g l : ℕ) (r : Result Text) (hash : Text) (w v : World)
        → sign_transaction hex crypto wallet job.to job.calldata job.value n g l ≡ r
        → and_then (lift r w) (eth_send_raw_transaction net rpc_url) ≡ (ok hash, v)
        → n ≤ count w
        → n < count v
    signed_accepted job n g l (ok raw_tx) hash w v signed e le =
        node.accepted job.to job.calldata job.value n g l raw_tx hash w v signed e le
    signed_accepted job n g l (err x) hash w v signed e le = absurd (cc e)
    signed_accepted job n g l panic hash w v signed e le = absurd (cc e)

    pub resume-Sound :
        (job : Job) (s : Stage) (w : World) (log : List ℕ)
        → Sound s w log
        → let (after, v) = resume net hex crypto wallet rpc_url job s w in
          Sound after v (logged s after log)
    unfolding resume broadcast
    resume-Sound job idle w log h = h
    resume-Sound job (finished r) w log h = h
    resume-Sound job holding w log h =
        continue-Sound numbered (get_nonce net wallet rpc_url w) w log (node.nonce_forward w)
          h.below h.ordered
          (λ n v e forward.
            let (low, high) = node.pending w v n e in (All-below (count w) n log low h.below, high))
    resume-Sound job (numbered n) w log h =
        continue-Sound (priced n) (get_gas_price net rpc_url w) w log (node.price_forward w) h.below
          h.ordered (λ g v e forward. Carried-forward (numbered n) w v log forward h.carried)
    resume-Sound job (priced n g) w log h =
        continue-Sound (limited n g) (estimate_gas net wallet rpc_url job.to job.calldata w) w log
          (node.gas_forward job.to job.calldata w) h.below h.ordered
          (λ l v e forward. Carried-forward (priced n g) w v log forward h.carried)
    resume-Sound job (limited n g l) w log h =
        let (above, le) = h.carried in
        sent-Sound n (broadcast net hex crypto wallet rpc_url job n g l w) w log
          (signed_forward (sign_transaction hex crypto wallet job.to job.calldata job.value n g l)
            w)
          h.below h.ordered above (λ hash v e. signed_accepted job n g l _ hash w v refl e le)
