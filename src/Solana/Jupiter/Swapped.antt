-- ===== src/Solana/Jupiter/Swapped.antt =====
-- What a swap of src/solana/jupiter.rs that succeeded has signed and sent.
use pump_poly_router.Base.{
  ℕ, ◌≡◌, refl, true, false, [], ◌∷◌, drop, ap, ◌∙◌, List, ◌++◌, none, some,
}
use pump_poly_router.Text.{Text, text, decimal, parse_u64}
use pump_poly_router.Error.{http, jupiter_quote, jupiter_swap, ok, ok_or-ok}
use pump_poly_router.Effect.{call, and_then-ok, lift-ok, call-ok, of_reply-ok, pure-ok}
use pump_poly_router.External.{fine}
use pump_poly_router.Platform.{Platform, Keypair, Signature}
use pump_poly_router.Solana.Jupiter.{QuoteResponse, out_amount_u64}
use pump_poly_router.Solana.Jupiter.Client.{
  Swaps, SwapRequest, VersionedTransaction, signed_first, get_quote, get_swap_transaction, resigned,
  execute_swap, swap,
}

module _ {World Response Message : Type 0} (p : Platform World)
    (swaps : Swaps World Response Message) (base_url : Text) where
  -- The bytes `tx_b64` were a transaction, and what was sent in the world `v` is that transaction with a
  -- fresh block hash in its message, and the payer's signature of this message in the place of its
  -- first signature.
  pub record Sent (payer : Keypair) (tx_b64 : Text) (v : World) (sig : Signature) (w : World)
      : Type 0 where
    pub tx_bytes : List ℕ
    pub decoded : p.base64_decode tx_b64 ≡ fine tx_bytes
    pub tx : VersionedTransaction Message
    pub read : swaps.deserialize tx_bytes ≡ fine tx
    pub blockhash : List ℕ
    pub later : World
    pub fresh : p.latest_blockhash v ≡ (fine blockhash, later)
    pub new_tx : VersionedTransaction Message
    pub message : new_tx.message ≡ swaps.set_recent_blockhash blockhash tx.message
    pub signatures :
        new_tx.signatures
        ≡ swaps.sign_message payer (swaps.serialize_message new_tx.message) ∷ drop 1 tx.signatures
    pub sent : swaps.send_versioned new_tx later ≡ (fine sig, w)

  signed_first-drop :
      (sig : Signature) (olds : List Signature) → signed_first sig olds ≡ sig ∷ drop 1 olds
  signed_first-drop sig [] = refl
  signed_first-drop sig (old ∷ others) = refl

  execute_swap-Sent :
      (payer : Keypair) (tx_b64 : Text) (v w : World) (sig : Signature)
      → execute_swap p swaps base_url tx_b64 payer v ≡ (ok sig, w)
      → Sent payer tx_b64 v sig w
  unfolding execute_swap resigned
  execute_swap-Sent payer tx_b64 v w sig e =
      let (tx_bytes, e1, k1) = lift-ok _ _ sig v w e in
      let (tx, e2, k2) = lift-ok _ _ sig v w k1 in
      let fetched = call p.latest_blockhash (λ e. jupiter_swap (text "get blockhash: " ++ e)) v in
      let (blockhash, later, e3, k3) = and_then-ok fetched _ sig w k2 in
      record {
        tx_bytes = tx_bytes;
        decoded = of_reply-ok _ _ tx_bytes e1;
        tx = tx;
        read = of_reply-ok _ _ tx e2;
        blockhash = blockhash;
        later = later;
        fresh =
            call-ok p.latest_blockhash (λ e. jupiter_swap (text "get blockhash: " ++ e)) blockhash v
              later e3;
        new_tx = resigned p swaps base_url payer blockhash tx;
        message = refl;
        signatures = signed_first-drop _ tx.signatures;
        sent =
            call-ok (swaps.send_versioned (resigned p swaps base_url payer blockhash tx))
              (λ e. jupiter_swap (text "send_and_confirm: " ++ e)) sig later w k3;
      }

  -- The service was asked for a quote of this trade, in these words, and answered.
  pub record Quoted (input output : Text) (amount bps : ℕ) (quote : QuoteResponse) (v w : World)
      : Type 0 where
    pub response : Response
    pub heard_at : World
    pub accepted : Response
    pub asked :
        swaps.fetch
          (base_url
            ++ (text "/v6/quote?inputMint="
                ++ (input
                    ++ (text "&outputMint="
                        ++ (output
                            ++ (text "&amount="
                                ++ (decimal amount ++ (text "&slippageBps=" ++ decimal bps))))))))
          v
        ≡ (fine response, heard_at)
    pub well : swaps.accept_status response ≡ fine accepted
    pub read : swaps.read_quote accepted heard_at ≡ (fine quote, w)

  -- The service was sent this quote and the key that is to pay, and answered with a transaction.
  pub record Built (quote : QuoteResponse) (payer : Keypair) (tx_b64 : Text) (v w : World)
      : Type 0 where
    pub response : Response
    pub heard_at : World
    pub accepted : Response
    pub asked :
        swaps.post_swap
          (base_url ++ text "/v6/swap")
          (record {
            quote_response = quote;
            user_public_key = p.pubkey_to_string (p.pubkey_of payer);
            wrap_and_unwrap_sol = true;
            compute_unit_price_micro_lamports = none;
            as_legacy_transaction = false;
          })
          v
        ≡ (fine response, heard_at)
    pub well : swaps.accept_status response ≡ fine accepted
    pub read : swaps.read_swap accepted heard_at ≡ (fine tx_b64, w)

  get_quote-Quoted :
      (input output : Text) (amount bps : ℕ) (quote : QuoteResponse) (v w : World)
      → get_quote p swaps base_url input output amount bps v ≡ (ok quote, w)
      → Quoted input output amount bps quote v w
  unfolding get_quote
  get_quote-Quoted input output amount bps quote v w e =
      let url : Text =
        base_url
        ++ (text "/v6/quote?inputMint="
            ++ (input
                ++ (text "&outputMint="
                    ++ (output
                        ++ (text "&amount="
                            ++ (decimal amount ++ (text "&slippageBps=" ++ decimal bps))))))) in
      let (resp, heard, e1, k1) = and_then-ok (call (swaps.fetch url) http v) _ quote w e in
      let (accepted, e2, k2) = lift-ok _ _ quote heard w k1 in
      record {
        response = resp;
        heard_at = heard;
        accepted = accepted;
        asked = call-ok (swaps.fetch url) http resp v heard e1;
        well = of_reply-ok _ _ accepted e2;
        read = call-ok (swaps.read_quote accepted) jupiter_quote quote heard w k2;
      }

  get_swap_transaction-Built :
      (quote : QuoteResponse) (payer : Keypair) (tx_b64 : Text) (v w : World)
      → get_swap_transaction p swaps base_url quote (p.pubkey_of payer) none v ≡ (ok tx_b64, w)
      → Built quote payer tx_b64 v w
  unfolding get_swap_transaction
  get_swap_transaction-Built quote payer tx_b64 v w e =
      let body : SwapRequest = record {
        quote_response = quote;
        user_public_key = p.pubkey_to_string (p.pubkey_of payer);
        wrap_and_unwrap_sol = true;
        compute_unit_price_micro_lamports = none;
        as_legacy_transaction = false;
      } in
      let post = swaps.post_swap (base_url ++ text "/v6/swap") body in
      let (resp, heard, e1, k1) = and_then-ok (call post http v) _ tx_b64 w e in
      let (accepted, e2, k2) = lift-ok _ _ tx_b64 heard w k1 in
      record {
        response = resp;
        heard_at = heard;
        accepted = accepted;
        asked = call-ok post http resp v heard e1;
        well = of_reply-ok _ _ accepted e2;
        read = call-ok (swaps.read_swap accepted) jupiter_swap tx_b64 heard w k2;
      }

  -- A swap for `n` units out.
  pub record Swapped (input output : Text) (amount bps : ℕ) (payer : Keypair) (sig : Signature)
      (n : ℕ) (v w : World) : Type 0 where
    pub quote : QuoteResponse
    pub quoted_at : World
    pub quoted : Quoted input output amount bps quote v quoted_at
    pub promised : parse_u64 quote.out_amount ≡ some n
    pub tx_b64 : Text
    pub built_at : World
    pub built : Built quote payer tx_b64 quoted_at built_at
    pub executed : Sent payer tx_b64 built_at sig w

  -- A `swap` that succeeds asked, in the words of the URL, for a quote of exactly this trade and
  -- slippage, posted the quote that was answered with the payer's own key, and sent the transaction that
  -- was answered with two changes: a fresh block hash in its message, and the payer's signature of this
  -- message in place of its first signature. The amount that it returns is the one that the quote
  -- promised.
  pub swap-Swapped :
      (input output : Text) (amount bps : ℕ) (payer : Keypair) (v w : World) (sig : Signature)
      (n : ℕ)
      → swap p swaps base_url input output amount bps payer v ≡ (ok (sig, n), w)
      → Swapped input output amount bps payer sig n v w
  unfolding swap out_amount_u64
  swap-Swapped input output amount bps payer v w sig n e =
      let (quote, v1, e1, k1) = and_then-ok _ _ (sig, n) w e in
      let (out, e2, k2) = lift-ok _ _ (sig, n) v1 w k1 in
      let (tx_b64, v2, e3, k3) = and_then-ok _ _ (sig, n) w k2 in
      let (sig', v3, e4, k4) = and_then-ok _ _ (sig, n) w k3 in
      let (both, reached) = pure-ok (sig', out) (sig, n) v3 w k4 in
      let same : out ≡ n = ap (λ x. x.1) both in
      let signed : sig' ≡ sig = ap (λ x. x.0) both in
      record {
        quote = quote;
        quoted_at = v1;
        quoted = get_quote-Quoted input output amount bps quote v v1 e1;
        promised = ok_or-ok _ _ out e2 ∙ ap some same;
        tx_b64 = tx_b64;
        built_at = v2;
        built = get_swap_transaction-Built quote payer tx_b64 v1 v2 e3;
        executed =
            execute_swap-Sent payer tx_b64 v2 w sig
              (e4 ∙ (ap (λ x. (ok x, v3)) signed ∙ ap (λ y. (ok sig, y)) reached));
      }
