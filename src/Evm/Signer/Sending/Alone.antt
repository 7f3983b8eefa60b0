-- ===== src/Evm/Signer/Sending/Alone.antt =====
-- A call of `send_transaction` of src/evm/signer.rs that nothing interrupts, cut at its awaits.
use pump_poly_router.Base.{ℕ, zero, suc, ◌≡◌, refl}
use pump_poly_router.Text.{Text}
use pump_poly_router.Error.{Result, ok, err, panic}
use pump_poly_router.External.{HexCodec, Crypto, Net}
use pump_poly_router.Effect.{Action, and_then}
use pump_poly_router.Evm.Signer.{EvmWallet}
use pump_poly_router.Evm.Signer.Rpc.{get_nonce, get_gas_price, estimate_gas, send_transaction}
use pump_poly_router.Evm.Signer.Sending.{
  Job, Stage, holding, numbered, priced, limited, finished, continue, broadcast, resume,
}

abbrev pub finish : {World : Type 0} → Result Text × World → Stage × World
finish (r, w) = (finished r, w)

module _ {World Response Json : Type 0} (net : Net World Response Json) (hex : HexCodec)
    (crypto : Crypto) (wallet : EvmWallet) (rpc_url : Text) (job : Job) where
  -- `n` times from await to await.
  unfoldable pub run : ℕ → Stage × World → Stage × World
  run zero out = out
  run (suc n) (s, w) = run n (resume net hex crypto wallet rpc_url job s w)

  run-finished : (n : ℕ) (r : Result Text) (w : World) → run n (finished r, w) ≡ (finished r, w)
  unfolding run resume
  run-finished zero r w = refl
  run-finished (suc n) r w = run-finished n r w

  run-continue :
      {A : Type 0} (n : ℕ) (f : A → Stage) (g : A → Action World Text) (out : Result A × World)
      → ((a : A) (w : World) → run n (f a, w) ≡ finish (g a w))
      → run n (continue f out) ≡ finish (and_then out g)
  run-continue n f g (ok a, w) h = h a w
  run-continue n f g (err e, w) h = run-finished n (err e) w
  run-continue n f g (panic, w) h = run-finished n panic w

  run-last :
      (out : Result Text × World) → run 0 (continue (λ hash. finished (ok hash)) out) ≡ finish out
  unfolding run
  run-last (ok hash, w) = refl
  run-last (err e, w) = refl
  run-last (panic, w) = refl

  -- Four awaits after taking the lock, a call that nothing interrupts has returned, with the result of
  -- `send_transaction` and in its world.
  pub run-send_transaction :
      (w : World)
      → run 4 (holding, w)
        ≡ finish (send_transaction net hex crypto wallet rpc_url job.to job.calldata job.value w)
  unfolding run resume send_transaction broadcast
  run-send_transaction w = run-continue 3 numbered _ (get_nonce net wallet rpc_url w) (λ nonce w1.
      run-continue 2 (priced nonce) _ (get_gas_price net rpc_url w1) (λ gas_price w2.
        run-continue 1 (limited nonce gas_price) _
          (estimate_gas net wallet rpc_url job.to job.calldata w2)
          (λ gas_limit w3.
            run-last (broadcast net hex crypto wallet rpc_url job nonce gas_price gas_limit w3))))
