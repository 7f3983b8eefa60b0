-- ===== src/Polymarket/Resolver/Client.antt =====
-- `ConditionResolver` of src/polymarket/resolver.rs: the `eth_getLogs` call.
use pump_poly_router.Base.{Option}
use pump_poly_router.Text.{Text, text}
use pump_poly_router.Error.{poly_resolver, http}
use pump_poly_router.Effect.{Action, call, lift, ◌>>=◌}
use pump_poly_router.External.{HexCodec, Net, Body, str, num, arr, obj, nil, cons, stop, field}
use pump_poly_router.Polymarket.Resolver.{ResolutionOutcome, normalise_bytes32, read_logs}

-- `ConditionResolver`, without its HTTP client.
pub record ConditionResolver : Type 0 where
  pub polygon_rpc : Text
  pub ctf_address : Text

abbrev condition_resolution_topic : Text
condition_resolution_topic =
    text "0xb8da7db0a8a9d1046bd78f1a7ab0a9c4537a8900bfeeac52d8e7c5c81ef76b37"

-- The body of the `eth_getLogs` call.
abbrev pub get_logs_body : Text → Text → Body
get_logs_body ctf_address topic1 = obj (
    field (text "jsonrpc") (str (text "2.0")) (
      field (text "method") (str (text "eth_getLogs")) (
        field (text "params")
          (arr (
            cons
              (obj (
                field (text "address") (str ctf_address) (
                  field (text "topics")
                    (arr (cons (str condition_resolution_topic) (cons (str topic1) nil)))
                    (field (text "fromBlock") (str (text "earliest"))
                      (field (text "toBlock") (str (text "latest")) stop)))))
              nil))
          (field (text "id") (num 1) stop))))

module _ {World Response Json : Type 0} (net : Net World Response Json) (hex : HexCodec) where
  unfoldable pub is_resolved : ConditionResolver → Text → Action World (Option ResolutionOutcome)
  is_resolved resolver condition_id = do
    topic1 ← lift (normalise_bytes32 condition_id)
    resp ← call (net.post resolver.polygon_rpc (get_logs_body resolver.ctf_address topic1)) http
    json ← call (net.read_json resp) poly_resolver
    lift (read_logs net hex condition_id json)
