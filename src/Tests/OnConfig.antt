-- ===== src/Tests/OnConfig.antt =====
-- The theorems on `from_env`, applied to an environment with three variables.
use pump_poly_router.Base.{ℕ, ◌≡◌, refl, arith, [], ◌∷◌, Option, none, some, map, if◌then◌else◌}
use pump_poly_router.Text.{Text, text, text_eq, trim, decimal, parse_u16, parse_u32, parse_u64}
use pump_poly_router.Text.Parts.{join}
use pump_poly_router.Error.{ok}
use pump_poly_router.Config.{RouterConfig}
use pump_poly_router.Config.Env.{require, parsed_u16, parsed_u32, parsed_u64, assembled, from_env}
use pump_poly_router.Config.Env.Loaded.{Loaded, from_env-Loaded}
use pump_poly_router.Config.Env.Whitelist.{from_env-allowed_market_ids}

-- 18,446,744,073,710 USDC are more µUSDC than a u64 holds.
abbrev shell : Text → Option Text
shell key =
    if text_eq key (text "POLYGON_EXECUTOR_PRIVATE_KEY")
    then some (text "0x03")
    else if text_eq key (text "ALLOWED_MARKET_IDS")
    then some (join b',' (text "0xa") (text " 0xb" ∷ []))
    else if text_eq key (text "MAX_ORDER_USDC")
    then some (text "18446744073710")
    else none

abbrev loaded : RouterConfig
loaded = assembled shell 50 600 (text "0x03") 30 18_446_744_073_710 120 0 5

shell_loads : from_env shell ≡ ok loaded
unfolding from_env require parsed_u16 parsed_u32 parsed_u64 parse_u16 parse_u32 parse_u64 decimal
    text text_eq
shell_loads = refl

abbrev tiny_cap : ℕ
tiny_cap = 448_384

max_order_wraps : loaded.max_order_usdc_micro ≡ tiny_cap
max_order_wraps = refl

from_env-Loaded_example : Loaded shell loaded
from_env-Loaded_example = from_env-Loaded shell loaded shell_loads

ids_set : shell (text "ALLOWED_MARKET_IDS") ≡ some (join b',' (text "0xa") (text " 0xb" ∷ []))
unfolding text text_eq
ids_set = refl

from_env-allowed_market_ids_example :
    loaded.allowed_market_ids ≡ some (map trim (text "0xa" ∷ (text " 0xb" ∷ [])))
unfolding text
from_env-allowed_market_ids_example =
    from_env-allowed_market_ids shell loaded (text "0xa") (text " 0xb" ∷ []) (omega arith)
      (omega arith) (λ e. cc e) ids_set shell_loads
