-- ===== src/Config/Env/Whitelist.antt =====
-- The market whitelist that `from_env` of src/config.rs reads from ALLOWED_MARKET_IDS.
use pump_poly_router.Base.{◌≡◌, ◌≢◌, refl, sym, ap, ◌∙◌, List, [], ◌∷◌, Option, some, map, All}
use pump_poly_router.Text.{Text, text, trim}
use pump_poly_router.Text.Parts.{join, split-join}
use pump_poly_router.Error.{ok}
use pump_poly_router.Config.{RouterConfig}
use pump_poly_router.Config.Env.{filled, market_ids, from_env}
use pump_poly_router.Config.Env.Loaded.{Readings, from_env-Readings}

filled-some : (t : Text) → t ≢ [] → filled (some t) ≡ some t
filled-some [] h = absurd (h refl)
filled-some (c ∷ t) h = refl

module _ (env : Text → Option Text) (cfg : RouterConfig) where
  allowed_read :
      Readings env cfg
      → market_ids (filled (env (text "ALLOWED_MARKET_IDS"))) ≡ cfg.allowed_market_ids
  allowed_read r = ap (λ c. c.allowed_market_ids) r.whole

  -- Where ALLOWED_MARKET_IDS is a text that is not empty, of parts without a comma with commas
  -- between them, the whitelist of the configuration that `from_env` returns is exactly these parts,
  -- in order and trimmed.
  pub from_env-allowed_market_ids :
      (first : Text) (others : List Text)
      → All (λ c. c ≢ b',') first
      → All (All (λ c. c ≢ b',')) others
      → join b',' first others ≢ []
      → env (text "ALLOWED_MARKET_IDS") ≡ some (join b',' first others)
      → from_env env ≡ ok cfg
      → cfg.allowed_market_ids ≡ some (map trim (first ∷ others))
  from_env-allowed_market_ids first others h hs filled_in set e =
      sym (allowed_read (from_env-Readings env cfg e))
      ∙ (ap (λ v. market_ids (filled v)) set
          ∙ (ap market_ids (filled-some (join b',' first others) filled_in)
              ∙ ap (λ parts. some (map trim parts)) (split-join b',' first others h hs)))
