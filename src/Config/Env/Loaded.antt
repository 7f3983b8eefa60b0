-- ===== src/Config/Env/Loaded.antt =====
-- What a configuration that `from_env` of src/config.rs returned says of the environment.
use pump_poly_router.Base.{
  ℕ, ◌*◌, ◌≡◌, ◌⊎◌, inl, inr, refl, sym, ap, ◌∙◌, subst, Option, none, some,
}
use pump_poly_router.Text.{Text, text, decimal, parse_u16, parse_u32, parse_u64}
use pump_poly_router.Words.{u64}
use pump_poly_router.Error.{ok, ok_or-ok, bind-ok}
use pump_poly_router.Config.{RouterConfig}
use pump_poly_router.Config.Env.{
  or_default, require, assembled, parsed_u16, parsed_u32, parsed_u64, from_env,
}

-- A numeric setting: the variable is not set and the number is the default, or it is set to a text
-- that parses to the number.
abbrev pub Setting : Option Text → (Text → Option ℕ) → ℕ → ℕ → Type 0
Setting value parse default n =
    ((value ≡ none) × (n ≡ default)) ⊎ ((t : Text) × (value ≡ some t) × (parse t ≡ some n))

setting :
    (value : Option Text) (parse : Text → Option ℕ) (default n : ℕ)
    → parse (decimal default) ≡ some default
    → parse (or_default (decimal default) value) ≡ some n
    → Setting value parse default n
setting none parse default n d e =
    inl (refl, ap (λ o. elim o [ none ↦ n | some m ↦ m ]) (sym e ∙ d))
setting (some t) parse default n d e = inr (t, refl, e)

-- A configuration that the environment gives.
pub record Loaded (env : Text → Option Text) (cfg : RouterConfig) : Type 0 where
  pub executor_key :
      env (text "POLYGON_EXECUTOR_PRIVATE_KEY") ≡ some cfg.polygon_executor_private_key
  pub slippage : Setting (env (text "JUPITER_SLIPPAGE_BPS")) parse_u16 50 cfg.jupiter_slippage_bps
  pub attestation_timeout :
      Setting
        (env (text "CCTP_ATTESTATION_TIMEOUT_SECS"))
        parse_u64
        600
        cfg.cctp_attestation_timeout_secs
  pub fee : Setting (env (text "PROTOCOL_FEE_BPS")) parse_u16 30 cfg.protocol_fee_bps
  pub fill_timeout :
      Setting
        (env (text "POLY_ORDER_FILL_TIMEOUT_SECS"))
        parse_u64
        120
        cfg.poly_order_fill_timeout_secs
  pub threshold :
      Setting
        (env (text "CIRCUIT_BREAKER_FAILURES"))
        parse_u32
        5
        cfg.circuit_breaker_failure_threshold
  pub max_order :
      (n : ℕ) × Setting (env (text "MAX_ORDER_USDC")) parse_u64 1000 n
      × (cfg.max_order_usdc_micro ≡ u64 (n * 1_000_000))
  pub daily_cap :
      (n : ℕ) × Setting (env (text "DAILY_VOLUME_CAP_USDC")) parse_u64 0 n
      × (cfg.daily_volume_cap_usdc_micro ≡ u64 (n * 1_000_000))

parse_default_u16 : (parse_u16 (decimal 50) ≡ some 50) × (parse_u16 (decimal 30) ≡ some 30)
unfolding parse_u16 decimal
parse_default_u16 = (refl, refl)

parse_default_u32 : parse_u32 (decimal 5) ≡ some 5
unfolding parse_u32 decimal
parse_default_u32 = refl

parse_default_u64 :
    (parse_u64 (decimal 600) ≡ some 600)
    × (parse_u64 (decimal 1000) ≡ some 1000)
    × (parse_u64 (decimal 120) ≡ some 120)
    × (parse_u64 (decimal 0) ≡ some 0)
unfolding parse_u64 decimal
parse_default_u64 = (refl, refl, refl, refl)

module _ (env : Text → Option Text) (key : Text) (default n : ℕ) where
  parsed_u16-Setting :
      parse_u16 (decimal default) ≡ some default
      → parsed_u16 env key default ≡ ok n
      → Setting (env key) parse_u16 default n
  unfolding parsed_u16
  parsed_u16-Setting d e = setting (env key) parse_u16 default n d (ok_or-ok _ _ n e)

  parsed_u32-Setting :
      parse_u32 (decimal default) ≡ some default
      → parsed_u32 env key default ≡ ok n
      → Setting (env key) parse_u32 default n
  unfolding parsed_u32
  parsed_u32-Setting d e = setting (env key) parse_u32 default n d (ok_or-ok _ _ n e)

  parsed_u64-Setting :
      parse_u64 (decimal default) ≡ some default
      → parsed_u64 env key default ≡ ok n
      → Setting (env key) parse_u64 default n
  unfolding parsed_u64
  parsed_u64-Setting d e = setting (env key) parse_u64 default n d (ok_or-ok _ _ n e)

ok-injective {ℓ} : {A : Type ℓ} {a b : A} → ok a ≡ ok b → a ≡ b
ok-injective e = cc e

module _ (env : Text → Option Text) where
  -- The settings that were read on the way to a configuration.
  pub record Readings (cfg : RouterConfig) : Type 0 where
    pub slippage : ℕ
    pub slippage_read : parsed_u16 env (text "JUPITER_SLIPPAGE_BPS") 50 ≡ ok slippage
    pub timeout : ℕ
    pub timeout_read : parsed_u64 env (text "CCTP_ATTESTATION_TIMEOUT_SECS") 600 ≡ ok timeout
    pub key : Text
    pub key_read : require env (text "POLYGON_EXECUTOR_PRIVATE_KEY") ≡ ok key
    pub fee : ℕ
    pub fee_read : parsed_u16 env (text "PROTOCOL_FEE_BPS") 30 ≡ ok fee
    pub max_order : ℕ
    pub max_order_read : parsed_u64 env (text "MAX_ORDER_USDC") 1000 ≡ ok max_order
    pub fill : ℕ
    pub fill_read : parsed_u64 env (text "POLY_ORDER_FILL_TIMEOUT_SECS") 120 ≡ ok fill
    pub cap : ℕ
    pub cap_read : parsed_u64 env (text "DAILY_VOLUME_CAP_USDC") 0 ≡ ok cap
    pub threshold : ℕ
    pub threshold_read : parsed_u32 env (text "CIRCUIT_BREAKER_FAILURES") 5 ≡ ok threshold
    pub whole : assembled env slippage timeout key fee max_order fill cap threshold ≡ cfg

  pub from_env-Readings : (cfg : RouterConfig) → from_env env ≡ ok cfg → Readings cfg
  unfolding from_env
  from_env-Readings cfg e =
      let (slippage, e1, k1) = bind-ok (parsed_u16 env (text "JUPITER_SLIPPAGE_BPS") 50) _ cfg e in
      let (timeout, e2, k2) =
        bind-ok (parsed_u64 env (text "CCTP_ATTESTATION_TIMEOUT_SECS") 600) _ cfg k1 in
      let (key, e3, k3) = bind-ok (require env (text "POLYGON_EXECUTOR_PRIVATE_KEY")) _ cfg k2 in
      let (fee, e4, k4) = bind-ok (parsed_u16 env (text "PROTOCOL_FEE_BPS") 30) _ cfg k3 in
      let (max_order, e5, k5) = bind-ok (parsed_u64 env (text "MAX_ORDER_USDC") 1000) _ cfg k4 in
      let (fill, e6, k6) =
        bind-ok (parsed_u64 env (text "POLY_ORDER_FILL_TIMEOUT_SECS") 120) _ cfg k5 in
      let (cap, e7, k7) = bind-ok (parsed_u64 env (text "DAILY_VOLUME_CAP_USDC") 0) _ cfg k6 in
      let (threshold, e8, k8) =
        bind-ok (parsed_u32 env (text "CIRCUIT_BREAKER_FAILURES") 5) _ cfg k7 in
      record {
        slippage = slippage;
        slippage_read = e1;
        timeout = timeout;
        timeout_read = e2;
        key = key;
        key_read = e3;
        fee = fee;
        fee_read = e4;
        max_order = max_order;
        max_order_read = e5;
        fill = fill;
        fill_read = e6;
        cap = cap;
        cap_read = e7;
        threshold = threshold;
        threshold_read = e8;
        whole = ok-injective k8;
      }

  Readings-Loaded : (cfg : RouterConfig) → Readings cfg → Loaded env cfg
  unfolding require
  Readings-Loaded cfg r = subst (Loaded env) r.whole (record {
    executor_key = ok_or-ok _ _ r.key r.key_read;
    slippage = parsed_u16-Setting env _ 50 r.slippage parse_default_u16.0 r.slippage_read;
    attestation_timeout = parsed_u64-Setting env _ 600 r.timeout parse_default_u64.0 r.timeout_read;
    fee = parsed_u16-Setting env _ 30 r.fee parse_default_u16.1 r.fee_read;
    fill_timeout = parsed_u64-Setting env _ 120 r.fill parse_default_u64.2 r.fill_read;
    threshold = parsed_u32-Setting env _ 5 r.threshold parse_default_u32 r.threshold_read;
    max_order = (
      r.max_order,
      parsed_u64-Setting env _ 1000 r.max_order parse_default_u64.1 r.max_order_read,
      refl,
    );
    daily_cap = (r.cap, parsed_u64-Setting env _ 0 r.cap parse_default_u64.3 r.cap_read, refl);
  })

  -- A configuration that `from_env` returns has the required key from its variable; every numeric
  -- setting is the default of a variable that is not set, or what the variable's text parses to as an
  -- integer of its width; and the two amounts are that many USDC in µUSDC, modulo 2 ^ 64.
  pub from_env-Loaded : (cfg : RouterConfig) → from_env env ≡ ok cfg → Loaded env cfg
  from_env-Loaded cfg e = Readings-Loaded cfg (from_env-Readings cfg e)
