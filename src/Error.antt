-- ===== src/Error.antt =====
-- src/error.rs: `RouterError`, its `Display`, and `Result`. The errors of foreign crates that are
-- wrapped by `#[from]` are carried as their printed text.
use pump_poly_router.Base.{ℕ, ◌≡◌, refl, ◌⊎◌, ◌++◌, Option, none, some}
use pump_poly_router.Text.{Text, text, decimal}

pub data RouterError : Type 0 where
  solana_rpc : Text → RouterError
  jupiter_quote : Text → RouterError
  jupiter_swap : Text → RouterError
  spl_token : Text → RouterError
  cctp_deposit : Text → RouterError
  cctp_attestation_timeout : ℕ → Text → RouterError
  cctp_attestation : Text → RouterError
  cctp_receive : Text → RouterError
  poly_order_post : Text → RouterError
  poly_fill_timeout : ℕ → Text → RouterError
  poly_resolver : Text → RouterError
  ctf_redeem : Text → RouterError
  order_not_found : Text → RouterError
  deadline_exceeded : Text → RouterError
  already_terminal : Text → RouterError
  http : Text → RouterError
  json : Text → RouterError
  io : Text → RouterError
  config : Text → RouterError
  other : Text → RouterError

-- `e.to_string()`
unfoldable pub display : RouterError → Text
display (solana_rpc m) = text "Solana RPC error: " ++ m
display (jupiter_quote m) = text "Jupiter quote failed: " ++ m
display (jupiter_swap m) = text "Jupiter swap failed: " ++ m
display (spl_token m) = text "SPL token error: " ++ m
display (cctp_deposit m) = text "CCTP deposit_for_burn failed: " ++ m
display (cctp_attestation_timeout secs hash) =
    text "CCTP attestation polling timed out after "
    ++ (decimal secs ++ (text "s for message hash " ++ hash))
display (cctp_attestation m) = text "CCTP attestation API error: " ++ m
display (cctp_receive m) = text "CCTP receiveMessage on Polygon failed: " ++ m
display (poly_order_post m) = text "Polymarket order posting failed: " ++ m
display (poly_fill_timeout secs order_id) =
    text "Polymarket order fill timed out after "
    ++ (decimal secs ++ (text "s for order " ++ order_id))
display (poly_resolver m) = text "Polymarket resolver error: " ++ m
display (ctf_redeem m) = text "CTF redeem failed: " ++ m
display (order_not_found m) = text "Order not found: " ++ m
display (deadline_exceeded m) = text "Order deadline exceeded for order " ++ m
display (already_terminal m) = text "Order already in terminal state: " ++ m
display (http m) = text "HTTP request error: " ++ m
display (json m) = text "JSON serialization error: " ++ m
display (io m) = text "I/O error: " ++ m
display (config m) = text "Configuration error: " ++ m
display (other m) = m

-- `Result<T>`, and a third way to end: `panic` is a thread that unwinds (an `unwrap` of `None`, an
-- index out of range).
pub data Result {ℓ} (A : Type ℓ) : Type ℓ where
  ok : A → Result A
  err : RouterError → Result A
  panic : Result A

infixl 5 ◌>>=◌
abbrev pub ◌>>=◌ {ℓ κ} : {A : Type ℓ} {B : Type κ} → Result A → (A → Result B) → Result B
ok a >>= f = f a
err e >>= f = err e
panic >>= f = panic

-- `.ok_or_else(|| e)`
abbrev pub ok_or {ℓ} : {A : Type ℓ} → Option A → RouterError → Result A
ok_or none e = err e
ok_or (some a) e = ok a

pub Result-cases {ℓ} :
    {A : Type ℓ} (r : Result A)
    → ((a : A) × (r ≡ ok a)) ⊎ (((e : RouterError) × (r ≡ err e)) ⊎ (r ≡ panic))
Result-cases (ok a) = ◌⊎◌.inl (a, refl)
Result-cases (err e) = ◌⊎◌.inr (◌⊎◌.inl (e, refl))
Result-cases panic = ◌⊎◌.inr (◌⊎◌.inr refl)

pub bind-ok {ℓ κ} :
    {A : Type ℓ} {B : Type κ} (r : Result A) (f : A → Result B) (b : B)
    → (r >>= f) ≡ ok b
    → (a : A) × (r ≡ ok a) × (f a ≡ ok b)
bind-ok (ok a) f b e = (a, refl, e)
bind-ok (err x) f b e = absurd (cc e)
bind-ok panic f b e = absurd (cc e)

pub ok_or-ok {ℓ} :
    {A : Type ℓ} (o : Option A) (e : RouterError) (a : A) → ok_or o e ≡ ok a → o ≡ some a
ok_or-ok none e a h = absurd (cc h)
ok_or-ok (some x) e a h = cc h
