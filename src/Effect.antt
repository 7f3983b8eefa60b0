-- ===== src/Effect.antt =====
-- Actions: code that may fail and that reads or changes the world outside the process. The world
-- that was reached comes back beside an error too.
use pump_poly_router.Base.{◌≡◌, ◌⊎◌, inl, inr, refl, sym, ap, ◌∙◌}
use pump_poly_router.Text.{Text}
use pump_poly_router.Error.{RouterError, display, Result, ok, err, panic}
use pump_poly_router.External.{Reply, fine, fault}

abbrev pub Action {ℓ κ} : Type ℓ → Type κ → Type (ℓ ⊔ κ)
Action World A = World → Result A × World

-- `reply.map_err(wrap)` for a foreign crate's result.
abbrev pub of_reply {ℓ} : {A : Type ℓ} → Reply A → (Text → RouterError) → Result A
of_reply (fine a) wrap = ok a
of_reply (fault e) wrap = err (wrap e)

-- A call of a foreign crate, with what the code makes of its error.
abbrev pub converted {ℓ κ} :
    {World : Type ℓ} {A : Type κ} → (Text → RouterError) → Reply A × World → Result A × World
converted wrap (fine a, w) = (ok a, w)
converted wrap (fault e, w) = (err (wrap e), w)

abbrev pub call {ℓ κ} :
    {World : Type ℓ} {A : Type κ}
    → (World → Reply A × World)
    → (Text → RouterError)
    → Action World A
call f wrap w = converted wrap (f w)

module _ {ℓ κ} {World : Type ℓ} {A : Type κ} where
  abbrev pub pure : A → Action World A
  pure a w = (ok a, w)

  abbrev pub fail : RouterError → Action World A
  fail e w = (err e, w)

  abbrev pub lift : Result A → Action World A
  lift r w = (r, w)

module _ {ℓ κ ι} {World : Type ℓ} {A : Type κ} {B : Type ι} where
  abbrev pub and_then : Result A × World → (A → Action World B) → Result B × World
  and_then (ok a, w) f = f a w
  and_then (err e, w) f = (err e, w)
  and_then (panic, w) f = (panic, w)

  infixl 5 ◌>>=◌
  abbrev pub ◌>>=◌ : Action World A → (A → Action World B) → Action World B
  ◌>>=◌ m f w = and_then (m w) f

abbrev pub rewrapped {ℓ κ} :
    {World : Type ℓ} {A : Type κ} → (Text → RouterError) → Result A × World → Result A × World
rewrapped wrap (ok a, w) = (ok a, w)
rewrapped wrap (err e, w) = (err (wrap (display e)), w)
rewrapped wrap (panic, w) = (panic, w)

-- `.map_err(|e| wrap(e.to_string()))` on an awaited call of the router's own.
abbrev pub failed_as {ℓ κ} :
    {World : Type ℓ} {A : Type κ} → (Text → RouterError) → Action World A → Action World A
failed_as wrap m w = rewrapped wrap (m w)

module _ {World A : Type 0} (f : World → Reply A × World) (wrap : Text → RouterError) where
  converted-cases :
      (out : Reply A × World)
      → ((a : A) × (w : World) × (out ≡ (fine a, w)) × (converted wrap out ≡ (ok a, w)))
        ⊎ ((e : Text) × (w : World) × (converted wrap out ≡ (err (wrap e), w)))
  converted-cases (fine a, w) = inl (a, w, refl, refl)
  converted-cases (fault e, w) = inr (e, w, refl)

  -- A call returns what the crate answered, or its wrapped error.
  pub call-cases :
      (v : World)
      → ((a : A) × (w : World) × (f v ≡ (fine a, w)) × (call f wrap v ≡ (ok a, w)))
        ⊎ ((e : Text) × (w : World) × (call f wrap v ≡ (err (wrap e), w)))
  call-cases v = converted-cases (f v)

-- What a call that succeeded was answered.
pub call-ok :
    {World A : Type 0} (f : World → Reply A × World) (wrap : Text → RouterError) (a : A)
    (v w : World)
    → call f wrap v ≡ (ok a, w)
    → f v ≡ (fine a, w)
call-ok f wrap a v w e = elim (call-cases f wrap v) [
  | inr (m, u, shown) ↦ absurd (cc (sym shown ∙ e))
  | inl (a', u, got, shown) ↦
      let seen = sym shown ∙ e in
      let same : a' ≡ a = cc seen in
      let there : u ≡ w = cc seen in
      got ∙ (ap (λ x. (fine x, u)) same ∙ ap (λ y. (fine a, y)) there)
]

-- An action in two parts succeeds where both do.
pub and_then-ok :
    {World A B : Type 0} (out : Result A × World) (f : A → Action World B) (b : B) (w : World)
    → and_then out f ≡ (ok b, w)
    → (a : A) × (v : World) × (out ≡ (ok a, v)) × (f a v ≡ (ok b, w))
and_then-ok (ok a, v) f b w e = (a, v, refl, e)
and_then-ok (err x, v) f b w e = absurd (cc e)
and_then-ok (panic, v) f b w e = absurd (cc e)

-- A lifted result does not touch the world.
pub lift-ok :
    {World A B : Type 0} (r : Result A) (f : A → Action World B) (b : B) (v w : World)
    → and_then (lift r v) f ≡ (ok b, w)
    → (a : A) × (r ≡ ok a) × (f a v ≡ (ok b, w))
lift-ok (ok a) f b v w e = (a, refl, e)
lift-ok (err x) f b v w e = absurd (cc e)
lift-ok panic f b v w e = absurd (cc e)

pub of_reply-ok :
    {A : Type 0} (r : Reply A) (wrap : Text → RouterError) (a : A)
    → of_reply r wrap ≡ ok a
    → r ≡ fine a
of_reply-ok (fine x) wrap a e = cc e
of_reply-ok (fault m) wrap a e = absurd (cc e)

pub pure-ok :
    {World A : Type 0} (a b : A) (v w : World)
    → pure {World = World} a v ≡ (ok b, w)
    → (a ≡ b) × (v ≡ w)
pure-ok a b v w e = (cc e, ap (λ out. out.1) e)
