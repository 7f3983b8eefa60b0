-- ===== src/Text/Parts.antt =====
-- `str::split` on a character, and `str::contains`.
use pump_poly_router.Base.{
  Bool, false, Option, none, some, ◌||◌, ℕ, ◌≡◌, ◌≢◌, refl, List, [], ◌∷◌, ◌++◌, ◌==◌, ==_refl,
  true, false, if◌then◌else◌, All, arith, ap, ◌∙◌,
}
use pump_poly_router.Text.{Text, strip_prefix}

-- The first part grows by a character.
unfoldable grow : ℕ → List Text → List Text
grow c [] = (c ∷ []) ∷ []
grow c (part ∷ parts) = (c ∷ part) ∷ parts

-- `s.split(sep)`: the empty text has one part.
unfoldable pub split : ℕ → Text → List Text
unfolding grow
split sep [] = [] ∷ []
split sep (c ∷ s) = let rest = split sep s in if c == sep then [] ∷ rest else grow c rest

-- The parts with a separator between them.
abbrev pub join : ℕ → Text → List Text → Text
join sep part [] = part
join sep part (next ∷ parts) = part ++ (sep ∷ join sep next parts)

split-part :
    (sep : ℕ) (part s : Text)
    → All (λ c. c ≢ sep) part
    → split sep (part ++ (sep ∷ s)) ≡ part ∷ split sep s
unfolding split grow
split-part sep [] s h = rw (==_refl sep) refl
split-part sep (c ∷ part) s (hc, h) = ground (arith, split-part sep part s h)

split-last : (sep : ℕ) (part : Text) → All (λ c. c ≢ sep) part → split sep part ≡ part ∷ []
unfolding split grow
split-last sep [] h = refl
split-last sep (c ∷ part) (hc, h) = ground (arith, split-last sep part h)

-- Parts without the separator come back from the joined text.
pub split-join :
    (sep : ℕ) (part : Text) (parts : List Text)
    → All (λ c. c ≢ sep) part
    → All (All (λ c. c ≢ sep)) parts
    → split sep (join sep part parts) ≡ part ∷ parts
split-join sep part [] h hs = split-last sep part h
split-join sep part (next ∷ parts) h (hn, hs) =
    split-part sep part (join sep next parts) h
    ∙ ap (λ x. part ∷ x) (split-join sep next parts hn hs)

abbrev is_prefix : Option Text → Bool
is_prefix none = false
is_prefix (some rest) = true

-- `s.contains(part)`
unfoldable pub contains : Text → Text → Bool
contains part [] = is_prefix (strip_prefix part [])
contains part (c ∷ s) = is_prefix (strip_prefix part (c ∷ s)) || contains part s
