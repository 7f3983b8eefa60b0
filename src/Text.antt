-- ===== src/Text.antt =====
-- Rust strings as lists of bytes, with the functions of `str`, `String` and `format!` that the
-- router uses. A literal is written `text "..."`, which stays shut.
pub mod Parts
use Prim.Native.Char.{code}
use Prim.Native.String.{String}
use pump_poly_router.Base.{
  ℕ, zero, suc, ◌||◌, reverse, ==_refl, ◌+◌, ◌-◌, ◌*◌, ◌/◌, ◌%◌, ◌≡◌, refl, ◌↔◌, Bool, true, false,
  ◌&&◌, List, [], ◌∷◌, ◌++◌, Option, none, some, arith, ltb, leb, ◌==◌, if◌then◌else◌, length,
  replicate, ◌≤◌, ◌<◌, ◌^◌, All, ◌≢◌, Option-cases, Bool-cases, inl, inr,
}

abbrev pub Text : Type 0
Text = List ℕ

-- The UTF-8 bytes of a code point below 0x10000.
utf8 : ℕ → Text
utf8 c =
    if ltb c 0x80
    then c ∷ []
    else if ltb c 0x800
    then (0xc0 + c / 64) ∷ (0x80 + c % 64) ∷ []
    else (0xe0 + c / 4096) ∷ (0x80 + c / 64 % 64) ∷ (0x80 + c % 64) ∷ []

-- The bytes of a literal.
unfoldable pub text : String → Text
unfolding utf8
text String.[] = []
text (String.◌∷◌ c s) = utf8 (code c) ++ text s

-- `a == b` on strings.
unfoldable pub text_eq : Text → Text → Bool
text_eq [] [] = true
text_eq [] (y ∷ ys) = false
text_eq (x ∷ xs) [] = false
text_eq (x ∷ xs) (y ∷ ys) = x == y && text_eq xs ys

pub text_eq_iff : (s t : Text) → (text_eq s t ≡ true) ↔ (s ≡ t)
unfolding text_eq
text_eq_iff [] [] = ((λ _. refl), (λ _. refl))
text_eq_iff [] (y ∷ ys) = ((λ h. cc), (λ h. cc))
text_eq_iff (x ∷ xs) [] = ((λ h. cc), (λ h. cc))
text_eq_iff (x ∷ xs) (y ∷ ys) =
    let (there, back) = text_eq_iff xs ys in
    ((λ h. ground (arith, there)), (λ h. ground (arith, back)))

-- `s.trim_start_matches("0x")` takes every leading `0x` off.
unfoldable pub trim_0x : Text → Text
trim_0x [] = []
trim_0x (a ∷ []) = a ∷ []
trim_0x (a ∷ b ∷ s) = if a == b'0' && b == b'x' then trim_0x s else a ∷ b ∷ s

-- `s.strip_prefix("0x").unwrap_or(s)` takes one off.
unfoldable pub strip_0x : Text → Text
strip_0x [] = []
strip_0x (a ∷ []) = a ∷ []
strip_0x (a ∷ b ∷ s) = if a == b'0' && b == b'x' then s else a ∷ b ∷ s

-- `s.strip_prefix(prefix)`
unfoldable pub strip_prefix : Text → Text → Option Text
strip_prefix [] s = some s
strip_prefix (p ∷ ps) [] = none
strip_prefix (p ∷ ps) (c ∷ s) = if p == c then strip_prefix ps s else none

pub strip_prefix-append : (p s : Text) → strip_prefix p (p ++ s) ≡ some s
unfolding strip_prefix
strip_prefix-append [] s = refl
strip_prefix-append (a ∷ p) s = rw (==_refl a) (strip_prefix-append p s)

abbrev is_space : ℕ → Bool
is_space c = c == 32 || leb 9 c && leb c 13

unfoldable trim_start : Text → Text
trim_start [] = []
trim_start (c ∷ s) = if is_space c then trim_start s else c ∷ s

-- `s.trim()` on ASCII white space.
unfoldable pub trim : Text → Text
unfolding trim_start
trim s = reverse (trim_start (reverse (trim_start s)))

-- `format!("{:0>width$}", s)`
unfoldable pub pad_left : ℕ → Text → Text
pad_left width s = replicate (width - length s) b'0' ++ s

-- The digits of `n` in a base, on fuel: `n < base ^ fuel` is enough.
unfoldable digits_in : ℕ → (ℕ → ℕ) → ℕ → ℕ → Text
digits_in base glyph zero n = []
digits_in base glyph (suc fuel) n =
    let rest = digits_in base glyph fuel (n / base) in
    if ltb n base then glyph n ∷ [] else rest ++ (glyph (n % base) ∷ [])

-- `n.to_string()` of an unsigned integer of at most 128 bits.
unfoldable pub decimal : ℕ → Text
unfolding digits_in
decimal n = digits_in 10 (λ d. b'0' + d) 39 n

-- A lower-case hex digit, and `format!("{:x}", n)`.
unfoldable pub hex_digit : ℕ → ℕ
hex_digit d = if ltb d 10 then b'0' + d else b'a' + (d - 10)

unfoldable pub lower_hex : ℕ → Text
unfolding digits_in hex_digit
lower_hex n = digits_in 16 hex_digit 32 n

-- The value of a digit for `from_str_radix(_, 16)`.
unfoldable pub hex_value : ℕ → Option ℕ
hex_value c =
    if leb b'0' c && leb c b'9'
    then some (c - b'0')
    else if leb b'a' c && leb c b'f'
    then some (c - b'a' + 10)
    else if leb b'A' c && leb c b'F'
    then some (c - b'A' + 10)
    else none

decimal_check : decimal 1024 ≡ text "1024"
unfolding decimal text
decimal_check = refl

lower_hex_check : lower_hex 0x57ec ≡ text "57ec"
unfolding lower_hex text
lower_hex_check = refl

trim_0x_check : trim_0x (text "0x0xab") ≡ text "ab"
unfolding trim_0x text
trim_0x_check = refl

-- The value of a decimal digit for `str::parse`.
unfoldable decimal_value : ℕ → Option ℕ
decimal_value c = if leb b'0' c && leb c b'9' then some (c - b'0') else none

-- The digits of an unsigned number below `bound`, read from the left.
unfoldable parse_digits : ℕ → (ℕ → Option ℕ) → ℕ → ℕ → Text → Option ℕ
parse_digits base value bound acc [] = some acc
parse_digits base value bound acc (c ∷ s) = elim (value c) [
  | none ↦ none
  | some d ↦
      if ltb (acc * base + d) bound then parse_digits base value bound (acc * base + d) s else none
]

-- A number has a digit, and may have a plus sign before it.
unfoldable parse_unsigned : ℕ → (ℕ → Option ℕ) → ℕ → Text → Option ℕ
unfolding parse_digits
parse_unsigned base value bound [] = none
parse_unsigned base value bound (c ∷ []) = parse_digits base value bound 0 (c ∷ [])
parse_unsigned base value bound (c ∷ d ∷ s) =
    if c == b'+'
    then parse_digits base value bound 0 (d ∷ s)
    else parse_digits base value bound 0 (c ∷ d ∷ s)

-- `u64::from_str_radix(s, 16)`
unfoldable pub parse_hex_u64 : Text → Option ℕ
unfolding parse_unsigned hex_value
parse_hex_u64 s = parse_unsigned 16 hex_value 18446744073709551616 s

-- `s.parse::<u64>()`
unfoldable pub parse_u64 : Text → Option ℕ
unfolding parse_unsigned decimal_value
parse_u64 s = parse_unsigned 10 decimal_value 18446744073709551616 s

-- `s.parse::<u32>()`
unfoldable pub parse_u32 : Text → Option ℕ
unfolding parse_unsigned decimal_value
parse_u32 s = parse_unsigned 10 decimal_value 4294967296 s

-- `s.parse::<u16>()`
unfoldable pub parse_u16 : Text → Option ℕ
unfolding parse_unsigned decimal_value
parse_u16 s = parse_unsigned 10 decimal_value 65536 s

parse_digits-lt :
    (base : ℕ) (value : ℕ → Option ℕ) (bound acc : ℕ) (s : Text) (n : ℕ)
    → acc < bound
    → parse_digits base value bound acc s ≡ some n
    → n < bound
unfolding parse_digits
parse_digits-lt base value bound acc [] n h e = ground arith
parse_digits-lt base value bound acc (c ∷ s) n h e = elim (Option-cases (value c)) [
  | inl none_there ↦ ground arith
  | inr (d, found) ↦ ground (arith, parse_digits-lt base value bound (acc * base + d) s n)
]

parse_unsigned-lt :
    (base : ℕ) (value : ℕ → Option ℕ) (bound : ℕ) (s : Text) (n : ℕ)
    → 0 < bound
    → parse_unsigned base value bound s ≡ some n
    → n < bound
unfolding parse_unsigned
parse_unsigned-lt base value bound [] n h e = cc
parse_unsigned-lt base value bound (c ∷ []) n h e =
    parse_digits-lt base value bound 0 (c ∷ []) n h e
parse_unsigned-lt base value bound (c ∷ d ∷ s) n h e = elim (Bool-cases (c == b'+')) [
  | inl plus ↦ parse_digits-lt base value bound 0 (d ∷ s) n h (rw plus at e)
  | inr digit ↦ parse_digits-lt base value bound 0 (c ∷ d ∷ s) n h (rw digit at e)
]

pub parse_hex_u64-lt : (s : Text) {n : ℕ} → parse_hex_u64 s ≡ some n → n < 2 ^ 64
parse_hex_u64-lt s {n} e =
    parse_unsigned-lt 16 hex_value _ s n (omega arith) (unfold parse_hex_u64 in e)

parse_hex_u64_check : parse_hex_u64 (text "57ec") ≡ some 0x57ec
unfolding parse_hex_u64 text
parse_hex_u64_check = refl

-- A text with no `x` in it has no prefix to trim, and one `0x` before it is trimmed.
pub trim_0x_digits : (t : Text) → All (λ c. c ≢ b'x') t → trim_0x (text "0x" ++ t) ≡ t
unfolding trim_0x text
trim_0x_digits [] h = refl
trim_0x_digits (a ∷ []) h = refl
trim_0x_digits (a ∷ b ∷ t) (ha, (hb, h)) = ground arith

pub length-trim_0x : (t : Text) → length (trim_0x t) ≤ length t
unfolding trim_0x
length-trim_0x [] = omega arith
length-trim_0x (a ∷ []) = omega arith
length-trim_0x (a ∷ b ∷ t) = ground (arith, length-trim_0x t)
