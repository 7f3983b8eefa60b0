-- ===== src/Tests/Codecs.antt =====
-- A concrete instance of the foreign codecs: hexadecimal, and stand-ins of the right sizes for the
-- hash and the signature.
use pump_poly_router.Base.{
  ℕ, ◌+◌, ◌*◌, ◌/◌, ◌%◌, ◌<◌, ◌≡◌, ◌≢◌, refl, List, [], ◌∷◌, Option, none, some, arith, length, All,
  replicate, All-replicate, Option-cases, inl, inr,
}
use pump_poly_router.Text.{Text, text, hex_digit, hex_value}
use pump_poly_router.Words.{IsByte}
use pump_poly_router.External.{Reply, fine, fault, HexCodec, IsHex, Crypto, IsCrypto}

unfoldable pub to_hex : List ℕ → Text
to_hex [] = []
to_hex (b ∷ bs) = hex_digit (b / 16 % 16) ∷ hex_digit (b % 16) ∷ to_hex bs

-- One more byte in front.
abbrev more : Option ℕ → Option ℕ → Reply (List ℕ) → Reply (List ℕ)
more (some a) (some b) (fine bs) = fine ((a * 16 + b) ∷ bs)
more (some a) (some b) (fault e) = fault e
more (some a) none rest = fault (text "invalid character")
more none b rest = fault (text "invalid character")

unfoldable pub from_hex : Text → Reply (List ℕ)
from_hex [] = fine []
from_hex (c ∷ []) = fault (text "odd number of digits")
from_hex (c ∷ d ∷ t) = more (hex_value c) (hex_value d) (from_hex t)

hex_value-hex_digit : (d : ℕ) → d < 16 → hex_value (hex_digit d) ≡ some d
unfolding hex_value hex_digit
hex_value-hex_digit d h = ground arith

hex_value-lt : (c d : ℕ) → hex_value c ≡ some d → d < 16
unfolding hex_value
hex_value-lt c d h = ground arith

hex_digit-ne : (d : ℕ) → d < 16 → hex_digit d ≢ b'x'
unfolding hex_digit
hex_digit-ne d h = ground arith

decode-encode : (bs : List ℕ) → All IsByte bs → from_hex (to_hex bs) ≡ fine bs
unfolding from_hex to_hex
decode-encode [] h = refl
decode-encode (b ∷ bs) (hb, h) =
    let joined : b / 16 % 16 * 16 + b % 16 ≡ b = omega arith in
    rw (hex_value-hex_digit (b / 16 % 16) (omega arith), hex_value-hex_digit (b % 16) (omega arith))
      (rw (decode-encode bs h) (rw joined))

encode_digits : (bs : List ℕ) → All (λ c. c ≢ b'x') (to_hex bs)
unfolding to_hex
encode_digits [] = tt
encode_digits (b ∷ bs) = (
  hex_digit-ne (b / 16 % 16) (omega arith),
  (hex_digit-ne (b % 16) (omega arith), encode_digits bs),
)

length-encode : (bs : List ℕ) → length (to_hex bs) ≡ 2 * length bs
unfolding to_hex
length-encode [] = refl
length-encode (b ∷ bs) = omega (arith, length-encode bs)

abbrev Sound : Text → Reply (List ℕ) → Type 0
Sound t (fine bs) = (length t ≡ 2 * length bs) × All IsByte bs
Sound t (fault e) = Unit

more-Sound :
    (c d : ℕ) (t : Text) (rest : Reply (List ℕ))
    → Sound t rest
    → Sound (c ∷ d ∷ t) (more (hex_value c) (hex_value d) rest)
more-Sound c d t (fault e) h = elim (Option-cases (hex_value c)) [
  | inl bad ↦ rw bad tt
  | inr (a, good) ↦ elim (Option-cases (hex_value d)) [
    | inl bad ↦ rw (good, bad) tt
    | inr (b, also) ↦ rw (good, also) tt
  ]
]
more-Sound c d t (fine bs) (len, all) = elim (Option-cases (hex_value c)) [
  | inl bad ↦ rw bad tt
  | inr (a, good) ↦ elim (Option-cases (hex_value d)) [
    | inl bad ↦ rw (good, bad) tt
    | inr (b, also) ↦
        rw (good, also)
          ((omega arith), (omega (arith, hex_value-lt c a good, hex_value-lt d b also), all))
  ]
]

from_hex-Sound : (t : Text) → Sound t (from_hex t)
unfolding from_hex
from_hex-Sound [] = (refl, tt)
from_hex-Sound (c ∷ []) = tt
from_hex-Sound (c ∷ d ∷ t) = more-Sound c d t (from_hex t) (from_hex-Sound t)

Sound-fine : (t : Text) (bs : List ℕ) → from_hex t ≡ fine bs → Sound t (fine bs)
Sound-fine t bs e = rw e at (from_hex-Sound t)

abbrev pub hex_codec : HexCodec
hex_codec = record { hex_encode = to_hex; hex_decode = from_hex }

pub hex_codec-IsHex : IsHex hex_codec
hex_codec-IsHex = record {
  decode-encode = decode-encode;
  encode_digits = encode_digits;
  length-encode = length-encode;
  length-decode = λ t bs e. (Sound-fine t bs e).0;
  decode_bytes = λ t bs e. (Sound-fine t bs e).1;
}

abbrev pub plain_crypto : Crypto
plain_crypto = record {
  keccak256 = λ bs. replicate 32 7;
  parse_secret = some;
  public_key = λ k. replicate 65 4;
  parse_message = some;
  sign = λ m k. (replicate 64 9, 1);
}

pub plain_crypto-IsCrypto : IsCrypto plain_crypto
plain_crypto-IsCrypto = record {
  length-keccak256 = λ bs. refl;
  keccak256_bytes = λ bs. All-replicate IsByte 32 7 (omega arith);
  length-sign = λ m k. refl;
  sign_bytes = λ m k. All-replicate IsByte 64 9 (omega arith);
  recovery_id = λ m k. omega arith;
}
