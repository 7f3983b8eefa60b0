-- ===== src/External.antt =====
-- The foreign crates that the router calls, as parameters: what each offers to it, and the
-- documented behaviour that proofs rely on. `World` is the state of everything outside the process
-- (chains, HTTP services, files, the clock); a call that may depend on it or change it takes it and
-- returns it.
use pump_poly_router.Base.{
  ℕ, ◌*◌, ◌<◌, ◌≡◌, ◌≢◌, ◌⊎◌, List, Option, length, All, Bool, inl, inr, refl,
}
use pump_poly_router.Text.{Text}
use pump_poly_router.Words.{IsByte}

-- The `Result` of a foreign crate, its error as printed text.
pub data Reply {ℓ} (A : Type ℓ) : Type ℓ where
  fine : A → Reply A
  fault : Text → Reply A

pub Reply-cases {ℓ} :
    {A : Type ℓ} (r : Reply A) → ((a : A) × (r ≡ fine a)) ⊎ ((e : Text) × (r ≡ fault e))
Reply-cases (fine a) = inl (a, refl)
Reply-cases (fault e) = inr (e, refl)

-- Crate `hex`: `hex::encode` and `hex::decode`.
pub record HexCodec : Type 0 where
  pub hex_encode : List ℕ → Text
  pub hex_decode : Text → Reply (List ℕ)

-- What the crate documents: two lower-case digits for a byte, and `decode` undoes `encode`.
pub record IsHex (h : HexCodec) : Type 0 where
  pub decode-encode : (bs : List ℕ) → All IsByte bs → h.hex_decode (h.hex_encode bs) ≡ fine bs
  pub encode_digits : (bs : List ℕ) → All (λ c. c ≢ b'x') (h.hex_encode bs)
  pub length-encode : (bs : List ℕ) → length (h.hex_encode bs) ≡ 2 * length bs
  pub length-decode : (t : Text) (bs : List ℕ) → h.hex_decode t ≡ fine bs → length t ≡ 2 * length bs
  pub decode_bytes : (t : Text) (bs : List ℕ) → h.hex_decode t ≡ fine bs → All IsByte bs

-- Crates `sha3` and `libsecp256k1`: keccak256, keys and ECDSA.
pub record Crypto : Type 0 where
  pub keccak256 : List ℕ → List ℕ
  -- `SecretKey::parse_slice`
  pub parse_secret : List ℕ → Option (List ℕ)
  -- `PublicKey::from_secret_key(&sk).serialize()`, 65 bytes
  pub public_key : List ℕ → List ℕ
  -- `Message::parse_slice`
  pub parse_message : List ℕ → Option (List ℕ)
  -- `libsecp256k1::sign(&msg, &sk)`: the 64 bytes of `sig.serialize()` and the recovery id
  pub sign : List ℕ → List ℕ → List ℕ × ℕ

-- The sizes that these crates document.
pub record IsCrypto (c : Crypto) : Type 0 where
  pub length-keccak256 : (bs : List ℕ) → length (c.keccak256 bs) ≡ 32
  pub keccak256_bytes : (bs : List ℕ) → All IsByte (c.keccak256 bs)
  pub length-sign : (m k : List ℕ) → length (c.sign m k).0 ≡ 64
  pub sign_bytes : (m k : List ℕ) → All IsByte (c.sign m k).0
  pub recovery_id : (m k : List ℕ) → (c.sign m k).1 < 4

-- A `json!` literal as the source writes it.
mutual
  pub data Body : Type 0 where
    str : Text → Body
    num : ℕ → Body
    arr : Bodies → Body
    obj : Fields → Body

  pub data Bodies : Type 0 where
    nil : Bodies
    cons : Body → Bodies → Bodies

  pub data Fields : Type 0 where
    stop : Fields
    field : Text → Body → Fields → Fields

-- Crates `reqwest`, `serde_json` and `tokio`: HTTP, JSON values, and sleeping.
pub record Net (World Response Json : Type 0) : Type 0 where
  pub post : Text → Body → World → Reply Response × World
  pub get : Text → World → Reply Response × World
  pub error_for_status : Response → Reply Response
  pub read_json : Response → World → Reply Json × World
  -- `value["key"]`, `value.get("key")` and the accessors
  pub index : Json → Text → Json
  pub get_field : Json → Text → Option Json
  pub as_str : Json → Option Text
  pub as_array : Json → Option (List Json)
  pub is_null : Json → Bool
  pub to_string : Json → Text
  pub sleep : ℕ → World → World
