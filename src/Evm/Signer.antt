-- ===== src/Evm/Signer.antt =====
-- `EvmWallet` of src/evm/signer.rs: key handling and signing. Arithmetic on u64 wraps, as in a
-- release build.
pub mod Rpc
pub mod Signed
pub mod Sending
use pump_poly_router.Base.{
  ℕ, ◌+◌, ◌*◌, List, [], ◌∷◌, ◌++◌, ◌==◌, if◌then◌else◌, length, take, drop,
}
use pump_poly_router.Text.{Text, text, trim_0x}
use pump_poly_router.Error.{config, other, Result, ok, err, ok_or, ◌>>=◌}
use pump_poly_router.Words.{u64}
use pump_poly_router.Effect.{of_reply}
use pump_poly_router.External.{HexCodec, Crypto}
use pump_poly_router.Evm.Rlp.{RlpItem, bytes, uint, big_uint256, rlp_encode}

pub record EvmWallet : Type 0 where
  pub private_key : Text
  pub address : Text
  pub chain_id : ℕ

-- What a signature covers.
pub record Transaction : Type 0 where
  pub nonce : ℕ
  pub gas_price : ℕ
  pub gas_limit : ℕ
  pub to : List ℕ
  pub value : ℕ
  pub calldata : List ℕ

-- The item lists of the two `rlp_encode` calls.
abbrev pub signing_items : ℕ → Transaction → List RlpItem
signing_items chain_id t =
    uint t.nonce
    ∷ uint t.gas_price
    ∷ uint t.gas_limit
    ∷ bytes t.to
    ∷ uint t.value
    ∷ bytes t.calldata
    ∷ uint chain_id
    ∷ uint 0
    ∷ uint 0
    ∷ []

abbrev signed_items : Transaction → ℕ → List ℕ → List ℕ → List RlpItem
signed_items t v r s =
    uint t.nonce
    ∷ uint t.gas_price
    ∷ uint t.gas_limit
    ∷ bytes t.to
    ∷ uint t.value
    ∷ bytes t.calldata
    ∷ uint v
    ∷ big_uint256 r
    ∷ big_uint256 s
    ∷ []

-- `chain_id * 2 + 35 + rec_id`
abbrev pub eip155_v : ℕ → ℕ → ℕ
eip155_v chain_id rec_id = u64 (u64 (u64 (chain_id * 2) + 35) + rec_id)

module _ (hex : HexCodec) (crypto : Crypto) where
  unfoldable pub parse_secret_key : Text → Result (List ℕ)
  parse_secret_key hex_key = do
    key ←
        of_reply (hex.hex_decode (trim_0x hex_key))
          (λ _. config (text "EVM private key is not valid hex"))
    if length key == 32
        then ok_or (crypto.parse_secret key)
            (config (text "EVM private key is not a valid secp256k1 scalar"))
        else err (config (text "EVM private key must be 32 bytes"))

  -- The last 20 bytes of the hash of the public key without its first byte.
  unfoldable pub address_from_key : Text → Result Text
  unfolding parse_secret_key
  address_from_key hex_key = do
    sk ← parse_secret_key hex_key
    ok (hex.hex_encode (drop 12 (crypto.keccak256 (drop 1 (crypto.public_key sk)))))

  -- `EvmWallet::new`
  unfoldable pub new_wallet : Text → ℕ → Result EvmWallet
  unfolding address_from_key
  new_wallet private_key chain_id = do
    address ← address_from_key private_key
    ok (record { private_key = private_key; address = text "0x" ++ address; chain_id = chain_id })

  -- `sign_transaction` from `signing_rlp` on, where the fields are decoded.
  unfoldable pub sign_fields : ℕ → List ℕ → Transaction → Result Text
  sign_fields chain_id sk t = do
    let signing_hash = crypto.keccak256 (rlp_encode (signing_items chain_id t))
    msg ← ok_or (crypto.parse_message signing_hash) (other (text "signing hash parse failed"))
    let (sig_bytes, rec_id) = crypto.sign msg sk
    let v = eip155_v chain_id rec_id
    ok (
        text "0x"
        ++ hex.hex_encode (rlp_encode (signed_items t v (take 32 sig_bytes) (drop 32 sig_bytes))))

  unfoldable pub sign_transaction : EvmWallet → Text → Text → ℕ → ℕ → ℕ → ℕ → Result Text
  unfolding parse_secret_key sign_fields
  sign_transaction wallet to calldata value nonce gas_price gas_limit = do
    sk ← parse_secret_key wallet.private_key
    to_bytes ←
        of_reply (hex.hex_decode (trim_0x to)) (λ _. other (text "invalid to address: " ++ to))
    data_bytes ←
        of_reply (hex.hex_decode (trim_0x calldata)) (λ _. other (text "invalid calldata hex"))
    sign_fields wallet.chain_id sk (record {
      nonce = nonce;
      gas_price = gas_price;
      gas_limit = gas_limit;
      to = to_bytes;
      value = value;
      calldata = data_bytes;
    })
