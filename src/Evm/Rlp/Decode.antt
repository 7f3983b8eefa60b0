-- ===== src/Evm/Rlp/Decode.antt =====
-- An RLP reader written from the Ethereum Yellow Paper (appendix B), independent of the encoder: the
-- specification against which the encoder of src/evm/signer.rs is checked.
use pump_poly_router.Base.{
  ℕ, zero, suc, ◌-◌, List, [], ◌∷◌, Option, none, some, ltb, leb, if◌then◌else◌, length, take, drop,
}
use pump_poly_router.Words.{be_value}

-- The first `n` bytes and the rest, where there are as many.
unfoldable pub split_at : ℕ → List ℕ → Option (List ℕ × List ℕ)
split_at n bs = if leb n (length bs) then some (take n bs, drop n bs) else none

infixl 5 ◌>>=◌
abbrev pub ◌>>=◌ {ℓ κ} : {A : Type ℓ} {B : Type κ} → Option A → (A → Option B) → Option B
none >>= f = none
some a >>= f = f a

-- A length behind the header byte: `short` for the one-byte form, or the number of length bytes.
unfoldable pub read_long : ℕ → List ℕ → Option (List ℕ × List ℕ)
unfolding split_at
read_long n bs = do (len, rest) ← split_at n bs; split_at (be_value len) rest

-- One string item.
unfoldable pub read_item : List ℕ → Option (List ℕ × List ℕ)
read_item [] = none
read_item (b ∷ bs) =
    if ltb b 0x80
    then some (b ∷ [], bs)
    else if ltb b 0xb8
    then split_at (b - 0x80) bs
    else if ltb b 0xc0
    then read_long (b - 0xb7) bs
    else none

-- The payload of a list, and what follows the list.
unfoldable pub read_list : List ℕ → Option (List ℕ × List ℕ)
read_list [] = none
read_list (b ∷ bs) =
    if ltb b 0xc0
    then none
    else if ltb b 0xf8
    then split_at (b - 0xc0) bs
    else read_long (b - 0xf7) bs

-- All items of a payload. Each takes a byte at least, so its length is enough fuel.
unfoldable pub read_items : ℕ → List ℕ → Option (List (List ℕ))
read_items fuel [] = some []
read_items zero (b ∷ bs) = none
read_items (suc fuel) (b ∷ bs) = do
  (item, rest) ← read_item (b ∷ bs)
  items ← read_items fuel rest
  some (item ∷ items)

-- A list of strings that fills the input.
abbrev pub whole : List ℕ × List ℕ → Option (List (List ℕ))
whole (payload, []) = read_items (length payload) payload
whole (payload, b ∷ bs) = none

unfoldable pub rlp_decode : List ℕ → Option (List (List ℕ))
unfolding read_items
rlp_decode bs = do parts ← read_list bs; whole parts
