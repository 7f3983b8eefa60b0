-- ===== src/Bridge/Cctp/Burn.antt =====
-- The calldata of `depositForBurn` on Polygon in src/bridge/cctp.rs, read back word by word.
use pump_poly_router.Base.{
  ℕ, ◌*◌, ◌≡◌, refl, sym, ap, ◌∙◌, subst, inl, inr, List, [], ◌++◌, append_assoc, append-nil, arith,
  ◌==◌, ==_iff, if◌then◌else◌, Bool-cases, length, replicate, All, length-append, length-replicate,
  take-append_left, All-append, All-replicate, slice,
}
use pump_poly_router.Text.{Text, text, trim_0x}
use pump_poly_router.Error.{ok}
use pump_poly_router.Words.{IsByte, IsU64, be_bytes, be_value}
use pump_poly_router.Words.Bytes.{
  length-be_bytes, be_value-be_bytes, be_value-zeros, be_bytes-IsByte,
}
use pump_poly_router.Abi.{word, length-word, word-IsByte, be_value-word}
use pump_poly_router.Slices.{slice-middle}
use pump_poly_router.External.{HexCodec, IsHex, Crypto, fine, Reply-cases}
use pump_poly_router.Config.{cctp_solana_domain}
use pump_poly_router.Bridge.Cctp.{
  pad32, burn_arguments, burn_calldata, deposit_for_burn_polygon_selector,
}

-- Argument `i` of a static type, as the contract ABI lays it out.
abbrev pub argument : ℕ → List ℕ → List ℕ
argument i block = slice (32 * i) 32 block

-- The word of an address of 20 bytes.
abbrev pub address_word : List ℕ → List ℕ
address_word token = replicate 12 0 ++ token

-- Four words in a row.
four_words :
    (a b c d : List ℕ)
    → length a ≡ 32
    → length b ≡ 32
    → length c ≡ 32
    → length d ≡ 32
    → let block = a ++ (b ++ (c ++ d)) in
      (argument 0 block ≡ a)
      × (argument 1 block ≡ b)
      × (argument 2 block ≡ c)
      × (argument 3 block ≡ d)
four_words a b c d ha hb hc hd =
    let at_third : (a ++ b) ++ (c ++ d) ≡ a ++ (b ++ (c ++ d)) = append_assoc a b (c ++ d) in
    let at_fourth : (a ++ (b ++ c)) ++ (d ++ []) ≡ a ++ (b ++ (c ++ d)) =
      simp (append_assoc, append-nil) in
    (
      take-append_left 32 a (b ++ (c ++ d)) ha,
      slice-middle 32 32 a b (c ++ d) ha hb,
      ap (slice 64 32) (sym at_third)
          ∙ slice-middle 64 32 (a ++ b) c d (length-append a b ∙ omega (arith, ha, hb)) hc,
      ap (slice 96 32) (sym at_fourth)
          ∙ slice-middle 96 32 (a ++ (b ++ c)) d []
              (length-append a (b ++ c) ∙ omega (arith, length-append b c, ha, hb, hc)) hd,
    )

abbrev pub token_word : List ℕ → List ℕ
token_word token = if length token == 20 then address_word token else replicate 32 0

length-token_word : (token : List ℕ) → length (token_word token) ≡ 32
length-token_word token = elim (Bool-cases (length token == 20)) [
  | inl fits ↦
      let size : length token ≡ 20 = (==_iff (length token) 20).0 fits in
      rw fits
        (length-append (replicate 12 0) token ∙ omega (arith, length-replicate {A = ℕ} 12 0, size))
  | inr differs ↦ rw differs (length-replicate {A = ℕ} 32 0)
]

token_word-IsByte : (token : List ℕ) → All IsByte token → All IsByte (token_word token)
token_word-IsByte token h = elim (Bool-cases (length token == 20)) [
  | inl fits ↦
      rw fits (All-append IsByte (replicate 12 0) token (All-replicate IsByte 12 0 (omega arith)) h)
  | inr differs ↦ rw differs (All-replicate IsByte 32 0 (omega arith))
]

domain_word : List ℕ
domain_word = replicate 28 0 ++ be_bytes 4 cctp_solana_domain

length-domain_word : length domain_word ≡ 32
unfolding domain_word
length-domain_word =
    length-append (replicate 28 0) (be_bytes 4 cctp_solana_domain)
    ∙ omega (arith, length-be_bytes 4 cctp_solana_domain)

domain_word-IsByte : All IsByte domain_word
unfolding domain_word
domain_word-IsByte =
    All-append IsByte (replicate 28 0) (be_bytes 4 cctp_solana_domain)
      (All-replicate IsByte 28 0 (omega arith)) (be_bytes-IsByte 4 cctp_solana_domain)

be_value-domain_word : be_value domain_word ≡ cctp_solana_domain
unfolding domain_word
be_value-domain_word =
    be_value-zeros 28 (be_bytes 4 cctp_solana_domain)
    ∙ be_value-be_bytes 4 cctp_solana_domain (omega arith)

-- A call of `depositForBurn`, as the contract decodes it.
pub record BurnCall (hex : HexCodec) (crypto : Crypto) (amount : ℕ) (recipient : List ℕ)
    (token : Text) (calldata : Text) : Type 0 where
  pub block : List ℕ
  pub token_bytes : List ℕ
  pub call :
      calldata
      ≡ text "0x"
        ++ (hex.hex_encode (deposit_for_burn_polygon_selector hex crypto) ++ hex.hex_encode block)
  pub decoded : hex.hex_decode (hex.hex_encode block) ≡ fine block
  pub size : length block ≡ 128
  pub burnt : be_value (argument 0 block) ≡ amount
  pub domain : be_value (argument 1 block) ≡ cctp_solana_domain
  pub mint_recipient : argument 2 block ≡ recipient
  pub token_decoded : hex.hex_decode (trim_0x token) ≡ fine token_bytes
  pub burn_token : argument 3 block ≡ token_word token_bytes

module _ (hex : HexCodec) (crypto : Crypto) (is_hex : IsHex hex) where
  built-BurnCall :
      (amount : ℕ) (recipient token_bytes : List ℕ) (token : Text)
      → IsU64 amount
      → length recipient ≡ 32
      → All IsByte recipient
      → hex.hex_decode (trim_0x token) ≡ fine token_bytes
      → BurnCall hex crypto amount recipient token (
          text "0x"
          ++ (hex.hex_encode (deposit_for_burn_polygon_selector hex crypto)
              ++ hex.hex_encode (burn_arguments amount recipient token_bytes)))
  unfolding burn_arguments pad32 domain_word
  built-BurnCall amount recipient token_bytes token hn hr hb et =
      let tail = token_word token_bytes in
      let (one, two, three, four) =
        four_words (word amount) domain_word recipient tail (length-word amount) length-domain_word
          hr (length-token_word token_bytes) in
      let block = word amount ++ (domain_word ++ (recipient ++ tail)) in
      record {
        block = block;
        token_bytes = token_bytes;
        call = refl;
        decoded = is_hex.decode-encode block (
            All-append IsByte (word amount) (domain_word ++ (recipient ++ tail))
              (word-IsByte amount)
              (All-append IsByte domain_word (recipient ++ tail) domain_word-IsByte (
                All-append IsByte recipient tail hb (
                  token_word-IsByte token_bytes
                    (is_hex.decode_bytes (trim_0x token) token_bytes et)))));
        size =
            length-append (word amount) (domain_word ++ (recipient ++ tail))
            ∙ omega (
              arith,
              length-append domain_word (recipient ++ tail),
              length-append recipient tail,
              length-word amount,
              length-domain_word,
              length-token_word token_bytes,
              hr,
            );
        burnt = ap be_value one ∙ be_value-word amount hn;
        domain = ap be_value two ∙ be_value-domain_word;
        mint_recipient = three;
        token_decoded = et;
        burn_token = four;
      }

  -- The calldata that `deposit_for_burn_return_leg` sends for a u64 amount and a recipient of 32 bytes
  -- is a call of `depositForBurn` whose four words are the amount, Solana's domain, the recipient, and
  -- the decoded token address behind 12 zeros, or the zero address where it has not 20 bytes.
  pub burn_calldata-BurnCall :
      (amount : ℕ) (recipient : List ℕ) (token calldata : Text)
      → IsU64 amount
      → length recipient ≡ 32
      → All IsByte recipient
      → burn_calldata hex crypto amount recipient token ≡ ok calldata
      → BurnCall hex crypto amount recipient token calldata
  unfolding burn_calldata
  burn_calldata-BurnCall amount recipient token calldata hn hr hb e =
      elim (Reply-cases (hex.hex_decode (trim_0x token))) [
        | inr (x, bad) ↦ absurd (cc (rw bad at e))
        | inl (bs, et) ↦
            let call =
              text "0x"
              ++ (hex.hex_encode (deposit_for_burn_polygon_selector hex crypto)
                  ++ hex.hex_encode (burn_arguments amount recipient bs)) in
            let given : ok call ≡ ok calldata = rw et at e in
            let same : call ≡ calldata = cc given in
            subst (λ (x : Text). BurnCall hex crypto amount recipient token x) same
              (built-BurnCall amount recipient bs token hn hr hb et)
      ]
