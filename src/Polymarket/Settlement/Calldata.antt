-- ===== src/Polymarket/Settlement/Calldata.antt =====
-- The calldata of `redeemPositions`, read back word by word.
use pump_poly_router.Base.{
  ℕ, ◌+◌, ◌*◌, ◌^◌, ◌<◌, ◌≡◌, ◌≢◌, drop-append_left, refl, sym, ap, subst, ◌∙◌, arith, List, [],
  ◌∷◌, ◌++◌, ◌==◌, length, length-append, take, drop, slice, take-append_left, replicate, All,
  All-append, All-replicate, append_assoc, Bool-cases, inl, inr,
}
use pump_poly_router.Text.{Text, text, trim_0x, pad_left}
use pump_poly_router.Error.{ok, Result-cases}
use pump_poly_router.Words.{IsByte, IsU64, be_value}
use pump_poly_router.External.{HexCodec, IsHex, fine, Reply-cases}
use pump_poly_router.Abi.{word, words, be_value-word, length-word, word-IsByte, words-IsByte}
use pump_poly_router.Slices.{slice-middle, Copied, copied_lem}
use pump_poly_router.Polymarket.Settlement.{
  pad32_u64, pad32_all, pad32_address, bytes32_from_hex, redeem_arguments,
  redeem_positions_selector, encode_redeem_positions,
}

pad32_all-eq-words : (sets : List ℕ) → pad32_all sets ≡ words sets
unfolding pad32_all pad32_u64
pad32_all-eq-words [] = refl
pad32_all-eq-words (n ∷ sets) = ap (λ x. word n ++ x) (pad32_all-eq-words sets)

pad32_address-Copied :
    (hex : HexCodec) (t : Text) (out : List ℕ)
    → pad32_address hex t ≡ ok out
    → Copied hex (trim_0x t) 12 out
unfolding pad32_address
pad32_address-Copied hex t out e = elim (Bool-cases (length (trim_0x t) == 40)) [
  | inr differs ↦ absurd (cc (rw differs at e))
  | inl same ↦ elim (Reply-cases (hex.hex_decode (trim_0x t))) [
    | inr (bad, refused) ↦ absurd (cc (rw (same, refused) at e))
    | inl (body, decoded) ↦ copied_lem hex (trim_0x t) 12 body out decoded (rw (same, decoded) at e)
  ]
]

bytes32_from_hex-Copied :
    (hex : HexCodec) (t : Text) (out : List ℕ)
    → bytes32_from_hex hex t ≡ ok out
    → Copied hex (pad_left 64 (trim_0x t)) 0 out
unfolding bytes32_from_hex
bytes32_from_hex-Copied hex t out e =
    elim (Reply-cases (hex.hex_decode (pad_left 64 (trim_0x t)))) [
      | inr (bad, refused) ↦ absurd (cc (rw refused at e))
      | inl (body, decoded) ↦
          copied_lem hex (pad_left 64 (trim_0x t)) 0 body out decoded (rw decoded at e)
    ]

-- The first four bytes of the keccak256 of `redeemPositions(address,bytes32,bytes32,uint256[])`, by
-- which the contract knows its function.
abbrev pub redeem_positions_id : Text
redeem_positions_id = text "01b7037c"

-- What the calldata says: a selector that is not that of `redeemPositions`, then the arguments of
-- `redeemPositions`: the collateral token, the parent collection, the condition, and the index sets
-- behind their offset and their count.
pub record RedeemArguments (hex : HexCodec) (token condition : Text) (sets : List ℕ)
    (calldata : Text) : Type 0 where
  pub arguments : List ℕ
  pub token_bytes : List ℕ
  pub condition_bytes : List ℕ
  pub selector : take 10 calldata ≡ text "0x8c5d7d37"
  pub unknown : take 10 calldata ≢ text "0x" ++ redeem_positions_id
  pub decoded : hex.hex_decode (drop 10 calldata) ≡ fine arguments
  pub token_decoded : hex.hex_decode (trim_0x token) ≡ fine token_bytes
  pub condition_decoded : hex.hex_decode (pad_left 64 (trim_0x condition)) ≡ fine condition_bytes
  pub collateral : slice 0 32 arguments ≡ replicate 12 0 ++ token_bytes
  pub parent : slice 32 32 arguments ≡ replicate 32 0
  pub condition_word : slice 64 32 arguments ≡ condition_bytes
  pub offset : be_value (slice 96 32 arguments) ≡ 128
  pub count : be_value (slice 128 32 arguments) ≡ length sets
  pub index_sets : drop 160 arguments ≡ words sets

regrouped : (a b c d e : List ℕ) → (a ++ (b ++ (c ++ d))) ++ e ≡ (a ++ b) ++ (c ++ (d ++ e))
regrouped a b c d e =
    append_assoc a (b ++ (c ++ d)) e
    ∙ (ap (λ x. a ++ x) (append_assoc b (c ++ d) e ∙ ap (λ x. b ++ x) (append_assoc c d e))
        ∙ sym (append_assoc a b (c ++ (d ++ e))))

abbrev zeros : List ℕ
zeros = replicate 32 0

-- The argument block of `a`, `c` and `sets`: four words, and the array.
abbrev front : List ℕ → List ℕ → List ℕ
front a c = a ++ (zeros ++ (c ++ word 128))

abbrev tail : List ℕ → List ℕ
tail sets = word (length sets) ++ words sets

module _ (a c sets : List ℕ) where
  arguments_shape : redeem_arguments a c sets ≡ front a c ++ tail sets
  unfolding redeem_arguments pad32_u64
  arguments_shape = rw pad32_all-eq-words refl

module _ (a c sets : List ℕ) (ha : length a ≡ 32) (hc : length c ≡ 32) where
  length-front : length (front a c) ≡ 128
  length-front =
      length-append a _
      ∙ omega (
        arith,
        ha,
        hc,
        length-append zeros (c ++ word 128),
        length-append c (word 128),
        length-word 128,
      )

  first_word : slice 0 32 (front a c ++ tail sets) ≡ a
  first_word = ap (take 32) (append_assoc a _ (tail sets)) ∙ take-append_left 32 a _ ha

  second_word : slice 32 32 (front a c ++ tail sets) ≡ zeros
  second_word =
      ap (slice 32 32) (append_assoc a (zeros ++ (c ++ word 128)) (tail sets))
      ∙ slice-middle 32 32 a zeros ((c ++ word 128) ++ tail sets) ha refl

  third_word : slice 64 32 (front a c ++ tail sets) ≡ c
  third_word =
      let shape : front a c ++ tail sets ≡ (a ++ zeros) ++ (c ++ (word 128 ++ tail sets)) =
        regrouped a zeros c (word 128) (tail sets) in
      let reach : length (a ++ zeros) ≡ 64 = length-append a zeros ∙ omega (arith, ha) in
      ap (slice 64 32) shape ∙ slice-middle 64 32 (a ++ zeros) c (word 128 ++ tail sets) reach hc

  fourth_word : slice 96 32 (front a c ++ tail sets) ≡ word 128
  fourth_word =
      let shape : front a c ++ tail sets ≡ ((a ++ zeros) ++ c) ++ (word 128 ++ tail sets) =
        regrouped a zeros c (word 128) (tail sets)
        ∙ sym (append_assoc (a ++ zeros) c (word 128 ++ tail sets)) in
      let reach : length ((a ++ zeros) ++ c) ≡ 96 =
        length-append (a ++ zeros) c ∙ omega (arith, length-append a zeros, ha, hc) in
      ap (slice 96 32) shape
      ∙ slice-middle 96 32 ((a ++ zeros) ++ c) (word 128) (tail sets) reach (length-word 128)

  fifth_word : slice 128 32 (front a c ++ tail sets) ≡ word (length sets)
  fifth_word =
      slice-middle 128 32 (front a c) (word (length sets)) (words sets) length-front
        (length-word (length sets))

  last_words : drop 160 (front a c ++ tail sets) ≡ words sets
  last_words =
      let reach : length (front a c ++ word (length sets)) ≡ 160 =
        length-append (front a c) (word (length sets))
        ∙ omega (arith, length-front, length-word (length sets)) in
      ap (drop 160) (sym (append_assoc (front a c) (word (length sets)) (words sets)))
      ∙ drop-append_left 160 (front a c ++ word (length sets)) (words sets) reach

module _ (hex : HexCodec) (is_hex : IsHex hex) where
  Copied-IsByte : {t : Text} {start : ℕ} {out : List ℕ} → Copied hex t start out → All IsByte out
  Copied-IsByte {t} {start} c = rw c.shape (
      All-append IsByte (replicate start 0) c.body (All-replicate IsByte start 0 (omega arith))
        (is_hex.decode_bytes t c.body c.decoded))

  arguments-IsByte :
      (a c sets : List ℕ) → All IsByte a → All IsByte c → All IsByte (front a c ++ tail sets)
  arguments-IsByte a c sets ha hc =
      All-append IsByte (front a c) (tail sets)
        (All-append IsByte a _ ha (
          All-append IsByte zeros _ (All-replicate IsByte 32 0 (omega arith))
            (All-append IsByte c (word 128) hc (word-IsByte 128))))
        (words-IsByte (length sets ∷ sets))

  built-RedeemArguments :
      (token condition : Text) (a c sets : List ℕ)
      → Copied hex (trim_0x token) 12 a
      → Copied hex (pad_left 64 (trim_0x condition)) 0 c
      → All IsU64 sets
      → 160 + 32 * length sets < 2 ^ 64
      → RedeemArguments hex token condition sets
          (text "0x" ++ (redeem_positions_selector ++ hex.hex_encode (redeem_arguments a c sets)))
  unfolding text
  built-RedeemArguments token condition a c sets ta tc h fits = record {
    arguments = front a c ++ tail sets;
    token_bytes = ta.body;
    condition_bytes = tc.body;
    selector = refl;
    unknown = λ e. cc e;
    decoded = rw (arguments_shape a c sets) (
        is_hex.decode-encode (front a c ++ tail sets)
          (arguments-IsByte a c sets (Copied-IsByte ta) (Copied-IsByte tc)));
    token_decoded = ta.decoded;
    condition_decoded = tc.decoded;
    collateral = first_word a c sets ta.size tc.size ∙ ta.shape;
    parent = second_word a c sets ta.size tc.size;
    condition_word = third_word a c sets ta.size tc.size ∙ tc.shape;
    offset = ap be_value (fourth_word a c sets ta.size tc.size) ∙ be_value-word 128 (omega arith);
    count =
        ap be_value (fifth_word a c sets ta.size tc.size)
        ∙ be_value-word (length sets) (omega (arith, fits));
    index_sets = last_words a c sets ta.size tc.size;
  }

  -- The calldata that `encode_redeem_positions` returns for index sets of u64s holds, read word by
  -- word, the arguments of `redeemPositions`: the collateral token as it was given, the parent
  -- collection 0, the condition padded on the left, the offset and the count of an array, and
  -- exactly the index sets. But its selector is 8c5d7d37, and not 01b7037c, the one of
  -- `redeemPositions`.
  pub encode_redeem_positions-RedeemArguments :
      (token condition : Text) (sets : List ℕ) (calldata : Text)
      → All IsU64 sets
      → 160 + 32 * length sets < 2 ^ 64
      → encode_redeem_positions hex token condition sets ≡ ok calldata
      → RedeemArguments hex token condition sets calldata
  unfolding encode_redeem_positions
  encode_redeem_positions-RedeemArguments token condition sets calldata h fits e =
      elim (Result-cases (pad32_address hex token)) [
        | inr (inl (x, bad)) ↦ absurd (cc (rw bad at e))
        | inr (inr bad) ↦ absurd (cc (rw bad at e))
        | inl (a, from_token) ↦ elim (Result-cases (bytes32_from_hex hex condition)) [
          | inr (inl (x, bad)) ↦ absurd (cc (rw (from_token, bad) at e))
          | inr (inr bad) ↦ absurd (cc (rw (from_token, bad) at e))
          | inl (c, from_condition) ↦
              let call =
                text "0x"
                ++ (redeem_positions_selector ++ hex.hex_encode (redeem_arguments a c sets)) in
              let given : ok call ≡ ok calldata = rw (from_token, from_condition) at e in
              let same : call ≡ calldata = cc given in
              subst (λ (x : Text). RedeemArguments hex token condition sets x) same
                (built-RedeemArguments token condition a c sets
                  (pad32_address-Copied hex token a from_token)
                  (bytes32_from_hex-Copied hex condition c from_condition) h fits)
        ]
      ]
