-- ===== src/Executor/New/Calm/Resolver.antt =====
-- Panics in src/polymarket/resolver.rs, and the event data that they depend on.
use pump_poly_router.Base.{
  ℕ, zero, suc, ◌+◌, ◌-◌, ◌*◌, ◌^◌, ◌≤◌, ◌<◌, ◌≡◌, refl, ap, ◌∙◌, ◌≢◌, inl, inr, true, ◌&&◌, some,
  List, [], ◌∷◌, arith, ltb, leb, Bool-cases, Option-cases, length, drop, length-take, length-drop,
  slice,
}
use pump_poly_router.Text.{Text, text, trim_0x}
use pump_poly_router.Error.{ok, panic, Result-cases}
use pump_poly_router.External.{fine, HexCodec, Net}
use pump_poly_router.Slices.{slice_range}
use pump_poly_router.Words.{u64, be_value}
use pump_poly_router.Effect.{call-cases}
use pump_poly_router.Error.{http, poly_resolver}
use pump_poly_router.Polymarket.Resolver.{normalise_bytes32}
use pump_poly_router.Polymarket.Resolver.{
  u256_to_usize, read_words, read_elements, read_array, decode_log_data, decode_payout_numerators,
  resolution, read_logs,
}
use pump_poly_router.Polymarket.Resolver.Client.{ConditionResolver, get_logs_body, is_resolved}

-- The low 8 bytes of the word at a place.
abbrev pub number_at : ℕ → List ℕ → ℕ
number_at place bytes = be_value (slice 24 8 (slice place 32 bytes))

-- The array's place and its length are below 2 ^ 32.
abbrev pub IsModest : List ℕ → Type 0
IsModest bytes = (number_at 32 bytes < 2 ^ 32) × (number_at (number_at 32 bytes) bytes < 2 ^ 32)

read_words_calm :
    (left start : ℕ) (bytes : List ℕ)
    → start + left * 32 ≤ length bytes
    → start + left * 32 < 2 ^ 63
    → read_words left start bytes ≢ panic
unfolding read_words slice_range
read_words_calm zero start bytes fits small e = cc e
read_words_calm (suc left) start bytes fits small e =
    let next : u64 (start + 32) ≡ start + 32 = ground arith in
    let from : u64 (start + 24) ≡ start + 24 = ground arith in
    let more =
      read_words_calm left (start + 32) bytes (omega (arith, fits)) (omega (arith, small)) in
    ground (arith, next, from, more)

-- The slice of a word's last 8 bytes.
word_calm : (word : List ℕ) → u256_to_usize word ≢ panic
unfolding u256_to_usize slice_range
word_calm word e = ground arith

-- What a word's last 8 bytes say.
u256_to_usize-number :
    (place : ℕ) (bytes : List ℕ)
    → place + 32 ≤ length bytes
    → u256_to_usize (slice place 32 bytes) ≡ ok (number_at place bytes)
unfolding u256_to_usize slice_range
u256_to_usize-number place bytes fits =
    let dropped = length-drop place bytes in
    let taken = length-take 32 (drop place bytes) in
    let full : length (slice place 32 bytes) ≡ 32 = ground (arith, dropped, taken, fits) in
    rw full refl

cut_word :
    (place : ℕ) (bytes : List ℕ)
    → place + 32 ≤ length bytes
    → slice_range place (place + 32) bytes ≡ ok (slice place 32 bytes)
unfolding slice_range
cut_word place bytes fits =
    let inside : (leb place (place + 32) && leb (place + 32) (length bytes)) ≡ true =
      ground (arith, fits) in
    let width : place + 32 - place ≡ 32 = omega arith in rw (inside, width) refl

read_elements_calm :
    (n start : ℕ) (bytes : List ℕ)
    → start + n * 32 ≤ length bytes
    → start + n * 32 < 2 ^ 63
    → read_elements n start bytes ≢ panic
unfolding read_elements
read_elements_calm n start bytes fits small e =
    ground (arith, read_words_calm n start bytes fits small)

read_array_calm :
    (place : ℕ) (bytes : List ℕ)
    → place < 2 ^ 32
    → number_at place bytes < 2 ^ 32
    → read_array place bytes ≢ panic
unfolding read_array
read_array_calm place bytes small few = elim (Bool-cases (ltb (length bytes) (place + 32))) [
  | inl short ↦
      let sum : u64 (place + 32) ≡ place + 32 = ground (arith, small) in rw (sum, short) (λ e. cc e)
  | inr fits ↦
      let sum : u64 (place + 32) ≡ place + 32 = ground (arith, small) in
      let room : place + 32 ≤ length bytes = ground (arith, fits) in
      let word = cut_word place bytes room in
      let number = u256_to_usize-number place bytes room in
      let n = number_at place bytes in
      let end : u64 (place + 32 + u64 (n * 32)) ≡ place + 32 + n * 32 =
        ground (arith, small, few) in
      elim (Bool-cases (ltb (length bytes) (place + 32 + n * 32))) [
        | inl cut ↦ rw (sum, fits, word, number, end, cut) (λ e. cc e)
        | inr whole ↦
            rw (sum, fits, word, number, end, whole)
              (read_elements_calm n (place + 32) bytes (ground (arith, whole))
                (ground (arith, small, few)))
      ]
]

decode_log_data_calm : (bytes : List ℕ) → IsModest bytes → decode_log_data bytes ≢ panic
unfolding decode_log_data
decode_log_data_calm bytes (small, few) = elim (Bool-cases (ltb (length bytes) 64)) [
  | inl short ↦ rw short (λ e. cc e)
  | inr long ↦
      let room : 32 + 32 ≤ length bytes = ground (arith, long) in
      let word = cut_word 32 bytes room in
      let number = u256_to_usize-number 32 bytes room in
      rw (long, word, number) (read_array_calm (number_at 32 bytes) bytes small few)
]

module _ {World Response Json : Type 0} (net : Net World Response Json) (hex : HexCodec) where
  -- The data of the first log in each answer to the resolver's calls.
  abbrev pub ModestLogs : ConditionResolver → Type 0
  ModestLogs resolver =
      (topic1 data_hex : Text) (v : World) (resp : Response) (json log : Json) (logs : List Json)
      (bytes : List ℕ)
      → (net.post resolver.polygon_rpc (get_logs_body resolver.ctf_address topic1) v).0 ≡ fine resp
      → (net.read_json resp
          (net.post resolver.polygon_rpc (get_logs_body resolver.ctf_address topic1) v).1).0
        ≡ fine json
      → net.as_array (net.index json (text "result")) ≡ some (log ∷ logs)
      → net.as_str (net.index log (text "data")) ≡ some data_hex
      → hex.hex_decode (trim_0x data_hex) ≡ fine bytes
      → IsModest bytes

  resolution_calm :
      (condition_id : Text) (log : Json) (logs : List Json)
      → ((data_hex : Text) (bytes : List ℕ)
          → net.as_str (net.index log (text "data")) ≡ some data_hex
          → hex.hex_decode (trim_0x data_hex) ≡ fine bytes
          → IsModest bytes)
      → resolution net hex condition_id (log ∷ logs) ≢ panic
  unfolding resolution decode_payout_numerators
  resolution_calm condition_id log logs modest e = grind (arith, decode_log_data_calm, modest)

  read_logs_calm :
      (condition_id : Text) (json : Json)
      → ((log : Json) (logs : List Json) (data_hex : Text) (bytes : List ℕ)
          → net.as_array (net.index json (text "result")) ≡ some (log ∷ logs)
          → net.as_str (net.index log (text "data")) ≡ some data_hex
          → hex.hex_decode (trim_0x data_hex) ≡ fine bytes
          → IsModest bytes)
      → read_logs net hex condition_id json ≢ panic
  unfolding read_logs resolution
  read_logs_calm condition_id json modest e =
      elim (Option-cases (net.as_array (net.index json (text "result")))) [
        | inl missing ↦ ground (arith, missing)
        | inr ([], found) ↦ ground (arith, found)
        | inr (log ∷ logs, found) ↦
            ground (
              arith,
              found,
              resolution_calm condition_id log logs (λ d b. modest log logs d b found),
            )
      ]

  normalise_calm : (t : Text) → normalise_bytes32 t ≢ panic
  unfolding normalise_bytes32
  normalise_calm t e = ground arith

  pub is_resolved_calm :
      (resolver : ConditionResolver) (condition_id : Text) (w : World)
      → ModestLogs resolver
      → (is_resolved net hex resolver condition_id w).0 ≢ panic
  unfolding is_resolved
  is_resolved_calm resolver condition_id w modest =
      elim (Result-cases (normalise_bytes32 condition_id)) [
        | inr (inl (m, bad)) ↦ rw bad (λ e. cc e)
        | inr (inr crash) ↦ absurd (normalise_calm condition_id crash)
        | inl (topic1, good) ↦
            let ask = net.post resolver.polygon_rpc (get_logs_body resolver.ctf_address topic1) in
            elim (call-cases ask http w) [
              | inr (m, u, shown) ↦ rw (good, shown) (λ e. cc e)
              | inl (resp, u, got, shown) ↦ elim (call-cases (net.read_json resp) poly_resolver u) [
                | inr (m, v, unread) ↦ rw (good, shown, unread) (λ e. cc e)
                | inl (json, v, read, seen) ↦
                    let calm = read_logs_calm condition_id json (λ log logs d b.
                      modest topic1 d w resp json log logs b (ap (λ x. x.0) got)
                        (ap (λ x. (net.read_json resp x.1).0) got ∙ ap (λ x. x.0) read)) in
                    rw (good, shown, seen) calm
              ]
            ]
      ]
