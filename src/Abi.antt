-- ===== src/Abi.antt =====
-- The words of the contract ABI, as its specification lays them out.
use pump_poly_router.Base.{
  ℕ, ◌*◌, ◌≡◌, ◌∙◌, List, [], ◌∷◌, ◌++◌, arith, length, replicate, All, length-append, All-append,
  All-replicate,
}
use pump_poly_router.Words.{IsByte, IsU64, be_bytes, be_value}
use pump_poly_router.Words.Bytes.{
  length-be_bytes, be_value-be_bytes, be_bytes-IsByte, be_value-zeros,
}

-- A uint256 that fits a u64, as the ABI lays it out.
abbrev pub word : ℕ → List ℕ
word n = replicate 24 0 ++ be_bytes 8 n

abbrev pub words : List ℕ → List ℕ
words [] = []
words (n ∷ ns) = word n ++ words ns

pub length-word : (n : ℕ) → length (word n) ≡ 32
length-word n = length-append (replicate 24 0) (be_bytes 8 n) ∙ omega (arith, length-be_bytes 8 n)

pub length-words : (ns : List ℕ) → length (words ns) ≡ 32 * length ns
length-words [] = omega arith
length-words (n ∷ ns) =
    length-append (word n) (words ns) ∙ omega (arith, length-word n, length-words ns)

pub word-IsByte : (n : ℕ) → All IsByte (word n)
word-IsByte n =
    All-append IsByte (replicate 24 0) (be_bytes 8 n) (All-replicate IsByte 24 0 (omega arith))
      (be_bytes-IsByte 8 n)

pub words-IsByte : (ns : List ℕ) → All IsByte (words ns)
words-IsByte [] = tt
words-IsByte (n ∷ ns) = All-append IsByte (word n) (words ns) (word-IsByte n) (words-IsByte ns)

pub be_value-word : (n : ℕ) → IsU64 n → be_value (word n) ≡ n
be_value-word n h = be_value-zeros 24 (be_bytes 8 n) ∙ be_value-be_bytes 8 n (omega arith)
