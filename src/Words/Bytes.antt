-- ===== src/Words/Bytes.antt =====
-- Laws of byte strings: a number is read back from its bytes, and leading zeros do not count.
use pump_poly_router.Base.{
  ℕ, zero, suc, ◌+◌, ◌*◌, ◌/◌, ◌%◌, ◌^◌, ◌≤◌, ◌<◌, ◌≡◌, refl, ◌∙◌, List, [], ◌∷◌, ◌++◌, arith, ◌==◌,
  length, length-append, All, All-append, All-drop, replicate, if◌then◌else◌,
}
use pump_poly_router.Words.{
  IsByte, be_bytes, be_value, be_value_from, le_bytes, le_value, strip_leading_zeros,
}

pub length-be_bytes : (n v : ℕ) → length (be_bytes n v) ≡ n
unfolding be_bytes
length-be_bytes zero v = refl
length-be_bytes (suc n) v = rw length-append (omega (arith, length-be_bytes n (v / 256)))

pub be_bytes-IsByte : (n v : ℕ) → All IsByte (be_bytes n v)
unfolding be_bytes
be_bytes-IsByte zero v = tt
be_bytes-IsByte (suc n) v =
    All-append IsByte (be_bytes n (v / 256)) _ (be_bytes-IsByte n (v / 256)) (omega arith)

be_value_from-append :
    (acc : ℕ) (xs ys : List ℕ)
    → be_value_from acc (xs ++ ys) ≡ be_value_from (be_value_from acc xs) ys
unfolding be_value_from
be_value_from-append acc [] ys = refl
be_value_from-append acc (x ∷ xs) ys = be_value_from-append (acc * 256 + x) xs ys

pub be_value-snoc : (xs : List ℕ) (b : ℕ) → be_value (xs ++ (b ∷ [])) ≡ be_value xs * 256 + b
unfolding be_value
be_value-snoc xs b = be_value_from-append 0 xs (b ∷ [])

pub be_value-be_bytes : (n v : ℕ) → v < 256 ^ n → be_value (be_bytes n v) ≡ v
unfolding be_bytes
be_value-be_bytes zero v h = unfold be_value in omega arith
be_value-be_bytes (suc n) v h =
    be_value-snoc (be_bytes n (v / 256)) (v % 256)
    ∙ (rw (be_value-be_bytes n (v / 256) (omega arith)) (omega arith))

pub length-le_bytes : (n v : ℕ) → length (le_bytes n v) ≡ n
unfolding le_bytes
length-le_bytes zero v = refl
length-le_bytes (suc n) v = omega (arith, length-le_bytes n (v / 256))

pub le_value-le_bytes : (n v : ℕ) → v < 256 ^ n → le_value (le_bytes n v) ≡ v
unfolding le_bytes le_value
le_value-le_bytes zero v h = omega arith
le_value-le_bytes (suc n) v h = rw (le_value-le_bytes n (v / 256) (omega arith)) (omega arith)

-- `strip_leading_zeros` by recursion on the bytes.
strip_leading_zeros-cons :
    (b : ℕ) (bs : List ℕ)
    → strip_leading_zeros (b ∷ bs) ≡ (if b == 0 then strip_leading_zeros bs else b ∷ bs)
unfolding strip_leading_zeros
strip_leading_zeros-cons b bs = ground arith

be_value-zero : (b : ℕ) (bs : List ℕ) → b ≡ 0 → be_value (b ∷ bs) ≡ be_value bs
unfolding be_value
be_value-zero b bs h = rw h

pub be_value-zeros : (n : ℕ) (bs : List ℕ) → be_value (replicate n 0 ++ bs) ≡ be_value bs
be_value-zeros zero bs = refl
be_value-zeros (suc n) bs = be_value-zero 0 (replicate n 0 ++ bs) refl ∙ be_value-zeros n bs

pub be_value-strip_leading_zeros : (bs : List ℕ) → be_value (strip_leading_zeros bs) ≡ be_value bs
be_value-strip_leading_zeros [] = unfold strip_leading_zeros in refl
be_value-strip_leading_zeros (b ∷ bs) =
    ground
      (arith, strip_leading_zeros-cons b bs, be_value-zero b bs, be_value-strip_leading_zeros bs)

pub strip_leading_zeros-IsByte : (bs : List ℕ) → All IsByte bs → All IsByte (strip_leading_zeros bs)
unfolding strip_leading_zeros
strip_leading_zeros-IsByte bs h = All-drop IsByte _ bs h

pub length-strip_leading_zeros : (bs : List ℕ) → length (strip_leading_zeros bs) ≤ length bs
length-strip_leading_zeros [] = unfold strip_leading_zeros in omega arith
length-strip_leading_zeros (b ∷ bs) =
    rw strip_leading_zeros-cons (ground (arith, length-strip_leading_zeros bs))
