-- ===== src/Slices.antt =====
-- Slices of byte arrays, as Rust cuts and fills them: a range out of bounds panics, and so does a copy
-- between slices of different lengths.
use pump_poly_router.Base.{
  ℕ, ◌+◌, ◌-◌, ◌<◌, ◌≡◌, refl, sym, ap, ◌∙◌, inl, inr, true, ◌&&◌, List, ◌++◌, arith, leb, ◌==◌,
  ==_iff, if◌then◌else◌, Bool-cases, length, take, drop, replicate, length-append, length-replicate,
  take-append_left, drop-append_left, slice,
}
use pump_poly_router.Text.{Text}
use pump_poly_router.Error.{Result, ok, panic}
use pump_poly_router.External.{HexCodec, fine}

-- `&bytes[start..end]`
unfoldable pub slice_range : ℕ → ℕ → List ℕ → Result (List ℕ)
slice_range start end bytes =
    if leb start end && leb end (length bytes)
    then ok (take (end - start) (drop start bytes))
    else panic

-- `out[start..].copy_from_slice(&bytes)` on 32 zero bytes
unfoldable pub copied_behind : ℕ → List ℕ → Result (List ℕ)
copied_behind start bytes =
    if start + length bytes == 32 then ok (replicate start 0 ++ bytes) else panic

-- A range that covers exactly the middle part.
pub slice_range-middle :
    (start end : ℕ) (front mid back : List ℕ)
    → length front ≡ start
    → start + length mid ≡ end
    → slice_range start end (front ++ (mid ++ back)) ≡ ok mid
unfolding slice_range
slice_range-middle start end front mid back hf hm =
    let size = length-append front (mid ++ back) in
    let size2 = length-append mid back in
    let inside : (leb start end && leb end (length (front ++ (mid ++ back)))) ≡ true =
      ground (arith, size, size2, hf, hm) in
    let width : end - start ≡ length mid = omega (arith, hm) in
    rw (inside, width)
      (rw (drop-append_left start front (mid ++ back) hf)
        (rw (take-append_left (length mid) mid back refl) refl))

pub slice_range-backwards :
    (start end : ℕ) (bytes : List ℕ) → end < start → slice_range start end bytes ≡ panic
unfolding slice_range
slice_range-backwards start end bytes h = ground arith

pub slice-middle :
    (start n : ℕ) (front mid back : List ℕ)
    → length front ≡ start
    → length mid ≡ n
    → slice start n (front ++ (mid ++ back)) ≡ mid
slice-middle start n front mid back hf hm =
    ap (take n) (drop-append_left start front (mid ++ back) hf) ∙ take-append_left n mid back hm

-- A decoded text that was copied behind `start` zeros.
pub record Copied (hex : HexCodec) (t : Text) (start : ℕ) (out : List ℕ) : Type 0 where
  pub body : List ℕ
  pub decoded : hex.hex_decode t ≡ fine body
  pub shape : out ≡ replicate start 0 ++ body
  pub size : length out ≡ 32

pub copied_lem :
    (hex : HexCodec) (t : Text) (start : ℕ) (body out : List ℕ)
    → hex.hex_decode t ≡ fine body
    → copied_behind start body ≡ ok out
    → Copied hex t start out
unfolding copied_behind
copied_lem hex t start body out d e = elim (Bool-cases (start + length body == 32)) [
  | inr differs ↦ absurd (cc (rw differs at e))
  | inl same ↦
      let total : start + length body ≡ 32 = (==_iff (start + length body) 32).0 same in
      let given : ok (replicate start 0 ++ body) ≡ ok out = rw same at e in
      let shape : replicate start 0 ++ body ≡ out = cc given in
      record {
        body = body;
        decoded = d;
        shape = sym shape;
        size = rw (← shape) (
            length-append (replicate start 0) body
            ∙ omega (arith, length-replicate {A = ℕ} start 0, total));
      }
]
