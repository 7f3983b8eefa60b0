-- ===== src/Bridge/Cctp/Calldata/Layout.antt =====
-- A block of two arguments of type `bytes`, as the contract ABI lays it out, and its reader.
use pump_poly_router.Base.{
  ℕ, ◌+◌, ◌*◌, ◌≤◌, ◌≡◌, refl, sym, ap, ◌∙◌, true, Option, none, some, List, [], ◌++◌, append_assoc,
  arith, leb, if◌then◌else◌, length, All, length-append, All-append, slice,
}
use pump_poly_router.Words.{IsByte, be_value}
use pump_poly_router.Slices.{slice-middle}

-- Argument `i` of type `bytes`, as the contract ABI reads it: its head word is the offset of a length
-- word, behind which the bytes stand.
abbrev pub abi_bytes : ℕ → List ℕ → Option (List ℕ)
abi_bytes i block =
    let offset = be_value (slice (32 * i) 32 block) in
    let size = be_value (slice offset 32 block) in
    if leb (offset + 32 + size) (length block) then some (slice (offset + 32) size block) else none

abi_bytes-found :
    (i offset size : ℕ) (block body : List ℕ)
    → be_value (slice (32 * i) 32 block) ≡ offset
    → be_value (slice offset 32 block) ≡ size
    → slice (offset + 32) size block ≡ body
    → offset + 32 + size ≤ length block
    → abi_bytes i block ≡ some body
abi_bytes-found i offset size block body head len at fits =
    let inside : leb (offset + 32 + size) (length block) ≡ true = ground (arith, fits) in
    rw (head, len, inside, at) refl

-- The parts of the block: head words, length word, bytes, padding; length word, bytes, padding.
module _ (w x l m p k a q : List ℕ) where
  abbrev pub parts : List ℕ
  parts = w ++ (x ++ (l ++ (m ++ (p ++ (k ++ (a ++ q))))))

  abbrev pub before_second : List ℕ
  before_second = w ++ (x ++ (l ++ (m ++ p)))

  at_length : (w ++ x) ++ (l ++ (m ++ (p ++ (k ++ (a ++ q))))) ≡ parts
  at_length = append_assoc w x (l ++ (m ++ (p ++ (k ++ (a ++ q)))))

  at_first : (w ++ (x ++ l)) ++ (m ++ (p ++ (k ++ (a ++ q)))) ≡ parts
  at_first = simp append_assoc

  at_second_length : before_second ++ (k ++ (a ++ q)) ≡ parts
  at_second_length = simp append_assoc

  at_second : (before_second ++ k) ++ (a ++ q) ≡ parts
  at_second = simp append_assoc

  length-parts :
      length parts
      ≡ length w + length x + length l + length m + length p + length k + length a + length q
  length-parts = omega (
    arith,
    length-append w (x ++ (l ++ (m ++ (p ++ (k ++ (a ++ q)))))),
    length-append x (l ++ (m ++ (p ++ (k ++ (a ++ q))))),
    length-append l (m ++ (p ++ (k ++ (a ++ q)))),
    length-append m (p ++ (k ++ (a ++ q))),
    length-append p (k ++ (a ++ q)),
    length-append k (a ++ q),
    length-append a q,
  )

  pub length-before_second :
      length before_second ≡ length w + length x + length l + length m + length p
  length-before_second = omega (
    arith,
    length-append w (x ++ (l ++ (m ++ p))),
    length-append x (l ++ (m ++ p)),
    length-append l (m ++ p),
    length-append m p,
  )

  pub parts-IsByte :
      All IsByte w
      → All IsByte x
      → All IsByte l
      → All IsByte m
      → All IsByte p
      → All IsByte k
      → All IsByte a
      → All IsByte q
      → All IsByte parts
  parts-IsByte hw hx hl hm hp hk ha hq =
      let tail : All IsByte (k ++ (a ++ q)) =
        All-append IsByte k (a ++ q) hk (All-append IsByte a q ha hq) in
      let mid : All IsByte (m ++ (p ++ (k ++ (a ++ q)))) =
        All-append IsByte m (p ++ (k ++ (a ++ q))) hm
          (All-append IsByte p (k ++ (a ++ q)) hp tail) in
      All-append IsByte w (x ++ (l ++ (m ++ (p ++ (k ++ (a ++ q)))))) hw (
        All-append IsByte x (l ++ (m ++ (p ++ (k ++ (a ++ q))))) hx
          (All-append IsByte l (m ++ (p ++ (k ++ (a ++ q)))) hl mid))

module _ (w x l m p k a q : List ℕ) (hw : length w ≡ 32) (hx : length x ≡ 32) (hl : length l ≡ 32)
    (hk : length k ≡ 32) where
  read_first_head : slice 0 32 (parts w x l m p k a q) ≡ w
  read_first_head = slice-middle 0 32 [] w _ refl hw

  read_second_head : slice 32 32 (parts w x l m p k a q) ≡ x
  read_second_head = slice-middle 32 32 w x _ hw hx

  read_first_length : slice 64 32 (parts w x l m p k a q) ≡ l
  read_first_length =
      ap (slice 64 32) (sym (at_length w x l m p k a q))
      ∙ slice-middle 64 32 (w ++ x) l _ (length-append w x ∙ omega (arith, hw, hx)) hl

  read_first : slice 96 (length m) (parts w x l m p k a q) ≡ m
  read_first =
      ap (slice 96 (length m)) (sym (at_first w x l m p k a q))
      ∙ slice-middle 96 (length m) (w ++ (x ++ l)) m _
          (omega (arith, length-append w (x ++ l), length-append x l, hw, hx, hl)) refl

  read_second_length :
      (at : ℕ)
      → length (before_second w x l m p k a q) ≡ at
      → slice at 32 (parts w x l m p k a q) ≡ k
  read_second_length at e =
      ap (slice at 32) (sym (at_second_length w x l m p k a q))
      ∙ slice-middle at 32 (before_second w x l m p k a q) k _ e hk

  read_second :
      (at : ℕ)
      → length (before_second w x l m p k a q) ≡ at
      → slice (at + 32) (length a) (parts w x l m p k a q) ≡ a
  read_second at e =
      ap (slice (at + 32) (length a)) (sym (at_second w x l m p k a q))
      ∙ slice-middle (at + 32) (length a) (before_second w x l m p k a q ++ k) a q
          (length-append (before_second w x l m p k a q) k ∙ omega (arith, e, hk)) refl

  module _ (vw : be_value w ≡ 64) (vl : be_value l ≡ length m)
      (vx : be_value x ≡ length (before_second w x l m p k a q)) (vk : be_value k ≡ length a) where
    pub first_read : abi_bytes 0 (parts w x l m p k a q) ≡ some m
    first_read =
        abi_bytes-found 0 64 (length m) (parts w x l m p k a q) m (ap be_value read_first_head ∙ vw)
          (ap be_value read_first_length ∙ vl) read_first
          (omega (arith, length-parts w x l m p k a q, hw, hx, hl))

    pub second_read : abi_bytes 1 (parts w x l m p k a q) ≡ some a
    second_read =
        let at = length (before_second w x l m p k a q) in
        abi_bytes-found 1 at (length a) (parts w x l m p k a q) a
          (ap be_value read_second_head ∙ vx) (ap be_value (read_second_length at refl) ∙ vk)
          (read_second at refl)
          (omega (arith, length-parts w x l m p k a q, length-before_second w x l m p k a q, hk))
