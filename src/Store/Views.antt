-- ===== src/Store/Views.antt =====
-- The `HashMap` of src/store.rs as its users see it: association lists up to what they have under each
-- id, so that no order of iteration can be told.
use mathlib.Core.Quot
use mathlib.Core.Quot.{Quot}
use mathlib.Core.List.{Memᴰ}
use mathlib.Core.List.Memᴰ
use pump_poly_router.Base.{
  ◌≡◌, ◌≢◌, refl, sym, ap, ◌∙◌, true, false, List, [], ◌∷◌, some, ◌==◌, ==_iff, Bool-cases, inl,
  inr,
}
use pump_poly_router.Types.{Uuid, OrderIntent}
use pump_poly_router.Text.{Text}
use pump_poly_router.Error.{ok}
use pump_poly_router.External.{fine}
use pump_poly_router.Store.{Files, OrderStore, with_persistence, Orders, lookup, put, collect}
use pump_poly_router.Store.Laws.{lookup-put}

-- Two lists have the same orders under every id.
abbrev pub SameViews : Orders → Orders → Type 0
SameViews m n = (k : Uuid) → lookup k m ≡ lookup k n

abbrev pub OrderMap : Type 0
OrderMap = Quot SameViews

-- What a list of orders gives a map under an id: one of its orders with this id, or what was there.
data Source (k : Uuid) (m : Orders) (os : List OrderIntent) : Type 0 where
  given :
      (o : OrderIntent) → Memᴰ o os → o.id ≡ k → lookup k (collect m os) ≡ some o → Source k m os
  kept :
      ((o : OrderIntent) → Memᴰ o os → o.id ≢ k)
      → lookup k (collect m os) ≡ lookup k m
      → Source k m os

none_has :
    (k : Uuid) (x : OrderIntent) (os : List OrderIntent)
    → (x.id ≡ k → (x.id == k) ≡ true)
    → (x.id == k) ≡ false
    → ((o : OrderIntent) → Memᴰ o os → o.id ≢ k)
    → (o : OrderIntent) → Memᴰ o (x ∷ os)
    → o.id ≢ k
none_has k x os same differs others o (Memᴰ.head e) q =
    let here : x.id ≡ k = ap (λ (y : OrderIntent). y.id) (sym e) ∙ q in cc (same here, differs)
none_has k x os same differs others o (Memᴰ.tail i) q = others o i q

source : (k : Uuid) (m : Orders) (os : List OrderIntent) → Source k m os
unfolding collect
source k m [] = kept (λ o i. absurd (Memᴰ.not-nil i)) refl
source k m (x ∷ os) = elim (source k (put x.id x m) os) [
  | given o i q e ↦ given o (Memᴰ.tail i) q e
  | kept others e ↦ elim (Bool-cases (x.id == k)) [
    | inl same ↦
        given x (Memᴰ.head refl) ((==_iff x.id k).0 same)
          (e ∙ (lookup-put x.id k x m ∙ rw same refl))
    | inr differs ↦
        kept (none_has k x os ((==_iff x.id k).1) differs others)
          (e ∙ (lookup-put x.id k x m ∙ rw differs refl))
  ]
]

-- Two lists have the same orders, in any order and with repetitions.
abbrev pub SameOrders : List OrderIntent → List OrderIntent → Type 0
SameOrders os ps = (o : OrderIntent) → (Memᴰ o os → Memᴰ o ps) × (Memᴰ o ps → Memᴰ o os)

-- No id is that of two orders.
abbrev pub UniqueIds : List OrderIntent → Type 0
UniqueIds os = (o p : OrderIntent) → Memᴰ o os → Memᴰ p os → o.id ≡ p.id → o ≡ p

collect-SameViews :
    (os ps : List OrderIntent)
    → SameOrders os ps
    → UniqueIds os
    → SameViews (collect [] os) (collect [] ps)
collect-SameViews os ps same unique k = elim (source k [] os) [
  | given o i q e ↦ elim (source k [] ps) [
    | given p j r d ↦
        let equal : o ≡ p = unique o p i ((same p).1 j) (q ∙ sym r) in e ∙ (ap some equal ∙ sym d)
    | kept others d ↦ absurd (others o ((same o).0 i) q)
  ]
  | kept others e ↦ elim (source k [] ps) [
    | given p j r d ↦ absurd (others p ((same p).1 j) r)
    | kept nowhere d ↦ e ∙ sym d
  ]
]

-- The map behind a store, and what it has under an id.
abbrev pub view : OrderStore → OrderMap
view s = Quot.mk s.orders

module _ {World : Type 0} (files : Files World) where
  -- Two snapshots that parse to the same orders, in whatever order the map's values were written, with
  -- no two orders under one id, load as the same map, at the same path.
  pub with_persistence_unordered :
      (path : Text) (v v' w w' : World) (raw raw' : Text) (os ps : List OrderIntent)
      → files.path_exists path v ≡ true
      → files.path_exists path v' ≡ true
      → files.read_file path v ≡ (fine raw, w)
      → files.read_file path v' ≡ (fine raw', w')
      → files.from_json raw ≡ fine os
      → files.from_json raw' ≡ fine ps
      → SameOrders os ps
      → UniqueIds os
      → (s : OrderStore) × (s' : OrderStore) × (with_persistence files path v ≡ (ok s, w))
        × (with_persistence files path v' ≡ (ok s', w'))
        × (view s ≡ view s')
        × (s.persist_path ≡ s'.persist_path)
  unfolding with_persistence
  with_persistence_unordered path v v' w w' raw raw' os ps there there' read read' parsed parsed'
        same unique =
      (
        record { orders = collect [] os; persist_path = some path },
        record { orders = collect [] ps; persist_path = some path },
        rw (there, read, parsed) refl,
        rw (there', read', parsed') refl,
        Quot.sound (collect-SameViews os ps same unique),
        refl,
      )
