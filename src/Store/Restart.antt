-- ===== src/Store/Restart.antt =====
-- What a restart finds: the snapshot of src/store.rs, written and read.
use pump_poly_router.Base.{
  ◌≡◌, refl, ◌∙◌, true, List, [], ◌∷◌, Option, none, some, arith, ◌==◌, ==_iff, if◌then◌else◌,
  Option-cases, Bool-cases, All, inl, inr,
}
use pump_poly_router.Text.{Text}
use pump_poly_router.Error.{ok, io}
use pump_poly_router.External.{Reply, fine, fault, Reply-cases}
use pump_poly_router.Effect.{converted}
use pump_poly_router.Types.{Uuid, Float, OrderStatus, OrderIntent, polymarket_filled}
use pump_poly_router.Store.{
  Files, Orders, lookup, put, values, OrderStore, get, collect, flush, write_snapshot, update,
  with_persistence,
}
use pump_poly_router.Store.Laws.{IsMap, IsStore, lookup-put, get-update}

-- The floats of a status, and of an order.
abbrev pub status_floats : OrderStatus → List Float
status_floats (polymarket_filled shares avg_price) = shares ∷ avg_price ∷ []
status_floats _ = []

abbrev pub order_floats : OrderIntent → List Float
order_floats o = o.min_position_shares ∷ status_floats o.status

-- What `std::fs` and `serde_json` document, for the floats that `serde_json` reads back as they were,
-- `exact`: a NaN or an infinity is written as `null`, which is refused as a float, and without
-- its feature `float_roundtrip` a long fraction may change in its last place. A file reads as it was
-- last written, and a text that `to_string_pretty` made of orders with exact floats parses to what it
-- was made from.
pub record IsFiles {World : Type 0} (files : Files World) (exact : Float → Type 0) : Type 0 where
  pub read_back :
      (path snapshot : Text) (w w' : World)
      → files.write_file path snapshot w ≡ (fine tt, w')
      → (files.path_exists path w' ≡ true) × ((files.read_file path w').0 ≡ fine snapshot)
  pub parse_back :
      (orders : List OrderIntent) (snapshot : Text)
      → All (λ o. All exact (order_floats o)) orders
      → files.to_json orders ≡ fine snapshot
      → files.from_json snapshot ≡ fine orders

All-values-put :
    (P : OrderIntent → Type 0) (k : Uuid) (o : OrderIntent) (m : Orders)
    → P o
    → All P (values m)
    → All P (values (put k o m))
unfolding values put
All-values-put P k o [] h hs = (h, tt)
All-values-put P k o ((j, p) ∷ m) h (hp, hs) = elim (Bool-cases (j == k)) [
  | inl same ↦ rw same (h, hs)
  | inr differs ↦ rw differs (hp, All-values-put P k o m h hs)
]

abbrev or_else : Option OrderIntent → Option OrderIntent → Option OrderIntent
or_else (some o) d = some o
or_else none d = d

-- Collecting the orders of a map finds them under the same ids.
lookup-collect :
    (k : Uuid) (acc m : Orders)
    → IsMap m
    → lookup k (collect acc (values m)) ≡ or_else (lookup k m) (lookup k acc)
unfolding collect values lookup
lookup-collect k acc [] h = refl
lookup-collect k acc ((j, o) ∷ m) (e, fresh, h) =
    let ih = lookup-collect k (put o.id o acc) m h in
    ground (arith, ih, lookup-put o.id k o acc, e, fresh, ==_iff j k)

lookup-collect_nil :
    (k : Uuid) (m : Orders) → IsMap m → lookup k (collect [] (values m)) ≡ lookup k m
lookup-collect_nil k m h = elim (Option-cases (lookup k m)) [
  | inl missing ↦ lookup-collect k [] m h ∙ rw missing (unfold lookup in refl)
  | inr (o, found) ↦ lookup-collect k [] m h ∙ rw found
]

written_ok :
    {World : Type 0} (r : Reply (Unit {0}) × World) (w' : World)
    → converted io r ≡ (ok tt, w')
    → r ≡ (fine tt, w')
written_ok (fine t, v) w' q = cc q
written_ok (fault b, v) w' q = cc q

module _ {World : Type 0} (files : Files World) where
  -- What a successful `flush` of a persistent store did.
  write_snapshot_ok :
      (path : Text) (m : Orders) (w w' : World)
      → write_snapshot files path m w ≡ (ok tt, w')
      → (snapshot : Text) × (files.to_json (values m) ≡ fine snapshot)
        × (files.write_file path snapshot w ≡ (fine tt, w'))
  unfolding write_snapshot
  write_snapshot_ok path m w w' e = elim (Reply-cases (files.to_json (values m))) [
    | inr (bad, unmade) ↦ absurd (cc (rw unmade at e))
    | inl (snapshot, made) ↦
        (snapshot, made, written_ok (files.write_file path snapshot w) w' (rw made at e))
  ]

  flush_ok :
      (path : Text) (s : OrderStore) (w w' : World)
      → s.persist_path ≡ some path
      → flush files s w ≡ (ok tt, w')
      → write_snapshot files path s.orders w ≡ (ok tt, w')
  unfolding flush
  flush_ok path s w w' p e = rw p at e

module _ {World : Type 0} (files : Files World) (exact : Float → Type 0)
    (is_files : IsFiles files exact) where
  -- A store that was written out is read back.
  reload-flush :
      (path : Text) (s : OrderStore) (w w' : World)
      → IsStore s
      → All (λ o. All exact (order_floats o)) (values s.orders)
      → s.persist_path ≡ some path
      → flush files s w ≡ (ok tt, w')
      → (t : OrderStore) × ((with_persistence files path w').0 ≡ ok t)
        × ((k : Uuid) → get k t ≡ get k s)
  unfolding with_persistence
  reload-flush path s w w' h floats p e =
      let (snapshot, made, wrote) =
        write_snapshot_ok files path s.orders w w' (flush_ok files path s w w' p e) in
      let (there, reads) = is_files.read_back path snapshot w w' wrote in
      let parses = is_files.parse_back (values s.orders) snapshot floats made in
      (
        record { orders = collect [] (values s.orders); persist_path = some path },
        rw there (ground (arith, reads, parses)),
        (λ k. unfold get in lookup-collect_nil k s.orders h),
      )

  -- After an `update` that returned `Ok` on a well-formed persistent store, where the floats of
  -- the orders in it and of the updated one are such as `serde_json` reads back,
  -- `with_persistence` on the same path succeeds, and every id has the order that it had before
  -- the restart, the updated order included.
  pub restart-update :
      (path : Text) (order : OrderIntent) (s : OrderStore) (w : World)
      → IsStore s
      → All exact (order_floats order)
      → All (λ o. All exact (order_floats o)) (values s.orders)
      → s.persist_path ≡ some path
      → (update files order s w).0 ≡ ok tt
      → let (r, s', w') = update files order s w in
        (t : OrderStore) × ((with_persistence files path w').0 ≡ ok t)
        × ((k : Uuid) → get k t ≡ (if order.id == k then some order else get k s))
  unfolding update
  restart-update path order s w h float floats p e =
      let s' : OrderStore = record s { orders = put order.id order s.orders } in
      let kept =
        All-values-put (λ o. All exact (order_floats o)) order.id order s.orders float floats in
      let (t, found, same) =
        reload-flush path s' w (flush files s' w).1 ((get-update files order s w order.id h).2) kept
          p (ground (arith, e)) in
      (t, found, (λ k. same k ∙ (get-update files order s w k h).0))
