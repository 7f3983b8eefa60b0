-- ===== src/Store/Laws.antt =====
-- The store as a map from ids to orders.
use pump_poly_router.Base.{
  ℕ, ◌≡◌, ◌≢◌, refl, ◌∙◌, Bool, false, not, ◌||◌, List, [], ◌∷◌, ◌++◌, Option, none, some, arith,
  ◌==◌, ==_iff, if◌then◌else◌, Bool-cases, Option-cases, inl, inr,
}
use pump_poly_router.Text.{text}
use pump_poly_router.Error.{err, panic, other}
use pump_poly_router.Types.{Uuid, OrderIntent, is_terminal}
use pump_poly_router.Store.{
  Files, Orders, lookup, put, values, OrderStore, get, open_ids, pending_ids, flush, write_snapshot,
  update, insert,
}

pub lookup-put :
    (k j : Uuid) (o : OrderIntent) (m : Orders)
    → lookup j (put k o m) ≡ (if k == j then some o else lookup j m)
unfolding lookup put
lookup-put k j o [] = refl
lookup-put k j o ((i, p) ∷ m) = ground (arith, lookup-put k j o m)

-- Every key is the id of its order, and no key comes twice: what the methods of `OrderStore` keep.
abbrev pub IsMap : Orders → Type 0
IsMap [] = Unit
IsMap ((k, o) ∷ m) = (k ≡ o.id) × (lookup k m ≡ none) × IsMap m

abbrev pub IsStore : OrderStore → Type 0
IsStore s = IsMap s.orders

put-IsMap : (k : Uuid) (o : OrderIntent) (m : Orders) → k ≡ o.id → IsMap m → IsMap (put k o m)
unfolding put
put-IsMap k o [] e h = (e, (unfold lookup in refl), tt)
put-IsMap k o ((j, p) ∷ m) e (ej, fresh, h) = elim (Bool-cases (j == k)) [
  | inl same ↦ let q : j ≡ k = (==_iff j k).0 same in rw same (e, rw (← q) fresh, h)
  | inr differs ↦ rw differs (ej, lookup-put k j o m ∙ ground (arith, fresh), put-IsMap k o m e h)
]

module _ {World : Type 0} (files : Files World) (order : OrderIntent) (s : OrderStore)
    (w : World) where
  -- After `update`, whether or not the snapshot could be written, the order is stored under its id,
  -- every other id has what it had, the path is the same and the store is still well formed.
  pub get-update :
      (j : Uuid)
      → IsStore s
      → let s' = (update files order s w).1 in
        (get j s' ≡ (if order.id == j then some order else get j s))
        × (s'.persist_path ≡ s.persist_path)
        × IsStore s'
  unfolding update get
  get-update j h =
      (lookup-put order.id j order s.orders, refl, put-IsMap order.id order s.orders refl h)

  insert-eq-update : get order.id s ≡ none → insert files order s w ≡ update files order s w
  unfolding insert
  insert-eq-update e = rw (e, insert)

  insert_duplicate :
      {old : OrderIntent}
      → get order.id s ≡ some old
      → insert files order s w
        ≡ (err (other (text "duplicate order id: " ++ files.uuid_to_string order.id)), s, w)
  unfolding insert
  insert_duplicate e = rw (e, insert)

  -- `insert` refuses an order whose id is present, with the duplicate error and no change to the
  -- store or the world; it stores any other order under its id, leaves every other id alone, and
  -- keeps the store well formed.
  pub insert_lem :
      (j : Uuid)
      → IsStore s
      → (get order.id s ≢ none
          → insert files order s w
            ≡ (err (other (text "duplicate order id: " ++ files.uuid_to_string order.id)), s, w))
        × (get order.id s ≡ none
            → get j (insert files order s w).1 ≡ (if order.id == j then some order else get j s))
        × IsStore (insert files order s w).1
  insert_lem j h = elim (Option-cases (get order.id s)) [
    | inl fresh ↦
        rw (insert-eq-update fresh)
          ((λ present. absurd (present fresh)), (λ _. (get-update j h).0), (get-update j h).2)
    | inr (old, taken) ↦ rw (insert_duplicate taken) ((λ _. refl), (λ e. cc (taken, e)), h)
  ]

abbrev pub contains : ℕ → List ℕ → Bool
contains a [] = false
contains a (x ∷ xs) = x == a || contains a xs

abbrev pub is_open : Option OrderIntent → Bool
is_open none = false
is_open (some o) = not (is_terminal o.status)

contains-open_ids :
    (k : Uuid) (m : Orders) → IsMap m → contains k (open_ids (values m)) ≡ is_open (lookup k m)
unfolding open_ids values lookup
contains-open_ids k [] h = refl
contains-open_ids k ((j, o) ∷ m) (e, fresh, h) =
    let ih = contains-open_ids k m h in ground (arith, ih, e, fresh, ==_iff j k)

-- `pending_ids` of a well-formed store lists exactly the ids whose stored order is not in a terminal
-- state.
pub contains-pending_ids :
    (k : Uuid) (s : OrderStore) → IsStore s → contains k (pending_ids s) ≡ is_open (get k s)
unfolding pending_ids get
contains-pending_ids k s h = contains-open_ids k s.orders h

lookup_id : (k : Uuid) (m : Orders) (o : OrderIntent) → IsMap m → lookup k m ≡ some o → o.id ≡ k
unfolding lookup
lookup_id k [] o h e = cc
lookup_id k ((j, q) ∷ m) o (ej, fresh, h) e = ground (arith, lookup_id k m o h, ==_iff j k)

-- An order is stored under its own id.
pub id-get : (k : Uuid) (s : OrderStore) {o : OrderIntent} → IsStore s → get k s ≡ some o → o.id ≡ k
unfolding get
id-get k s {o} h e = lookup_id k s.orders o h e

-- Writing the snapshot may fail; it does not panic.
pub update-ne-panic :
    {World : Type 0} (files : Files World) (order : OrderIntent) (s : OrderStore) (w : World)
    → (update files order s w).0 ≢ panic
unfolding update flush write_snapshot
update-ne-panic files order s w e = ground arith
