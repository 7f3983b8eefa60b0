-- ===== src/Tests/OnStore.antt =====
-- The theorems on the order store, applied.
use mathlib.Core.List.{Memᴰ}
use pump_poly_router.Store.Views.{UniqueIds, view, with_persistence_unordered}
use pump_poly_router.External.{fine, fault}
use pump_poly_router.Base.{
  ◌≡◌, ◌≢◌, refl, sym, ap, ◌∙◌, arith, [], ◌∷◌, ◌++◌, none, some, All, ◌==◌, if◌then◌else◌,
}
use pump_poly_router.Text.{text}
use pump_poly_router.Error.{ok, err, other}
use pump_poly_router.Types.{Uuid, Float, OrderIntent, pending, bridge_complete}
use pump_poly_router.Store.{
  Files, OrderStore, lookup, put, values, get, update, flush, write_snapshot, insert, pending_ids,
  with_persistence,
}
use pump_poly_router.Store.Laws.{
  IsStore, get-update, insert_lem, is_open, contains, contains-pending_ids,
}
use pump_poly_router.Store.Restart.{order_floats, restart-update}
use pump_poly_router.Tests.Fixtures.{
  Machine, Finite, numbered, parse, print, boot, plain, one_file, one_file-IsFiles, bet,
}

abbrev one_order : OrderStore
one_order = record { orders = (1, bet pending) ∷ []; persist_path = none }

one_order-IsStore : IsStore one_order
unfolding lookup
one_order-IsStore = (refl, refl, tt)

-- Two stored orders, one with a position of 1.0 shares.
abbrev on_disk : OrderStore
on_disk = record {
  orders = (1, numbered 1 900 0x3ff0000000000000 60 30 0 5) ∷ (7, plain 7) ∷ [];
  persist_path = some (text "orders.json");
}

abbrev revised : OrderIntent
revised = numbered 7 500 0x4000000000000000 90 100 2 8

update_succeeds : (update one_file revised on_disk boot).0 ≡ ok tt
unfolding update flush write_snapshot put values
update_succeeds = refl

on_disk-IsStore : IsStore on_disk
unfolding lookup
on_disk-IsStore = (refl, refl, (refl, refl, tt))

on_disk-Finite : All (λ o. All Finite (order_floats o)) (values on_disk.orders)
unfolding values
on_disk-Finite = ((omega arith, tt), ((omega arith, tt), tt))

restart-update_example :
    let (r, s', w') = update one_file revised on_disk boot in
    (t : OrderStore) × ((with_persistence one_file (text "orders.json") w').0 ≡ ok t)
    × ((k : Uuid) → get k t ≡ (if 7 == k then some revised else get k on_disk))
restart-update_example =
    restart-update one_file Finite one_file-IsFiles (text "orders.json") revised on_disk boot
      on_disk-IsStore (omega arith, tt) on_disk-Finite refl update_succeeds

-- Not a number.
abbrev nan : Float
nan = 0x7ff8000000000000

-- Where a float is not finite, the snapshot is written and cannot be read.
nan_is_written :
    print (numbered 7 500 nan 90 100 2 8 ∷ []) ≡ fine (7 ∷ 500 ∷ 0 ∷ 90 ∷ 100 ∷ 2 ∷ 8 ∷ [])
nan_is_written = refl

nan_is_refused : parse (7 ∷ 500 ∷ 0 ∷ 90 ∷ 100 ∷ 2 ∷ 8 ∷ []) ≡ fault (text "null is no f64")
nan_is_refused = refl

get-update_example :
    let s' = (update one_file (bet (bridge_complete 5)) one_order boot).1 in
    (get 1 s' ≡ (if 1 == 1 then some (bet (bridge_complete 5)) else get 1 one_order))
    × (s'.persist_path ≡ one_order.persist_path)
    × IsStore s'
get-update_example =
    get-update one_file (bet (bridge_complete 5)) one_order boot 1 one_order-IsStore

insert_lem_example :
    (get 1 one_order ≢ none
      → insert one_file (bet pending) one_order boot
        ≡ (err (other (text "duplicate order id: " ++ one_file.uuid_to_string 1)), one_order, boot))
    × (get 1 one_order ≡ none
        → get 1 (insert one_file (bet pending) one_order boot).1
          ≡ (if 1 == 1 then some (bet pending) else get 1 one_order))
    × IsStore (insert one_file (bet pending) one_order boot).1
insert_lem_example = insert_lem one_file (bet pending) one_order boot 1 one_order-IsStore

contains-pending_ids_example : contains 1 (pending_ids one_order) ≡ is_open (get 1 one_order)
contains-pending_ids_example = contains-pending_ids 1 one_order one_order-IsStore

-- A file that starts with a byte has the two orders the other way round.
abbrev two_orders : Files Machine
two_orders = record one_file {
  from_json =
      λ t. elim t [ [] ↦ fine (plain 1 ∷ plain 2 ∷ []) | c ∷ s ↦ fine (plain 2 ∷ plain 1 ∷ []) ];
}

abbrev one_way : Machine
one_way = record boot { file = some [] }

abbrev other_way : Machine
other_way = record boot { file = some (1 ∷ []) }

swapped : (a b o : OrderIntent) → Memᴰ o (a ∷ b ∷ []) → Memᴰ o (b ∷ a ∷ [])
swapped a b o (Memᴰ.head e) = Memᴰ.tail (Memᴰ.head e)
swapped a b o (Memᴰ.tail (Memᴰ.head e)) = Memᴰ.head e
swapped a b o (Memᴰ.tail (Memᴰ.tail i)) = elim i [ ]

two-UniqueIds : UniqueIds (plain 1 ∷ plain 2 ∷ [])
two-UniqueIds o p (Memᴰ.head e) (Memᴰ.head f) q = e ∙ sym f
two-UniqueIds o p (Memᴰ.head e) (Memᴰ.tail (Memᴰ.head f)) q =
    absurd (omega (arith, ap (λ (x : OrderIntent). x.id) e, ap (λ (x : OrderIntent). x.id) f, q))
two-UniqueIds o p (Memᴰ.head e) (Memᴰ.tail (Memᴰ.tail i)) q = elim i [ ]
two-UniqueIds o p (Memᴰ.tail (Memᴰ.head e)) (Memᴰ.tail (Memᴰ.tail i)) q = elim i [ ]
two-UniqueIds o p (Memᴰ.tail (Memᴰ.tail i)) j q = elim i [ ]
two-UniqueIds o p (Memᴰ.tail (Memᴰ.head e)) (Memᴰ.head f) q =
    absurd (omega (arith, ap (λ (x : OrderIntent). x.id) e, ap (λ (x : OrderIntent). x.id) f, q))
two-UniqueIds o p (Memᴰ.tail (Memᴰ.head e)) (Memᴰ.tail (Memᴰ.head f)) q = e ∙ sym f

with_persistence_unordered_example :
    (s : OrderStore) × (s' : OrderStore) × (with_persistence two_orders (text "orders") one_way
      ≡ (ok s, one_way))
    × (with_persistence two_orders (text "orders") other_way ≡ (ok s', other_way))
    × (view s ≡ view s')
    × (s.persist_path ≡ s'.persist_path)
with_persistence_unordered_example =
    with_persistence_unordered two_orders (text "orders") one_way other_way one_way other_way []
      (1 ∷ []) (plain 1 ∷ plain 2 ∷ []) (plain 2 ∷ plain 1 ∷ []) refl refl refl refl refl refl
      (λ o. (swapped (plain 1) (plain 2) o, swapped (plain 2) (plain 1) o)) two-UniqueIds
